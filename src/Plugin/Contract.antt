-- ===== src/Plugin/Contract.antt =====
-- plugin/plugin.go: what every plugin gives the gateway. A plugin is one object that all requests
-- share; its fields live in the process state W, which Init, Handler and Shutdown read and write.
use yaagents_gateway.Prelude.{String, Option}
use yaagents_gateway.Http.Request.{Handler}
use yaagents_gateway.Plugin.MapConfig.{MapConfig}

pub record Plugin (W : Type 0) : Type 0 where
  pub name : String
  -- The new state, and the error text if Init fails.
  pub init : MapConfig → W → W × Option String
  pub handler : Handler W → Handler W
  pub shutdown : W → W × Option String
