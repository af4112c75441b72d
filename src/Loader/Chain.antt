-- ===== src/Loader/Chain.antt =====
-- The chains that the loader builds from the initialised plugins, and their shutdown.
use yaagents_gateway.Prelude.{
  String, Bool, false, List, [], ◌∷◌, reverse, Option, none, some, if◌then◌else◌,
}
use yaagents_gateway.Prelude.Maps.{lookup}
use yaagents_gateway.Value.{Object}
use yaagents_gateway.Http.Request.{Handler}
use yaagents_gateway.Plugin.Contract.{Plugin}
use yaagents_gateway.Loader.{says_disabled, token_validator_name}
use yaagents_gateway.Routes.{Route}

-- Whether a route's overrides switch the plugin off.
unfoldable pub overridden_off : List (String × Object) → String → Bool
unfolding says_disabled
overridden_off overrides name = elim (lookup name overrides) [
  | none ↦ false
  | some override ↦ says_disabled override
]

-- `ValidateRouteOverrides`: the id of the first route that switches token-validator off.
unfoldable pub validate_route_overrides : List Route → Option String
unfolding overridden_off
validate_route_overrides [] = none
validate_route_overrides (r ∷ rs) =
    if overridden_off r.plugins token_validator_name then some r.id else validate_route_overrides rs

module _ {W : Type 0} where
  -- The loop of `Chain`, over the plugins from the last to the first.
  unfoldable pub wrap_all : List (Plugin W) → Handler W → Handler W
  wrap_all [] h = h
  wrap_all (p ∷ ps) h = wrap_all ps (p.handler h)

  -- `Chain`
  unfoldable pub chain : List (Plugin W) → Handler W → Handler W
  unfolding wrap_all
  chain ordered next = wrap_all (reverse ordered) next

  -- The loop of `ChainFor`.
  unfoldable pub wrap_enabled : List (String × Object) → List (Plugin W) → Handler W → Handler W
  wrap_enabled overrides [] h = h
  wrap_enabled overrides (p ∷ ps) h =
      wrap_enabled overrides ps (if overridden_off overrides p.name then h else p.handler h)

  -- `ChainFor`
  unfoldable pub chain_for : List (String × Object) → List (Plugin W) → Handler W → Handler W
  unfolding wrap_enabled
  chain_for overrides ordered next = wrap_enabled overrides (reverse ordered) next

  -- The loop of `Shutdown`: the new state and the names of the plugins that were shut down, with
  -- the error of each that failed. An error stops nothing.
  unfoldable pub shutdown_each : List (Plugin W) → W → W × List (String × Option String)
  shutdown_each [] w = (w, [])
  shutdown_each (p ∷ ps) w =
      let (w', failure) = p.shutdown w in
      let (w'', done) = shutdown_each ps w' in (w'', (p.name, failure) ∷ done)

  -- `Shutdown`
  unfoldable pub shutdown : List (Plugin W) → W → W × List (String × Option String)
  unfolding shutdown_each
  shutdown ordered w = shutdown_each (reverse ordered) w
