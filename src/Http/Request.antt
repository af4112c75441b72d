-- ===== src/Http/Request.antt =====
-- An inbound request, and handlers over the state W of the process.
use yaagents_gateway.Prelude.{String}
use yaagents_gateway.Http.Header.{Header}
use yaagents_gateway.Http.Context.{Context}
use yaagents_gateway.Http.Writer.{Writer}

pub record Request : Type 0 where
  pub method : String
  pub path : String
  pub raw_query : String
  pub header : Header
  pub body : String
  pub context : Context

abbrev pub with_context : Request → Context → Request
with_context r c = record r { context = c }

abbrev pub Handler : Type 0 → Type 0
Handler W = Request → Writer → W → Writer × W
