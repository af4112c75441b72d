-- ===== src/World.antt =====
-- The state that the gateway's handlers share, and what the gateway asks of the outside: the
-- network, the clock and net/url. The state X of the outside changes as it is asked.
use Prim.Native.Nat.{ℕ}
use yaagents_gateway.Prelude.{String, Bool, true, false, List, [], ◌∷◌, Option, if◌then◌else◌}
use yaagents_gateway.Prelude.Result.{Result}
use yaagents_gateway.Http.Header.{Header}
use yaagents_gateway.Audit.{Event}
use yaagents_gateway.Metrics.{Metrics}
use yaagents_gateway.Llm.Limiter.{Limiter}
use yaagents_gateway.Llm.SseMetrics.{SseMetrics}

pub record Url : Type 0 where
  pub scheme : String
  pub user : String
  pub host : String
  pub path : String
  pub raw_query : String
  pub fragment : String

-- A request to an upstream, with the nanoseconds that its context leaves it.
pub record Outbound : Type 0 where
  pub method : String
  pub url : Url
  pub host : String
  pub header : Header
  pub body : String
  pub timeout : Option ℕ

-- What a Read returned with its bytes: a nil error, io.EOF or another error.
pub data ReadEnd : Type 0 where
  no_error eof failed : ReadEnd

-- One Read of a response body.
pub record Read : Type 0 where
  pub bytes : String
  pub ending : ReadEnd

-- `err != nil`
unfoldable pub is_last : Read → Bool
is_last r = elim r.ending [ no_error ↦ false | eof ↦ true | failed ↦ true ]

abbrev pub is_failed : Read → Bool
is_failed r = elim r.ending [ no_error ↦ false | eof ↦ false | failed ↦ true ]

-- Whether the body ends with an error other than io.EOF.
abbrev pub body_failed : List Read → Bool
body_failed [] = false
body_failed (r ∷ rs) = let rest = body_failed rs in if is_last r then is_failed r else rest

pub record Upstream : Type 0 where
  pub status : ℕ
  pub header : Header
  pub reads : List Read

-- Why a round trip failed, by what the request's context says then.
pub data TransportError : Type 0 where
  deadline_exceeded canceled unreachable : TransportError

pub record Outside (X : Type 0) : Type 0 where
  pub parse_url : String → Option Url
  pub round_trip : Outbound → X → Result TransportError Upstream × X
  pub now_ms : X → ℕ × X
  pub timestamp : X → String × X

-- `none` where the source has a nil pointer, which switches the feature off.
pub record World (X : Type 0) : Type 0 where
  pub metrics : Option Metrics
  pub audit_log : Option (List Event)
  pub limiter : Option Limiter
  pub sse : Option SseMetrics
  pub outside : X
