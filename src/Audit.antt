-- ===== src/Audit.antt =====
-- internal/audit/audit.go: the audit log as the list of its events, and the choice of the sink.
use Prim.Native.Nat.{ℕ}
use yaagents_gateway.Prelude.{
  String, Bool, ◌||◌, List, [], ◌∷◌, ◌++◌, Option, none, some, if◌then◌else◌, ◌==◌,
}

pub record Event : Type 0 where
  pub timestamp : String
  pub route_id : String
  pub method : String
  pub path : String
  pub tenant_id : String
  pub actor_subject : String
  pub status_code : ℕ
  pub latency_ms : ℕ
  pub correlation_id : String
  pub request_id : String

-- `Log`
abbrev pub log_event : Event → List Event → List Event
log_event e events = events ++ e ∷ []

pub data Sink : Type 0 where
  stdout : Sink
  append_to : String → Sink

-- `OpenSink`, with the opening of the file as a parameter that says whether it succeeds.
unfoldable pub open_sink : (String → Bool) → String → Option Sink
open_sink opens path =
    if path == "" || path == "stdout"
    then some stdout
    else if opens path
    then some (append_to path)
    else none
