-- ===== src/Http/Writer.antt =====
-- http.ResponseWriter and internal/response/error.go. The first WriteHeader sends the status with
-- the headers set so far; a later one is ignored. Texts that fmt.Sprintf makes are kept as the
-- format with its arguments. Statuses are those of final responses, 200 to 999.
use Prim.Native.Nat.{ℕ}
use yaagents_gateway.Prelude.{String, Bool, true, false, List, [], ◌∷◌, ◌++◌, Option, none, some}
use yaagents_gateway.Prelude.Int.{ℤ}
use yaagents_gateway.Http.Header
use yaagents_gateway.Http.Header.{Header}

pub data Arg : Type 0 where
  text : String → Arg
  number : ℤ → Arg

pub record Message : Type 0 where
  pub format : String
  pub args : List Arg

abbrev pub plain : String → Message
plain s = record { format = s; args = [] }

abbrev pub sprintf : String → List Arg → Message
sprintf s xs = record { format = s; args = xs }

pub record Trace : Type 0 where
  pub correlation_id : String
  pub request_id : String
  pub dependency : String

pub record ErrorBody : Type 0 where
  pub kind : String  -- the JSON key "type"
  pub code : String
  pub message : Message
  pub retry_after : ℕ
  pub trace : Trace

pub data Chunk : Type 0 where
  raw : String → Chunk
  error_json : ErrorBody → Chunk
  flush_mark : Chunk
  formatted : Message → Chunk

pub record Sent : Type 0 where
  pub status : ℕ
  pub header : Header

-- `flusher`: whether the value that the handler holds implements http.Flusher. `noted`: the status
-- that a responseRecorder around the writer has noted. `aborted`: whether a handler panicked with
-- http.ErrAbortHandler, so that net/http cuts the connection and no code behind the call runs.
pub record Writer : Type 0 where
  pub header : Header
  pub sent : Option Sent
  pub body : List Chunk
  pub flusher : Bool
  pub noted : Option ℕ
  pub aborted : Bool

abbrev pub fresh : Writer
fresh = record {
  header = [];
  sent = none;
  body = [];
  flusher = true;
  noted = none;
  aborted = false;
}

abbrev pub set_header : String → String → Writer → Writer
set_header key value w = record w { header = Header.set w.header key value }

abbrev first_of_two {ℓ} : {A : Type ℓ} → Option A → A → Option A
first_of_two none a = some a
first_of_two (some b) a = some b

-- `WriteHeader`
unfoldable pub write_header : ℕ → Writer → Writer
write_header status w = record w {
  sent = first_of_two w.sent (record { status = status; header = w.header });
  noted = first_of_two w.noted status;
}

-- `Write`: sends status 200 first, if none was sent.
unfoldable pub write : Chunk → Writer → Writer
unfolding write_header
write chunk w = let w' = write_header 200 w in record w' { body = w'.body ++ chunk ∷ [] }

-- `Flush`: what was written so far goes out to the client.
unfoldable pub flush : Writer → Writer
unfolding write
flush w = write flush_mark w

-- One Write for each line.
unfoldable pub write_lines : List Message → Writer → Writer
unfolding write
write_lines [] w = w
write_lines (m ∷ ms) w = write_lines ms (write (formatted m) w)

abbrev pub content_type_error : String
content_type_error = "application/vnd.yaagents.error+json"

-- `response.WriteError`
unfoldable pub write_error : ℕ → ErrorBody → Writer → Writer
unfolding write write_header
write_error status body w =
    write (error_json body) (write_header status (set_header "Content-Type" content_type_error w))

-- The status that the client gets.
abbrev pub status_of : Writer → Option ℕ
status_of w = elim w.sent [ none ↦ none | some s ↦ some s.status ]
