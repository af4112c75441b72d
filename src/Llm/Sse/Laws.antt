-- ===== src/Llm/Sse/Laws.antt =====
-- What the client of an event stream gets.
use yaagents_gateway.Prelude.{
  String, some, ◌&&◌, List, [], ◌∷◌, ◌++◌, ◌≡◌, refl, sym, inl, inr, arith, ◌==◌, if◌then◌else◌,
  Bool-cases,
}
use Prim.Native.Nat.{ℕ}
use mathlib.Core.List.{append_assoc, append-nil}
use yaagents_gateway.Http.Header
use yaagents_gateway.Http.Header.{Header, get-del_self}
use yaagents_gateway.Http.Writer.{
  Writer, Chunk, raw, flush_mark, write, write_header, flush, status_of,
}
use yaagents_gateway.World.{Read, is_last, Upstream}
use yaagents_gateway.Llm.Sse.{
  is_event_stream, add_all, copy_reads, pipe_reads, begin_response, respond,
}

-- The reads up to the first that ends the body, the empty ones left out.
abbrev pub delivered : List Read → List String
delivered [] = []
delivered (r ∷ rs) =
    let rest = if is_last r then [] else delivered rs in
    if r.bytes == "" then rest else r.bytes ∷ rest

abbrev pub copied : List String → List Chunk
copied [] = []
copied (b ∷ bs) = raw b ∷ copied bs

abbrev pub piped : List String → List Chunk
piped [] = []
piped (b ∷ bs) = raw b ∷ flush_mark ∷ piped bs

write-body : (c : Chunk) (w : Writer) → (write c w).body ≡ w.body ++ c ∷ []
unfolding write
write-body c w = refl

flush-write-body :
    (c : Chunk) (w : Writer) → (flush (write c w)).body ≡ w.body ++ c ∷ flush_mark ∷ []
unfolding flush
flush-write-body c w = append_assoc w.body (c ∷ []) (flush_mark ∷ [])

pub copy_reads-body :
    (rs : List Read) (w : Writer) → (copy_reads rs w).body ≡ w.body ++ copied (delivered rs)
unfolding copy_reads
copy_reads-body [] w = sym (append-nil w.body)
copy_reads-body (r ∷ rs) w = ground (
  arith,
  copy_reads-body rs w,
  copy_reads-body rs (write (raw r.bytes) w),
  write-body (raw r.bytes) w,
  append_assoc w.body (raw r.bytes ∷ []) (copied (delivered rs)),
  append-nil w.body,
)

pipe_reads-body :
    (rs : List Read) (w : Writer) → (pipe_reads rs w).body ≡ w.body ++ piped (delivered rs)
unfolding pipe_reads
pipe_reads-body [] w = sym (append-nil w.body)
pipe_reads-body (r ∷ rs) w = ground (
  arith,
  pipe_reads-body rs w,
  pipe_reads-body rs (flush (write (raw r.bytes) w)),
  flush-write-body (raw r.bytes) w,
  append_assoc w.body (raw r.bytes ∷ flush_mark ∷ []) (piped (delivered rs)),
  append-nil w.body,
)

pub add_all-keeps :
    (h : Header) (w : Writer)
    → ((add_all h w).flusher ≡ w.flusher)
      × ((add_all h w).body ≡ w.body)
      × ((add_all h w).sent ≡ w.sent)
      × ((add_all h w).noted ≡ w.noted)
      × ((add_all h w).aborted ≡ w.aborted)
unfolding add_all
add_all-keeps [] w = (refl, refl, refl, refl, refl)
add_all-keeps ((k, v) ∷ h) w = add_all-keeps h (record w { header = Header.add w.header k v })

-- Once a status was sent it stays.
pub copy_reads-status :
    (rs : List Read) (w : Writer) (status : ℕ)
    → status_of w ≡ some status
    → status_of (copy_reads rs w) ≡ some status
unfolding copy_reads write write_header
copy_reads-status [] w status h = h
copy_reads-status (r ∷ rs) w status h =
    ground
      (arith, h, copy_reads-status rs w status, copy_reads-status rs (write (raw r.bytes) w) status)

pub copy_reads-aborted : (rs : List Read) (w : Writer) → (copy_reads rs w).aborted ≡ w.aborted
unfolding copy_reads write write_header
copy_reads-aborted [] w = refl
copy_reads-aborted (r ∷ rs) w =
    ground (arith, copy_reads-aborted rs w, copy_reads-aborted rs (write (raw r.bytes) w))

begin_response-keeps :
    (resp : Upstream) (w : Writer)
    → ((begin_response resp w).flusher ≡ w.flusher) × ((begin_response resp w).body ≡ w.body)
unfolding begin_response write_header
begin_response-keeps resp w = elim (Bool-cases (is_event_stream resp)) [
  | inl sse ↦ rw sse ((add_all-keeps resp.header w).0, (add_all-keeps resp.header w).1)
  | inr plain ↦ rw plain ((add_all-keeps resp.header w).0, (add_all-keeps resp.header w).1)
]

-- What the client gets of an upstream's response: every read up to the end of the body, in order.
-- Of an event stream each read is flushed at once if the writer can flush; where it cannot, nothing
-- is flushed, as for any other response.
pub respond-body :
    (resp : Upstream) (w : Writer)
    → (respond resp w).body
      ≡ w.body
        ++ (if is_event_stream resp && w.flusher
            then piped (delivered resp.reads)
            else copied (delivered resp.reads))
unfolding respond
respond-body resp w = ground (
  arith,
  begin_response-keeps resp w,
  copy_reads-body resp.reads (begin_response resp w),
  pipe_reads-body resp.reads (begin_response resp w),
)
