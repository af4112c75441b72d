-- ===== src/Http/Tracked.antt =====
-- Writers whose recorder has noted the status that was sent.
use Prim.Native.Nat.{ℕ}
use yaagents_gateway.Prelude.{Bool, true, false, if◌then◌else◌, ◌≡◌, arith}
use yaagents_gateway.Http.Writer.{
  Writer, Chunk, ErrorBody, write_header, write, flush, write_error, status_of,
}

abbrev pub IsTracked : Writer → Type 0
IsTracked w = w.noted ≡ status_of w

pub write_header-IsTracked :
    (status : ℕ) (w : Writer) → IsTracked w → IsTracked (write_header status w)
unfolding write_header
write_header-IsTracked status w h = ground arith

pub write-IsTracked : (c : Chunk) (w : Writer) → IsTracked w → IsTracked (write c w)
unfolding write
write-IsTracked c w h = ground arith

pub flush-IsTracked : (w : Writer) → IsTracked w → IsTracked (flush w)
unfolding flush
flush-IsTracked w h = ground arith

pub write_error-IsTracked :
    (status : ℕ) (e : ErrorBody) (w : Writer) → IsTracked w → IsTracked (write_error status e w)
unfolding write_error
write_error-IsTracked status e w h = ground arith

pub if-IsTracked :
    (b : Bool) (x y : Writer) → IsTracked x → IsTracked y → IsTracked (if b then x else y)
if-IsTracked true x y h k = h
if-IsTracked false x y h k = k
