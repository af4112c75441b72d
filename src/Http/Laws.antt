-- ===== src/Http/Laws.antt =====
-- What an error response looks like to the client.
use Prim.Native.Nat.{ℕ}
use yaagents_gateway.Prelude.{◌≡◌, refl, none, some, ◌++◌, [], ◌∷◌}
use yaagents_gateway.Http.Writer.{Writer, ErrorBody, error_json, write_error, status_of}

-- The writer after an error body was written to it, when nothing had been sent.
pub write_error_lem :
    (status : ℕ) (body : ErrorBody) (w : Writer)
    → w.sent ≡ none
    → (status_of (write_error status body w) ≡ some status)
      × ((write_error status body w).body ≡ w.body ++ error_json body ∷ [])
unfolding write_error
write_error_lem status body w h = (rw h refl, refl)
