-- ===== src/Llm/Limiter.antt =====
-- internal/llm/limiter.go: the number of open event streams of each tenant. Each function here that
-- returns a new counter value is one atomic operation. Counters do not reach the bounds of int64.
pub mod Laws
pub mod Interleaving
use Prim.Native.Nat.{ℕ}
use yaagents_gateway.Prelude.{
  String, Bool, true, false, List, [], Option, none, some, if◌then◌else◌,
}
use yaagents_gateway.Prelude.Int.{ℤ, pos, negsuc, inc, dec, is_nonpos, to_ℕ, exceeds}
use yaagents_gateway.Prelude.Maps.{lookup, insert}

pub record Limiter : Type 0 where
  pub max_per_tenant : ℕ
  pub counts : List (String × ℤ)

-- `NewLimiter`
unfoldable pub new_limiter : ℤ → Limiter
new_limiter max = record { max_per_tenant = if is_nonpos max then 10 else to_ℕ max; counts = [] }

-- `Count`; also the value of a counter that `counter` has just made.
unfoldable pub count : Limiter → String → ℤ
count l tenant = elim (lookup tenant l.counts) [ none ↦ pos 0 | some n ↦ n ]

-- `l.counter(tenant).Add(1)`, with the new value
unfoldable pub add_one : String → Limiter → ℤ × Limiter
unfolding count
add_one tenant l =
    let n = inc (count l tenant) in (n, record l { counts = insert tenant n l.counts })

-- `l.counter(tenant).Add(-1)`
unfoldable pub sub_one : String → Limiter → ℤ × Limiter
unfolding count
sub_one tenant l =
    let n = dec (count l tenant) in (n, record l { counts = insert tenant n l.counts })

-- `TryAcquire`, undisturbed by others
unfoldable pub try_acquire : String → Limiter → Bool × Limiter
unfolding add_one sub_one
try_acquire tenant l =
    let (n, l') = add_one tenant l in
    if exceeds n l.max_per_tenant then (false, (sub_one tenant l').1) else (true, l')

-- `Release`
unfoldable pub release : String → Limiter → Limiter
unfolding sub_one
release tenant l = (sub_one tenant l).1
