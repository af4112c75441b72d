-- ===== src/Llm/Limiter/Laws.antt =====
-- What an undisturbed acquire and release do to every tenant's count.
use Prim.Native.Nat.{ℕ, ◌+◌, ◌<◌}
use yaagents_gateway.Prelude.{
  String, ◌≡◌, refl, arith, if◌then◌else◌, ◌==◌, eq_iff, ltb, eq_refl, ◌&&◌,
}
use yaagents_gateway.Prelude.Int.{pos, inc, dec, dec-inc}
use yaagents_gateway.Prelude.Maps.{lookup-insert}
use yaagents_gateway.Llm.Limiter.{Limiter, count, add_one, sub_one, try_acquire, release}

pub count-add_one :
    (t u : String) (l : Limiter)
    → (count (add_one t l).1 u ≡ (if t == u then inc (count l t) else count l u))
      × ((add_one t l).0 ≡ inc (count l t))
      × ((add_one t l).1.max_per_tenant ≡ l.max_per_tenant)
unfolding count add_one
count-add_one t u l =
    (ground (arith, lookup-insert t u (inc (count l t)) l.counts, eq_iff t u), refl, refl)

pub count-sub_one :
    (t u : String) (l : Limiter)
    → (count (sub_one t l).1 u ≡ (if t == u then dec (count l t) else count l u))
      × ((sub_one t l).1.max_per_tenant ≡ l.max_per_tenant)
unfolding count sub_one
count-sub_one t u l =
    (ground (arith, lookup-insert t u (dec (count l t)) l.counts, eq_iff t u), refl)

-- With n open streams of the tenant, an undisturbed TryAcquire succeeds exactly when n is below the
-- limit; it then counts one more, and otherwise leaves the count. No other tenant's count changes.
pub try_acquire_lem :
    (t u : String) (l : Limiter) (n : ℕ)
    → count l t ≡ pos n
    → ((try_acquire t l).0 ≡ ltb n l.max_per_tenant)
      × (count (try_acquire t l).1 u
          ≡ (if t == u && ltb n l.max_per_tenant then pos (n + 1) else count l u))
      × ((try_acquire t l).1.max_per_tenant ≡ l.max_per_tenant)
unfolding try_acquire
try_acquire_lem t u l n h = ground (
  arith,
  eq_iff t u,
  eq_refl t,
  count-add_one t u l,
  count-add_one t t l,
  count-sub_one t u (add_one t l).1,
  dec-inc (pos n),
)

-- A release after a successful acquire gives back every count.
pub count-release-try_acquire :
    (t u : String) (l : Limiter) (n : ℕ)
    → count l t ≡ pos n
    → n < l.max_per_tenant
    → count (release t (try_acquire t l).1) u ≡ count l u
unfolding release
count-release-try_acquire t u l n h k = ground (
  arith,
  eq_iff t u,
  eq_refl t,
  try_acquire_lem t u l n h,
  try_acquire_lem t t l n h,
  count-sub_one t u (try_acquire t l).1,
  dec-inc (pos n),
)
