-- ===== src/Plugins/TenantInjector/Caching.antt =====
-- What the tenant injector keeps of its lookups.
use Prim.Native.Nat.{ℕ, ◌<◌, ◌≤◌}
use yaagents_gateway.Prelude.{String, inl, inr, Option-cases}
use yaagents_gateway.Prelude.Int.{moved}
use yaagents_gateway.Prelude.Result.{Result, ok, err}
use yaagents_gateway.Lru.{cache_get}
use yaagents_gateway.Lru.Sound.{IsSound}
use yaagents_gateway.Lru.Laws.{cache_get-refines, cache_set-refines}
use yaagents_gateway.Plugins.TenantInjector.{
  Directory, Settings, Store, LookupError, resolve_tenant, look_up, remember, principal_not_found,
  lookup_timeout, lookup_network,
}

-- The lists and maps of the cache agree, and it has room.
abbrev pub IsReady : {X : Type 0} → Store X → Type 0
IsReady s = IsSound s.cache × (0 < s.cache.max_size)

-- A result that came at `now` is still cached at `later`: a tenant, or that there is none, up to its
-- expiry; a timeout and a network error never are.
abbrev pub IsKept : Settings → Result LookupError String → ℕ → ℕ → Type 0
IsKept c (ok tenant) now later = later ≤ moved now c.cache_ttl
IsKept c (err principal_not_found) now later = later ≤ moved now c.negative_cache_ttl
IsKept c (err lookup_timeout) now later = ⊥
IsKept c (err lookup_network) now later = ⊥

module _ {X : Type 0} (d : Directory X) (c : Settings) where
  remember-IsReady :
      (principal : String) (result : Result LookupError String) (s : Store X)
      → IsReady s
      → IsReady (remember d c principal result s)
  unfolding remember
  remember-IsReady principal (ok tenant) s (h, k) =
      let set = cache_set-refines _ s.cache h k in (set.2, rw (set.1) k)
  remember-IsReady principal (err principal_not_found) s (h, k) =
      let set = cache_set-refines _ s.cache h k in (set.2, rw (set.1) k)
  remember-IsReady principal (err lookup_timeout) s h = h
  remember-IsReady principal (err lookup_network) s h = h

  look_up-IsReady :
      (principal : String) (s : Store X) → IsReady s → IsReady (look_up d c principal s).1
  unfolding look_up
  look_up-IsReady principal s h = remember-IsReady principal _ _ h

  after_get-IsReady :
      (principal : String) (s : Store X)
      → IsReady s
      → IsReady (record s { cache = (cache_get principal (d.now s.outside) s.cache).1 })
  after_get-IsReady principal s (h, k) =
      let got = cache_get-refines principal (d.now s.outside) s.cache h in (got.2, rw (got.3) k)

  -- Resolving a tenant keeps the cache sound and within its bound.
  pub resolve_tenant-IsReady :
      (principal : String) (s : Store X) → IsReady s → IsReady (resolve_tenant d c principal s).1
  unfolding resolve_tenant
  resolve_tenant-IsReady principal s (h, k) =
      let ready = after_get-IsReady principal s (h, k) in
      elim (Option-cases (cache_get principal (d.now s.outside) s.cache).0) [
        | inl miss ↦ rw (miss, resolve_tenant) (look_up-IsReady principal _ ready)
        | inr (value, hit) ↦ rw (hit, resolve_tenant) ready
      ]
