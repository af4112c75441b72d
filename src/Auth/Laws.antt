-- ===== src/Auth/Laws.antt =====
-- Who passes the middleware, and how its key cache compares with the token validator's.
use yaagents_gateway.Prelude.{
  String, true, false, List, Option, none, some, ◌≡◌, refl, ap, ◌∙◌, ◌↔◌, ◌⊎◌, inl, inr, Bool-cases,
  Option-cases,
}
use yaagents_gateway.Prelude.Maps.{lookup}
use yaagents_gateway.Prelude.Result.{Result, ok, err}
use yaagents_gateway.Jwks.{Jwks, KeyError, PublicKey, RefreshError, published, key_or_none, get_key}
use yaagents_gateway.Jwks.Laws.{needs_fetch, get_key-fast, get_key_done}
use yaagents_gateway.Auth.{
  KeyCache, AuthOutside, AuthKeyError, refresh_failed, refresh_cache, found_key,
  after_refresh_cache, cached_key,
}

-- The cache with the fields of a key store of the token validator.
abbrev pub cache_of : Jwks → KeyCache
cache_of v = record { url = v.url; keys = v.keys; fetch_at = v.fetch_at; ttl = v.ttl }

module _ {X : Type 0} (d : AuthOutside X) where
  refresh_cache_failed :
      (v : KeyCache) (x : X) (e : RefreshError)
      → published d.server (d.server.get v.url x).0 ≡ err e
      → refresh_cache d v x ≡ (false, v, (d.server.get v.url x).1)
  unfolding refresh_cache
  refresh_cache_failed v x e bad = rw (bad, refresh_cache) refl

  refresh_cache_done :
      (v : KeyCache) (x : X) (keys : List (String × PublicKey))
      → published d.server (d.server.get v.url x).0 ≡ ok keys
      → refresh_cache d v x ≡ (
        true,
        record v { keys = keys; fetch_at = some (d.server.now (d.server.get v.url x).1) },
        (d.server.get v.url x).1,
      )
  unfolding refresh_cache
  refresh_cache_done v x keys good = rw (good, refresh_cache) refl

  cached_key-slow :
      (kid : String) (v : Jwks) (x : X)
      → needs_fetch d.server kid v x ≡ true
      → cached_key d kid (cache_of v) x ≡ after_refresh_cache kid (refresh_cache d (cache_of v) x)
  unfolding cached_key needs_fetch
  cached_key-slow kid v x slow = elim (Option-cases (lookup kid v.keys)) [
    | inl absent ↦ rw (absent, cached_key) refl
    | inr (key, there) ↦
        (let stale = rw (there, needs_fetch) at slow in rw (there, stale, cached_key) refl)
  ]

  cached_key-fast :
      (kid : String) (v : Jwks) (x : X) (key : PublicKey)
      → needs_fetch d.server kid v x ≡ false
      → lookup kid v.keys ≡ some key
      → cached_key d kid (cache_of v) x ≡ (ok key, cache_of v, x)
  unfolding cached_key needs_fetch
  cached_key-fast kid v x key fast there =
      let live = rw (there, needs_fetch) at fast in rw (there, live, cached_key) refl

  found_key_iff :
      (found : Option PublicKey) (key : PublicKey)
      → (found_key found ≡ ok key) ↔ (key_or_none found ≡ ok key)
  found_key_iff none key = (λ h. cc h, λ h. cc h)
  found_key_iff (some k) key = (λ h. cc h, λ h. cc h)

  same_key :
      (key k : PublicKey)
      → (◌≡◌ {A = Result AuthKeyError PublicKey} (ok k) (ok key))
        ↔ (◌≡◌ {A = Result KeyError PublicKey} (ok k) (ok key))
  same_key key k = (λ h. cc h, λ h. cc h)

  -- What the two leave behind is the same, and they give the same keys.
  abbrev pub Agree : String → Jwks → X → Type 0
  Agree kid v x =
      ((key : PublicKey)
        → ((cached_key d kid (cache_of v) x).0 ≡ ok key) ↔ ((get_key d.server kid v x).0 ≡ ok key))
      × ((cached_key d kid (cache_of v) x).1 ≡ cache_of (get_key d.server kid v x).1)
      × ((cached_key d kid (cache_of v) x).2 ≡ (get_key d.server kid v x).2)

  fetched-Agree :
      (kid : String) (v : Jwks) (x : X) (keys : List (String × PublicKey))
      → needs_fetch d.server kid v x ≡ true
      → published d.server (d.server.get v.url x).0 ≡ ok keys
      → Agree kid v x
  fetched-Agree kid v x keys slow good =
      let mine =
        cached_key-slow kid v x slow
        ∙ ap (after_refresh_cache kid) (refresh_cache_done (cache_of v) x keys good) in
      rw (mine, get_key_done d.server kid v x keys good slow)
        (λ key. found_key_iff (lookup kid keys) key, refl, refl)

  kept-Agree :
      (kid : String) (v : Jwks) (x : X) → needs_fetch d.server kid v x ≡ false → Agree kid v x
  kept-Agree kid v x fast =
      let (k, there, theirs) = get_key-fast d.server kid v x fast in
      rw (cached_key-fast kid v x k fast there, theirs) (λ key. same_key key k, refl, refl)

  -- Where the key store of the token validator need not fetch, or gets a good key set, the cache does
  -- what it does: it gives the same key, or none if that gives none, and leaves the same keys and the
  -- same outside. Where the endpoint is out, the cache keeps its keys and serves none
  -- of them.
  pub cached_key-get_key :
      (kid : String) (v : Jwks) (x : X)
      → ((needs_fetch d.server kid v x ≡ false)
            ⊎ ((keys : List (String × PublicKey)) × (published d.server (d.server.get v.url x).0
                  ≡ ok keys))
          → Agree kid v x)
        × ((e : RefreshError)
            → needs_fetch d.server kid v x ≡ true
            → published d.server (d.server.get v.url x).0 ≡ err e
            → cached_key d kid (cache_of v) x
              ≡ (err refresh_failed, cache_of v, (d.server.get v.url x).1))
  cached_key-get_key kid v x = (
    λ fine. elim fine [
      | inl fast ↦ kept-Agree kid v x fast
      | inr (keys, good) ↦ elim (Bool-cases (needs_fetch d.server kid v x)) [
        | inl slow ↦ fetched-Agree kid v x keys slow good
        | inr fast ↦ kept-Agree kid v x fast
      ]
    ],
    λ e slow bad.
        cached_key-slow kid v x slow
        ∙ ap (after_refresh_cache kid) (refresh_cache_failed (cache_of v) x e bad),
  )
