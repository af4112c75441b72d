-- ===== src/Lru/Laws.antt =====
-- The cache implements the abstract one.
use Prim.Native.Nat.{ℕ, ◌<◌}
use yaagents_gateway.Prelude.{
  String, List, ◌∷◌, none, some, length, leb, ltb, if◌then◌else◌, ◌≡◌, refl, ap, ◌∙◌, arith,
  eq_refl, Bool-cases, Option-cases, inl, inr, map,
}
use mathlib.Core.Option
use yaagents_gateway.Prelude.Maps.{lookup}
use yaagents_gateway.Lru.{
  CacheEntry, Element, Lru, unlink, remove, move_to_front, cache_get, cache_set, evict, push_front,
  new_lru,
}
use yaagents_gateway.Lru.Sound.{
  IsSound, key_of, find, id_at, find-key, find-unlinked, find-back, unlink-find, value_of-find,
  length-keep_found,
}
use yaagents_gateway.Lru.Preserved.{remove-IsSound, move_to_front-IsSound, push_front-IsSound}
use yaagents_gateway.Lru.Spec.{
  view, entry_at, without, all_but_last, spec_get, spec_set, entry_at-view, without-view,
  length-view, all_but_last-view, back-some,
}

module _ {V : Type 0} where
  -- In a sound cache the two ways to read it agree with the list.
  cache_get-none :
      (k : String) (now : ℕ) (c : Lru V)
      → IsSound c
      → find k c.list ≡ none
      → cache_get k now c ≡ (none, c)
  unfolding cache_get
  cache_get-none k now c s f =
      let e : lookup k c.index ≡ none = s.agree k ∙ ap id_at f in rw (e, cache_get) refl

  cache_get-some :
      (k : String) (now : ℕ) (c : Lru V) {g : Element V}
      → IsSound c
      → find k c.list ≡ some g
      → cache_get k now c ≡ (
          if ltb g.1.expires_at now
          then (none, remove g.0 k c)
          else (some g.1.value, move_to_front g.0 g.1 c))
  unfolding cache_get
  cache_get-some k now c {g} s f =
      let e : lookup k c.index ≡ some g.0 = s.agree k ∙ ap id_at f in
      rw (e, value_of-find k c.list s.apart f, cache_get) refl

  -- A read of a sound cache returns what the abstract cache returns and leaves what it leaves, and
  -- the cache stays sound.
  pub cache_get-refines :
      (k : String) (now : ℕ) (c : Lru V)
      → IsSound c
      → ((cache_get k now c).0 ≡ (spec_get k now (view c)).0)
        × (view (cache_get k now c).1 ≡ (spec_get k now (view c)).1)
        × IsSound (cache_get k now c).1
        × ((cache_get k now c).1.max_size ≡ c.max_size)
  cache_get-refines k now c s = elim (Option-cases (find k c.list)) [
    | inl f ↦
        let e : entry_at k (view c) ≡ none =
          entry_at-view k c.list ∙ ap (Option.map (λ e. e.1)) f in
        rw (cache_get-none k now c s f, e, spec_get) (refl, refl, s, refl)
    | inr (g, f) ↦
        let e : entry_at k (view c) ≡ some g.1 =
          entry_at-view k c.list ∙ ap (Option.map (λ e. e.1)) f in
        let rest : map (λ e. e.1) (unlink g.0 c.list) ≡ without k (view c) =
          ap (map (λ e. e.1)) (unlink-find k c.list s.apart f) ∙ without-view k c.list in
        let same = find-key k c.list f in
        elim (Bool-cases (ltb g.1.expires_at now)) [
          | inl old ↦
              rw (cache_get-some k now c s f, e, old, spec_get)
                (refl, rest, remove-IsSound k c s f, refl)
          | inr live ↦
              rw (cache_get-some k now c s f, e, live, spec_get)
                (
                  refl,
                  ap (λ l. g.1 ∷ l) rest,
                  move_to_front-IsSound g.1 c {g = g} s (ap (λ j. find j c.list) same ∙ f),
                  refl,
                )
        ]
  ]

  evict-lem :
      (c : Lru V)
      → IsSound c
      → 0 < c.max_size
      → (view (evict c)
          ≡ (if leb c.max_size (length (view c)) then all_but_last (view c) else view c))
        × (length (evict c).list < c.max_size)
        × ((evict c).max_size ≡ c.max_size)
        × IsSound (evict c)
        × ((k : String) → find k c.list ≡ none → find k (evict c).list ≡ none)
  unfolding evict
  evict-lem c s h = elim (Bool-cases (leb c.max_size (length c.list))) [
    | inl full ↦
        let (g, last) = back-some c.list (ground arith) in
        let f = find-back c.list s.apart last in
        let same = unlink-find (key_of g) c.list s.apart f in
        let shorter = length-keep_found (key_of g) c.list f in
        rw (length-view c.list, full, last, evict)
          (
            all_but_last-view c.list s.apart last,
            rw same (omega (arith, s.bounded, shorter)),
            refl,
            remove-IsSound (key_of g) c s f,
            λ k absent. rw same (ground (arith, find-unlinked (key_of g) k c.list, absent)),
          )
    | inr room ↦ rw (length-view c.list, room) (refl, ground arith, refl, s, λ k f. f)
  ]

  -- A write to a sound cache with room for one entry at least leaves what the abstract cache leaves,
  -- and the cache stays sound, so within its bound.
  pub cache_set-refines :
      (e : CacheEntry V) (c : Lru V)
      → IsSound c
      → 0 < c.max_size
      → (view (cache_set e c) ≡ spec_set c.max_size e (view c))
        × ((cache_set e c).max_size ≡ c.max_size)
        × IsSound (cache_set e c)
  unfolding cache_set push_front
  cache_set-refines e c s h = elim (Option-cases (find e.key c.list)) [
    | inl f ↦
        let i : lookup e.key c.index ≡ none = s.agree e.key ∙ ap id_at f in
        let a : entry_at e.key (view c) ≡ none =
          entry_at-view e.key c.list ∙ ap (Option.map (λ e. e.1)) f in
        let (seen, room, same, sound, absent) = evict-lem c s h in
        rw (i, a, cache_set, spec_set)
          (
            ap (λ l. e ∷ l) seen,
            same,
            push_front-IsSound e (evict c) sound (absent e.key f) (omega (arith, room, same)),
          )
    | inr (g, f) ↦
        let i : lookup e.key c.index ≡ some g.0 = s.agree e.key ∙ ap id_at f in
        let a : entry_at e.key (view c) ≡ some g.1 =
          entry_at-view e.key c.list ∙ ap (Option.map (λ e. e.1)) f in
        rw (i, a, cache_set, spec_set)
          (
            ap (λ l. e ∷ l)
                (ap (map (λ e. e.1)) (unlink-find e.key c.list s.apart f)
                  ∙ without-view e.key c.list),
            refl,
            move_to_front-IsSound e c {g = g} s f,
          )
  ]

  -- A new cache is sound and empty.
  pub new_lru-IsSound : (max_size : ℕ) → IsSound (new_lru {V = V} max_size)
  unfolding lookup
  new_lru-IsSound max_size = record {
    apart = tt;
    agree = λ k. refl;
    used = tt;
    bounded = omega arith;
  }

  spec_get-cons :
      (e : CacheEntry V) (now : ℕ) (es : List (CacheEntry V))
      → (spec_get e.key now (e ∷ es)).0 ≡ (if ltb e.expires_at now then none else some e.value)
  spec_get-cons e now es = elim (Bool-cases (ltb e.expires_at now)) [
    | inl old ↦ rw (eq_refl e.key, spec_get, old) refl
    | inr live ↦ rw (eq_refl e.key, spec_get, live) refl
  ]

  -- After a write, a read of the key returns the written value up to its expiry and nothing after.
  pub cache_get-cache_set :
      (e : CacheEntry V) (now : ℕ) (c : Lru V)
      → IsSound c
      → 0 < c.max_size
      → (cache_get e.key now (cache_set e c)).0
        ≡ (if ltb e.expires_at now then none else some e.value)
  cache_get-cache_set e now c s h =
      let (seen, same, sound) = cache_set-refines e c s h in
      let got = (cache_get-refines e.key now (cache_set e c) sound).0 in
      got ∙ ap (λ v. (spec_get e.key now v).0) seen ∙ spec_get-cons e now _
