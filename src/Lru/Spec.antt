-- ===== src/Lru/Spec.antt =====
-- The abstract cache: a list of entries by recency, of which each key has at most one, and of which the
-- last makes room for a new key when the list is full; and what a cache shows of it.
use Prim.Native.Nat.{ℕ, ◌<◌}
use yaagents_gateway.Prelude.{
  String, not, List, [], ◌∷◌, Option, none, some, length, keep, leb, ltb, if◌then◌else◌, ◌≡◌, refl,
  ap, arith, ◌==◌, Bool-cases, inl, inr, map,
}
use mathlib.Core.Option
use yaagents_gateway.Lru.{CacheEntry, Element, Lru, back, unlink}
use yaagents_gateway.Lru.Sound.{AllApart, Apart, key_of, has_other_key, find, find-back, All-find}

module _ {V : Type 0} where
  -- The entries, most recently used first.
  abbrev pub view : Lru V → List (CacheEntry V)
  view c = map (λ e. e.1) c.list

  abbrev pub entry_at : String → List (CacheEntry V) → Option (CacheEntry V)
  entry_at k [] = none
  entry_at k (e ∷ es) = if e.key == k then some e else entry_at k es

  abbrev pub without : String → List (CacheEntry V) → List (CacheEntry V)
  without k es = keep (λ e. not (e.key == k)) es

  abbrev pub all_but_last : List (CacheEntry V) → List (CacheEntry V)
  all_but_last [] = []
  all_but_last (e ∷ []) = []
  all_but_last (e ∷ f ∷ es) = e ∷ all_but_last (f ∷ es)

  -- A live entry is found and becomes the most recent; an expired one is dropped.
  abbrev pub spec_get : String → ℕ → List (CacheEntry V) → Option V × List (CacheEntry V)
  spec_get k now es = elim (entry_at k es) [
    | none ↦ (none, es)
    | some e ↦
        if ltb e.expires_at now then (none, without k es) else (some e.value, e ∷ without k es)
  ]

  -- The entry becomes the most recent. It takes the place of the key's old entry if there is one,
  -- else that of the last entry if the list is full.
  abbrev pub spec_set : ℕ → CacheEntry V → List (CacheEntry V) → List (CacheEntry V)
  spec_set max_size e es = e ∷ elim (entry_at e.key es) [
    | some old ↦ without e.key es
    | none ↦ if leb max_size (length es) then all_but_last es else es
  ]

  pub entry_at-view :
      (k : String) (es : List (Element V))
      → entry_at k (map (λ e. e.1) es) ≡ Option.map (λ e. e.1) (find k es)
  entry_at-view k [] = refl
  entry_at-view k (e ∷ es) = elim (Bool-cases (key_of e == k)) [
    | inl this ↦ rw this refl
    | inr other ↦ rw other (entry_at-view k es)
  ]

  pub without-view :
      (k : String) (es : List (Element V))
      → map (λ e. e.1) (keep (has_other_key k) es) ≡ without k (map (λ e. e.1) es)
  without-view k [] = refl
  without-view k (e ∷ es) = elim (Bool-cases (key_of e == k)) [
    | inl this ↦ rw this (without-view k es)
    | inr other ↦ rw other (ap (λ l. e.1 ∷ l) (without-view k es))
  ]

  pub length-view : (es : List (Element V)) → length (map (λ e. e.1) es) ≡ length es
  length-view [] = refl
  length-view (e ∷ es) = omega (arith, length-view es)

  pub all_but_last-view :
      (es : List (Element V)) {g : Element V}
      → AllApart es
      → back es ≡ some g
      → map (λ e. e.1) (unlink g.0 es) ≡ all_but_last (map (λ e. e.1) es)
  unfolding back
  all_but_last-view [] h f = absurd cc
  all_but_last-view (e ∷ []) {g} h f = let q : e ≡ g = cc in ground (arith, ap (λ x. x.0) q)
  all_but_last-view (e ∷ d ∷ es) {g} (a, h) f =
      let away = All-find (Apart e) (key_of g) (d ∷ es) a (find-back (d ∷ es) h f) in
      let rest = all_but_last-view (d ∷ es) {g = g} h f in ground (arith, away, rest)

  pub back-some : (es : List (Element V)) → 0 < length es → (g : Element V) × (back es ≡ some g)
  unfolding back
  back-some [] h = absurd (omega (arith, h))
  back-some (e ∷ []) h = (e, refl)
  back-some (e ∷ d ∷ es) h = back-some (d ∷ es) (omega arith)
