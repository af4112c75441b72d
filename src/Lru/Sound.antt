-- ===== src/Lru/Sound.antt =====
-- When the list and the map of a cache agree.
use Prim.Native.Nat.{ℕ, ◌≤◌, ◌<◌}
use yaagents_gateway.Prelude.{
  String, Bool, true, not, List, [], ◌∷◌, Option, none, some, length, keep, length-keep-le, ◌⊎◌,
  All, All-keep, All-map, if◌then◌else◌, ◌≡◌, ◌≢◌, refl, ap, arith, ◌==◌, eq_iff, Bool-cases, inl,
  inr,
}
use yaagents_gateway.Prelude.Maps.{lookup}
use yaagents_gateway.Lru.{Element, Lru, value_of, back, unlink, is_other}

module _ {V : Type 0} where
  abbrev pub key_of : Element V → String
  key_of e = e.1.key

  abbrev pub has_other_key : String → Element V → Bool
  has_other_key k e = not (key_of e == k)

  -- The first element with a key.
  abbrev pub find : String → List (Element V) → Option (Element V)
  find k [] = none
  find k (e ∷ es) = if key_of e == k then some e else find k es

  abbrev pub id_at : Option (Element V) → Option ℕ
  id_at none = none
  id_at (some e) = some e.0

  abbrev pub Apart : Element V → Element V → Type 0
  Apart e f = (e.0 ≢ f.0) × (key_of e ≢ key_of f)

  abbrev pub AllApart : List (Element V) → Type 0
  AllApart [] = Unit
  AllApart (e ∷ es) = All (Apart e) es × AllApart es

  -- No two elements share a number or a key, the map leads each key to its element and no other key
  -- anywhere, numbers not yet given out are unused, and the list is within its bound.
  pub record IsSound (c : Lru V) : Type 0 where
    pub apart : AllApart c.list
    pub agree : (k : String) → lookup k c.index ≡ id_at (find k c.list)
    pub used : All (λ e. e.0 < c.next) c.list
    pub bounded : length c.list ≤ c.max_size

  pub find-key :
      (k : String) (es : List (Element V)) {e : Element V} → find k es ≡ some e → key_of e ≡ k
  find-key k [] h = absurd cc
  find-key k (f ∷ es) {e} h = ground (arith, find-key k es {e = e}, eq_iff (key_of f) k)

pub find-cons :
    {V : Type 0} (k : String) (e : Element V) (es : List (Element V)) {g : Element V}
    → find k (e ∷ es) ≡ some g
    → ((key_of e ≡ k) × (e ≡ g)) ⊎ ((key_of e ≢ k) × (find k es ≡ some g))
find-cons k e es {g} h = elim (Bool-cases (key_of e == k)) [
  | inl this ↦ let h' = rw this at h in inl ((eq_iff (key_of e) k).0 this, cc)
  | inr other ↦ let h' = rw other at h in inr (ground (arith, eq_iff (key_of e) k), h')
]

pub All-find :
    {V : Type 0} (P : Element V → Type 0) (k : String) (es : List (Element V)) {g : Element V}
    → All P es
    → find k es ≡ some g
    → P g
All-find P k [] h f = absurd cc
All-find P k (e ∷ es) (p, h) f = elim (find-cons k e es f) [
  | inl (this, q) ↦ rw (← q) p
  | inr (other, f') ↦ All-find P k es h f'
]

pub keep-All : {A : Type 0} (p : A → Bool) (xs : List A) → All (λ x. p x ≡ true) xs → keep p xs ≡ xs
keep-All p [] h = refl
keep-All p (x ∷ xs) (e, h) = rw e (ap (λ l. x ∷ l) (keep-All p xs h))

module _ {V : Type 0} where
  pub find-unlinked :
      (k j : String) (es : List (Element V))
      → find j (keep (has_other_key k) es) ≡ (if k == j then none else find j es)
  find-unlinked k j [] = ground arith
  find-unlinked k j (e ∷ es) =
      ground (arith, find-unlinked k j es, eq_iff (key_of e) k, eq_iff (key_of e) j, eq_iff k j)

  pub AllApart-keep :
      (p : Element V → Bool) (es : List (Element V)) → AllApart es → AllApart (keep p es)
  AllApart-keep p [] h = tt
  AllApart-keep p (e ∷ es) (a, h) = elim (Bool-cases (p e)) [
    | inl kept ↦ rw kept (All-keep (Apart e) p es a, AllApart-keep p es h)
    | inr gone ↦ rw gone (AllApart-keep p es h)
  ]

  pub value_of-find :
      (k : String) (es : List (Element V)) {g : Element V}
      → AllApart es
      → find k es ≡ some g
      → value_of g.0 es ≡ some g.1
  unfolding value_of
  value_of-find k [] h f = absurd cc
  value_of-find k (e ∷ es) {g} (a, h) f = elim (find-cons k e es f) [
    | inl (this, q) ↦ rw (← q) (ground arith)
    | inr (other, f') ↦
        let away = All-find (Apart e) k es a f' in ground (arith, value_of-find k es {g = g} h f')
  ]

  Apart-other_key :
      (e : Element V) (es : List (Element V)) (k : String)
      → key_of e ≡ k
      → All (Apart e) es
      → All (λ f. has_other_key k f ≡ true) es
  Apart-other_key e es k q =
      All-map (λ f (i, n). ground (arith, eq_iff (key_of f) k, eq_iff (key_of e) (key_of f))) es

  Apart-other_id :
      (e : Element V) (es : List (Element V))
      → All (Apart e) es
      → All (λ f. is_other e.0 f ≡ true) es
  Apart-other_id e es = All-map (λ f (i, n). ground arith) es

  -- An element that the map leads to is unlinked by its number or, what is the same, by its key.
  pub unlink-find :
      (k : String) (es : List (Element V)) {g : Element V}
      → AllApart es
      → find k es ≡ some g
      → unlink g.0 es ≡ keep (has_other_key k) es
  unlink-find k [] h f = absurd cc
  unlink-find k (e ∷ es) {g} (a, h) f = elim (find-cons k e es f) [
    | inl (this, q) ↦
        let n : e.0 ≡ g.0 = ap (λ x. x.0) q in
        ground (
          arith,
          eq_iff (key_of e) k,
          keep-All (has_other_key k) es (Apart-other_key e es k this a),
          keep-All (is_other g.0) es (rw (← n) (Apart-other_id e es a)),
        )
    | inr (other, f') ↦
        let away = All-find (Apart e) k es a f' in
        ground (arith, eq_iff (key_of e) k, unlink-find k es {g = g} h f')
  ]

  pub length-keep_found :
      (k : String) (es : List (Element V)) {g : Element V}
      → find k es ≡ some g
      → length (keep (has_other_key k) es) < length es
  length-keep_found k [] f = absurd cc
  length-keep_found k (e ∷ es) {g} f = elim (find-cons k e es f) [
    | inl (this, q) ↦ ground (arith, eq_iff (key_of e) k, length-keep-le (has_other_key k) es)
    | inr (other, f') ↦ ground (arith, eq_iff (key_of e) k, length-keep_found k es {g = g} f')
  ]

  pub find-back :
      (es : List (Element V)) {g : Element V}
      → AllApart es
      → back es ≡ some g
      → find (key_of g) es ≡ some g
  unfolding back
  find-back [] h f = absurd cc
  find-back (e ∷ []) {g} h f =
      let q : e ≡ g = cc in ground (arith, eq_iff (key_of e) (key_of g), ap key_of q, q)
  find-back (e ∷ d ∷ es) {g} (a, h) f =
      let rest = find-back (d ∷ es) {g = g} h f in
      let away = All-find (Apart e) (key_of g) (d ∷ es) a rest in
      ground (arith, eq_iff (key_of e) (key_of g))
