-- ===== src/Prelude/Lists.antt =====
-- Lists measured by native numbers, and predicates over lists by recursion.
use Prim.Native.Nat.{ℕ, suc, ◌+◌, ◌≤◌}
use Prim.Native.String.{String}
use mathlib.Core.Path.{◌≡◌, refl}
use mathlib.Core.Logic.{◌≢◌, inl, inr, ◌⊎◌, ◌↔◌}
use mathlib.Core.Bool.{Bool, true, false, ◌&&◌, ◌||◌}
use mathlib.Core.List.{List, [], ◌∷◌, ◌++◌, Memᴰ, map, reverse, reverse-cons, map-append}
use native.Mathlib.Omega.{arith}
use text.Mathlib.Text.{◌==◌}
use text.Mathlib.TextEquality.{eq_iff}
use yaagents_gateway.Prelude.Tests.{Bool-cases, if◌then◌else◌}

module _ {ℓ} {A : Type ℓ} where
  abbrev pub length : List A → ℕ
  length [] = 0
  length (x ∷ xs) = suc (length xs)

  pub length-append : (xs ys : List A) → length (xs ++ ys) ≡ length xs + length ys
  length-append [] ys = omega arith
  length-append (x ∷ xs) ys = omega (arith, length-append xs ys)

  abbrev pub all : (A → Bool) → List A → Bool
  all p [] = true
  all p (x ∷ xs) = p x && all p xs

  abbrev pub any : (A → Bool) → List A → Bool
  any p [] = false
  any p (x ∷ xs) = p x || any p xs

  abbrev pub keep : (A → Bool) → List A → List A
  keep p [] = []
  keep p (x ∷ xs) = let rest = keep p xs in if p x then x ∷ rest else rest

  pub length-keep-le : (p : A → Bool) (xs : List A) → length (keep p xs) ≤ length xs
  length-keep-le p [] = omega arith
  length-keep-le p (x ∷ xs) = ground (arith, length-keep-le p xs)

module _ {ℓ κ} {A : Type ℓ} (P : A → Type κ) where
  abbrev pub All : List A → Type κ
  All [] = Unit
  All (x ∷ xs) = P x × All xs

  pub All-append : (xs ys : List A) → All xs → All ys → All (xs ++ ys)
  All-append [] ys h k = k
  All-append (x ∷ xs) ys (p, h) k = (p, All-append xs ys h k)

  pub All-Memᴰ : (xs : List A) {x : A} → All xs → Memᴰ x xs → P x
  All-Memᴰ [] _ m = elim m [ ]
  All-Memᴰ (y ∷ xs) (p, h) (Memᴰ.head e) = rw e p
  All-Memᴰ (y ∷ xs) (p, h) (Memᴰ.tail m) = All-Memᴰ xs h m

  pub All-keep : (p : A → Bool) (xs : List A) → All xs → All (keep p xs)
  All-keep p [] h = tt
  All-keep p (x ∷ xs) (q, h) = ground (arith, All-keep p xs h)

pub All-map {ℓ κ μ} :
    {A : Type ℓ} {P : A → Type κ} {Q : A → Type μ} (f : (x : A) → P x → Q x) (xs : List A)
    → All P xs
    → All Q xs
All-map f [] h = tt
All-map f (x ∷ xs) (p, h) = (f x p, All-map f xs h)

-- Membership of a text in a list, the test that a set of texts makes.
abbrev pub contains : List String → String → Bool
contains xs s = any (λ x. x == s) xs

abbrev pub Contains : List String → String → Type 0
Contains [] s = ⊥
Contains (x ∷ xs) s = (x ≡ s) ⊎ Contains xs s

pub contains_iff : (xs : List String) (s : String) → (contains xs s ≡ true) ↔ Contains xs s
contains_iff [] s = (λ h. cc, λ h. absurd h)
contains_iff (x ∷ xs) s = ground (arith, eq_iff x s, contains_iff xs s)

pub Contains-snoc :
    (xs : List String) (y s : String) → contains (xs ++ y ∷ []) s ≡ (contains xs s || y == s)
Contains-snoc [] y s = ground arith
Contains-snoc (x ∷ xs) y s = ground (arith, Contains-snoc xs y s)

-- No text stands twice.
abbrev pub Distinct : List String → Type 0
Distinct [] = Unit
Distinct (x ∷ xs) = All (λ y. x ≢ y) xs × Distinct xs

-- None of the texts is among the given ones.
abbrev pub AreNew : List String → List String → Type 0
AreNew seen xs = All (λ x. contains seen x ≡ false) xs

pub AreNew-snoc :
    (seen : List String) (y : String) (xs : List String)
    → AreNew (seen ++ y ∷ []) xs ↔ (AreNew seen xs × All (λ x. y ≢ x) xs)
AreNew-snoc seen y [] = (λ h. (tt, tt), λ h. tt)
AreNew-snoc seen y (x ∷ xs) =
    ground (arith, Contains-snoc seen y x, eq_iff y x, AreNew-snoc seen y xs)

pub AreNew-cons :
    (seen : List String) (y : String) (xs : List String)
    → AreNew (y ∷ seen) xs ↔ (AreNew seen xs × All (λ x. y ≢ x) xs)
AreNew-cons seen y [] = (λ h. (tt, tt), λ h. tt)
AreNew-cons seen y (x ∷ xs) = ground (arith, eq_iff y x, AreNew-cons seen y xs)

pub AreNew-nil : (xs : List String) → AreNew [] xs
AreNew-nil [] = tt
AreNew-nil (x ∷ xs) = (refl, AreNew-nil xs)

pub keep-Memᴰ {ℓ} :
    {A : Type ℓ} (f : A → Bool) (xs : List A) {x : A} → Memᴰ x xs → f x ≡ true → Memᴰ x (keep f xs)
keep-Memᴰ f [] m e = elim m [ ]
keep-Memᴰ f (y ∷ xs) (Memᴰ.head q) e =
    let here : f y ≡ true = rw q at e in rw (here, keep) (Memᴰ.head q)
keep-Memᴰ f (y ∷ xs) (Memᴰ.tail m) e = elim (Bool-cases (f y)) [
  | inl kept ↦ rw (kept, keep) (Memᴰ.tail (keep-Memᴰ f xs m e))
  | inr dropped ↦ rw (dropped, keep) (keep-Memᴰ f xs m e)
]

pub map-reverse {ℓ κ} :
    {A : Type ℓ} {B : Type κ} (f : A → B) (xs : List A) → map f (reverse xs) ≡ reverse (map f xs)
map-reverse f [] = refl
map-reverse f (x ∷ xs) =
    rw (reverse-cons x xs, reverse-cons (f x) (map f xs), map-append, map-reverse f xs)
