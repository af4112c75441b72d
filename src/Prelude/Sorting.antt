-- ===== src/Prelude/Sorting.antt =====
-- Sorting by a test of strict order, as the sort package does on keys that all differ.
use mathlib.Core.Path.{◌≡◌, refl}
use mathlib.Core.Bool.{Bool, true, false}
use mathlib.Core.List.{List, [], ◌∷◌, Permᴰ}
use mathlib.Core.List.Permᴰ
use mathlib.Core.Logic.{inl, inr}
use Prim.Native.Char.{code}
use Prim.Native.String.{String}
use native.Mathlib.Omega.{arith}
use yaagents_gateway.Prelude.Tests.{ltb, eqb, if◌then◌else◌, Bool-cases}

-- `s < t`: by the code points, which is by the bytes of UTF-8.
unfoldable pub less : String → String → Bool
less s String.[] = false
less String.[] (String.◌∷◌ d t) = true
less (String.◌∷◌ c s) (String.◌∷◌ d t) =
    let rest = less s t in
    if ltb (code c) (code d) then true else if eqb (code c) (code d) then rest else false

pub less_asymm : (s t : String) → less s t ≡ true → less t s ≡ false
unfolding less
less_asymm s String.[] h = cc h
less_asymm String.[] (String.◌∷◌ d t) h = refl
less_asymm (String.◌∷◌ c s) (String.◌∷◌ d t) h = ground (arith, less_asymm s t)

module _ {ℓ} {A : Type ℓ} (before : A → A → Bool) where
  unfoldable pub insert_by : A → List A → List A
  insert_by x [] = x ∷ []
  insert_by x (y ∷ ys) = let later = insert_by x ys in if before x y then x ∷ y ∷ ys else y ∷ later

  unfoldable pub sort_by : List A → List A
  unfolding insert_by
  sort_by [] = []
  sort_by (x ∷ xs) = insert_by x (sort_by xs)

  pub insert_by-Permᴰ : (x : A) (xs : List A) → Permᴰ (insert_by x xs) (x ∷ xs)
  unfolding insert_by
  insert_by-Permᴰ x [] = Permᴰ.refl (x ∷ [])
  insert_by-Permᴰ x (y ∷ ys) = elim (Bool-cases (before x y)) [
    | inl first ↦ rw (first, insert_by) (Permᴰ.refl (x ∷ y ∷ ys))
    | inr later ↦
        rw (later, insert_by)
          (Permᴰ.trans (Permᴰ.cons refl (insert_by-Permᴰ x ys)) (Permᴰ.swap refl refl))
  ]

  -- The same items, as often.
  pub sort_by-Permᴰ : (xs : List A) → Permᴰ (sort_by xs) xs
  unfolding sort_by
  sort_by-Permᴰ [] = Permᴰ.nil
  sort_by-Permᴰ (x ∷ xs) =
      Permᴰ.trans (insert_by-Permᴰ x (sort_by xs)) (Permᴰ.cons refl (sort_by-Permᴰ xs))

  -- No item stands right behind one that it comes before.
  abbrev pub IsOrdered : List A → Type 0
  IsOrdered [] = Unit {0}
  IsOrdered (x ∷ []) = Unit {0}
  IsOrdered (x ∷ y ∷ ys) = (before y x ≡ false) × IsOrdered (y ∷ ys)

  module _ (asymm : (x y : A) → before x y ≡ true → before y x ≡ false) where
    insert_by-behind :
        (x y : A) (ys : List A)
        → before x y ≡ false
        → IsOrdered (y ∷ ys)
        → IsOrdered (y ∷ insert_by x ys)
    unfolding insert_by
    insert_by-behind x y [] h o = (h, tt)
    insert_by-behind x y (z ∷ ys) h (first, o) = elim (Bool-cases (before x z)) [
      | inl here ↦ rw (here, insert_by) (h, (asymm x z here, o))
      | inr later ↦ rw (later, insert_by) (first, insert_by-behind x z ys later o)
    ]

    insert_by-IsOrdered : (x : A) (xs : List A) → IsOrdered xs → IsOrdered (insert_by x xs)
    unfolding insert_by
    insert_by-IsOrdered x [] o = tt
    insert_by-IsOrdered x (y ∷ ys) o = elim (Bool-cases (before x y)) [
      | inl here ↦ rw (here, insert_by) (asymm x y here, o)
      | inr later ↦ rw (later, insert_by) (insert_by-behind x y ys later o)
    ]

    pub sort_by-IsOrdered : (xs : List A) → IsOrdered (sort_by xs)
    unfolding sort_by
    sort_by-IsOrdered [] = tt
    sort_by-IsOrdered (x ∷ xs) = insert_by-IsOrdered x (sort_by xs) (sort_by-IsOrdered xs)
