-- ===== src/Prelude/KeyMaps.antt =====
-- Counters under keys that are compared by a test: the first entry of a key counts, and a missing
-- key reads as 0.
use Prim.Native.Nat.{ℕ}
use yaagents_gateway.Prelude.Tests.{if◌then◌else◌}
use mathlib.Core.Path.{◌≡◌, refl}
use mathlib.Core.Bool.{Bool, true}
use mathlib.Core.Logic.{◌↔◌}
use mathlib.Core.List.{List, [], ◌∷◌}
use native.Mathlib.Omega.{arith}

module _ {ℓ} {K : Type ℓ} (same : K → K → Bool) where
  -- `m[k]`
  unfoldable pub read_count : K → List (K × ℕ) → ℕ
  read_count k [] = 0
  read_count k ((j, n) ∷ m) = if same j k then n else read_count k m

  -- `m[k] = n`
  unfoldable pub write_count : K → ℕ → List (K × ℕ) → List (K × ℕ)
  write_count k n [] = (k, n) ∷ []
  write_count k n ((j, i) ∷ m) = if same j k then (k, n) ∷ m else (j, i) ∷ write_count k n m

  -- `delete(m, k)`
  unfoldable pub drop_count : K → List (K × ℕ) → List (K × ℕ)
  drop_count k [] = []
  drop_count k ((j, i) ∷ m) = let rest = drop_count k m in if same j k then rest else (j, i) ∷ rest

  module _ (same_iff : (j k : K) → (same j k ≡ true) ↔ (j ≡ k)) where
    pub read-write :
        (k j : K) (n : ℕ) (m : List (K × ℕ))
        → read_count j (write_count k n m) ≡ (if same k j then n else read_count j m)
    unfolding read_count write_count
    read-write k j n [] = refl
    read-write k j n ((i, p) ∷ m) =
        ground (arith, same_iff k j, same_iff i k, same_iff i j, read-write k j n m)

    pub read-drop :
        (k j : K) (m : List (K × ℕ))
        → read_count j (drop_count k m) ≡ (if same k j then 0 else read_count j m)
    unfolding read_count drop_count
    read-drop k j [] = ground arith
    read-drop k j ((i, p) ∷ m) =
        ground (arith, same_iff k j, same_iff i k, same_iff i j, read-drop k j m)
