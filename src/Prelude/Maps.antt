-- ===== src/Prelude/Maps.antt =====
-- A Go map with text keys, as an association list: the first entry of a key counts.
use Prim.Native.String.{String}
use mathlib.Core.Path.{◌≡◌, refl}
use mathlib.Core.Option.{Option, none, some}
use mathlib.Core.List.{List, [], ◌∷◌}
use native.Mathlib.Omega.{arith}
use text.Mathlib.Text.{◌==◌}
use text.Mathlib.TextEquality.{eq_iff}
use yaagents_gateway.Prelude.Tests.{if◌then◌else◌}

module _ {ℓ} {V : Type ℓ} where
  unfoldable pub lookup : String → List (String × V) → Option V
  lookup key [] = none
  lookup key (entry ∷ rest) = if entry.0 == key then some entry.1 else lookup key rest

  -- `m[k] = v`
  unfoldable pub insert : String → V → List (String × V) → List (String × V)
  insert key value [] = (key, value) ∷ []
  insert key value (entry ∷ rest) =
      let inner = insert key value rest in
      if entry.0 == key then (key, value) ∷ rest else entry ∷ inner

  -- `delete(m, k)`
  unfoldable pub delete : String → List (String × V) → List (String × V)
  delete key [] = []
  delete key (entry ∷ rest) =
      let inner = delete key rest in if entry.0 == key then inner else entry ∷ inner

  -- What is read after a write: the new value under its key, and what was there elsewhere.
  pub lookup-insert :
      (written read : String) (value : V) (entries : List (String × V))
      → lookup read (insert written value entries)
        ≡ (if written == read then some value else lookup read entries)
  unfolding lookup insert
  lookup-insert written read value [] = refl
  lookup-insert written read value (entry ∷ rest) = ground (
    arith,
    lookup-insert written read value rest,
    eq_iff entry.0 written,
    eq_iff entry.0 read,
    eq_iff written read,
  )

  pub lookup-delete :
      (gone read : String) (entries : List (String × V))
      → lookup read (delete gone entries) ≡ (if gone == read then none else lookup read entries)
  unfolding lookup delete
  lookup-delete gone read [] = ground arith
  lookup-delete gone read (entry ∷ rest) = ground (
    arith,
    lookup-delete gone read rest,
    eq_iff entry.0 gone,
    eq_iff entry.0 read,
    eq_iff gone read,
  )
