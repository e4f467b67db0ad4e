-- ===== src/Base/Dict.antt =====
-- A Go map with text keys, as an association list with each key once.
use Prim.Native.String.{String}
use mathlib.Core.Path.{◌≡◌, refl}
use mathlib.Core.Option.{Option, none, some}
use mathlib.Core.List.{List, [], ◌∷◌}
use native.Mathlib.Omega.{arith}
use text.Mathlib.Text.{◌==◌}
use text.Mathlib.TextEquality.{eq_iff}
use mesh_geth_sdk.Base.Tests.{if◌then◌else◌}

abbrev pub Dict {ℓ} : Type ℓ → Type ℓ
Dict V = List (String × V)

module _ {ℓ} {V : Type ℓ} where
  -- `value, ok := m[key]`
  unfoldable pub lookup : String → Dict V → Option V
  lookup key [] = none
  lookup key ((k, x) ∷ rest) = if k == key then some x else lookup key rest

  -- `delete(m, key)`
  unfoldable pub erase : String → Dict V → Dict V
  erase key [] = []
  erase key ((k, x) ∷ rest) = if k == key then erase key rest else (k, x) ∷ erase key rest

  -- `m[key] = x`, which keeps the key that is there.
  unfoldable pub insert : String → V → Dict V → Dict V
  insert key x [] = (key, x) ∷ []
  insert key x ((k, y) ∷ rest) = if k == key then (k, x) ∷ rest else (k, y) ∷ insert key x rest

  pub lookup-erase :
      (key k : String) (d : Dict V)
      → lookup k (erase key d) ≡ (if key == k then none else lookup k d)
  unfolding lookup erase
  lookup-erase key k [] = ground arith
  lookup-erase key k ((other, x) ∷ rest) =
      ground (arith, lookup-erase key k rest, eq_iff other k, eq_iff other key, eq_iff key k)

  pub lookup-insert :
      (key k : String) (x : V) (d : Dict V)
      → lookup k (insert key x d) ≡ (if key == k then some x else lookup k d)
  unfolding lookup insert
  lookup-insert key k x ((other, y) ∷ rest) =
      ground (arith, lookup-insert key k x rest, eq_iff other k, eq_iff other key, eq_iff key k)
  lookup-insert key k x [] = refl

pub ruleset dict_laws = (lookup-insert, lookup-erase)
