-- ===== src/Prelude/Dict.antt =====
-- A Go map with text keys, as an association list. The order of the entries stands for the
-- order, which Go leaves open, in which a `range` loop visits the map.
use Prim.Native.String.{String}
use mathlib.Core.Path.{◌≡◌, refl}
use mathlib.Core.Option.{Option, none, some}
use mathlib.Core.List.{List, [], ◌∷◌}
use native.Mathlib.Omega.{arith}
use text.Mathlib.Text.{◌==◌}
use text.Mathlib.TextEquality.{eq_iff}
use text.Mathlib.TextPositions.{eq_refl}
use dra_linux_networks.Prelude.Tests.{if◌then◌else◌}

abbrev pub Dict {ℓ} : Type ℓ → Type ℓ
Dict V = List (String × V)

module _ {ℓ} {V : Type ℓ} where
  -- `v, ok := m[k]`
  unfoldable pub lookup : String → Dict V → Option V
  lookup k [] = none
  lookup k ((j, v) ∷ m) = if j == k then some v else lookup k m

  -- `m[key] = value`
  unfoldable pub insert : String → V → Dict V → Dict V
  insert key value [] = (key, value) ∷ []
  insert key value ((first, old) ∷ entries) =
      if first == key then (key, value) ∷ entries else (first, old) ∷ insert key value entries

  -- `delete(m, k)`
  unfoldable pub remove : String → Dict V → Dict V
  remove k [] = []
  remove k ((j, v) ∷ m) = let rest = remove k m in if j == k then rest else (j, v) ∷ rest

  -- A map read after an assignment.
  pub lookup-insert :
      (set get : String) (value : V) (entries : Dict V)
      → lookup get (insert set value entries)
        ≡ (if set == get then some value else lookup get entries)
  unfolding lookup insert
  lookup-insert set get value [] = refl
  lookup-insert set get value ((first, old) ∷ entries) = ground (
    arith,
    lookup-insert set get value entries,
    eq_iff first set,
    eq_iff first get,
    eq_iff set get,
  )

  pub lookup-remove :
      (k j : String) (m : Dict V) → lookup j (remove k m) ≡ (if k == j then none else lookup j m)
  unfolding lookup remove
  lookup-remove k j [] = ground arith
  lookup-remove k j ((i, v) ∷ m) =
      ground (arith, lookup-remove k j m, eq_iff i k, eq_iff i j, eq_iff k j)

  pub lookup-insert_self : (k : String) (v : V) (m : Dict V) → lookup k (insert k v m) ≡ some v
  lookup-insert_self k v m = simp (lookup-insert, eq_refl)

  pub lookup-remove_self : (k : String) (m : Dict V) → lookup k (remove k m) ≡ none
  lookup-remove_self k m = simp (lookup-remove, eq_refl)

pub ruleset dict_laws = (lookup-insert, lookup-remove, eq_refl)
