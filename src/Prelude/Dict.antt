-- ===== src/Prelude/Dict.antt =====
-- Go's `map[string]T` as an association list: what is read, written, deleted and ranged over.
-- A `range` that deletes entries is `retain`, one that writes to each value is `map_values`.
use Prim.Native.Nat.{ℕ, suc, ◌+◌, ◌≤◌}
use Prim.Native.String.{String}
use mathlib.Core.Path.{◌≡◌, refl}
use mathlib.Core.Bool.{Bool, false, ◌||◌}
use mathlib.Core.Option.{Option, none, some}
use mathlib.Core.List.{List, [], ◌∷◌}
use native.Mathlib.Omega.{arith}
use text.Mathlib.Text.{◌==◌}
use text.Mathlib.TextEquality.{eq_iff}
use text.Mathlib.TextPositions.{eq_refl}
use cloistr_signer.Prelude.Tests.{if◌then◌else◌}

abbrev pub Dict {ℓ} : Type ℓ → Type ℓ
Dict V = List (String × V)

module _ {ℓ} {V : Type ℓ} where
  unfoldable pub lookup : String → Dict V → Option V
  lookup k [] = none
  lookup k ((j, v) ∷ m) = if j == k then some v else lookup k m

  unfoldable pub delete : String → Dict V → Dict V
  delete k [] = []
  delete k ((j, v) ∷ m) = let rest = delete k m in if j == k then rest else (j, v) ∷ rest

  unfoldable pub insert : String → V → Dict V → Dict V
  unfolding delete
  insert k v m = (k, v) ∷ delete k m

  -- `for k, v := range m { if !keep(k, v) { delete(m, k) } }`
  unfoldable pub retain : (String → V → Bool) → Dict V → Dict V
  unfolding delete
  retain keep [] = []
  retain keep ((k, v) ∷ m) =
      let rest = retain keep m in if keep k v then (k, v) ∷ rest else delete k rest

  -- `for k, v := range m { *v = f(k, v) }`
  unfoldable pub map_values : (String → V → V) → Dict V → Dict V
  map_values f [] = []
  map_values f ((k, v) ∷ m) = (k, f k v) ∷ map_values f m

  -- Some entry of the range meets the test.
  unfoldable pub any_entry : (String → V → Bool) → Dict V → Bool
  any_entry test [] = false
  any_entry test ((k, v) ∷ m) = test k v || any_entry test m

  -- The values that a range collects.
  unfoldable pub values : (String → V → Bool) → Dict V → List V
  values keep [] = []
  values keep ((k, v) ∷ m) = let rest = values keep m in if keep k v then v ∷ rest else rest

  unfoldable pub size : Dict V → ℕ
  size [] = 0
  size (e ∷ m) = suc (size m)

  abbrev pub keep_if : (V → Bool) → Option V → Option V
  keep_if keep none = none
  keep_if keep (some v) = if keep v then some v else none

  abbrev pub map_option : (V → V) → Option V → Option V
  map_option f none = none
  map_option f (some v) = some (f v)

  pub lookup-delete :
      (k j : String) (m : Dict V) → lookup j (delete k m) ≡ (if k == j then none else lookup j m)
  unfolding lookup delete
  lookup-delete k j [] = ground arith
  lookup-delete k j ((i, w) ∷ m) =
      ground (arith, eq_iff k j, eq_iff i k, eq_iff i j, lookup-delete k j m)

  pub lookup-insert :
      (k j : String) (v : V) (m : Dict V)
      → lookup j (insert k v m) ≡ (if k == j then some v else lookup j m)
  unfolding lookup insert
  lookup-insert k j v m = ground (arith, lookup-delete k j m)

  pub lookup-insert_self : (k : String) (v : V) (m : Dict V) → lookup k (insert k v m) ≡ some v
  lookup-insert_self k v m = simp (lookup-insert, eq_refl)

  pub lookup-retain :
      (keep : String → V → Bool) (j : String) (m : Dict V)
      → lookup j (retain keep m) ≡ keep_if (keep j) (lookup j m)
  unfolding lookup retain
  lookup-retain keep j [] = refl
  lookup-retain keep j ((k, v) ∷ m) =
      ground (arith, eq_iff k j, lookup-retain keep j m, lookup-delete k j (retain keep m))

  pub lookup-map_values :
      (f : String → V → V) (j : String) (m : Dict V)
      → lookup j (map_values f m) ≡ map_option (f j) (lookup j m)
  unfolding lookup map_values
  lookup-map_values f j [] = refl
  lookup-map_values f j ((k, v) ∷ m) = ground (arith, eq_iff k j, lookup-map_values f j m)

  pub size-delete-le : (k : String) (m : Dict V) → size (delete k m) ≤ size m
  unfolding size delete
  size-delete-le k [] = omega arith
  size-delete-le k ((j, v) ∷ m) = ground (arith, size-delete-le k m)

  pub size-insert-le : (k : String) (v : V) (m : Dict V) → size (insert k v m) ≤ size m + 1
  unfolding size insert
  size-insert-le k v m = ground (arith, size-delete-le k m)

  pub size-retain-le : (keep : String → V → Bool) (m : Dict V) → size (retain keep m) ≤ size m
  unfolding size retain
  size-retain-le keep [] = omega arith
  size-retain-le keep ((k, v) ∷ m) =
      ground (arith, size-retain-le keep m, size-delete-le k (retain keep m))
