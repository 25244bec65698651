-- ===== src/Prelude/Distinct.antt =====
-- Dictionaries with one entry for each key, as every `map` of the sources is: kept by every
-- operation, and what makes a `range` and a lookup agree.
use Prim.Native.String.{String}
use mathlib.Core.Path.{◌≡◌}
use mathlib.Core.Logic.{inl, inr}
use mathlib.Core.Bool.{Bool, true, false}
use mathlib.Core.Option.{none, some}
use mathlib.Core.List.{[], ◌∷◌}
use native.Mathlib.Omega.{arith}
use text.Mathlib.TextEquality.{eq_iff}
use text.Mathlib.TextPositions.{eq_refl}
use cloistr_signer.Prelude.Tests.{Bool-cases}
use cloistr_signer.Prelude.Dict.{
  Dict, lookup, delete, insert, retain, map_values, any_entry, lookup-delete, lookup-retain,
  lookup-map_values,
}

module _ {ℓ} {V : Type ℓ} where
  abbrev pub IsDistinct : Dict V → Type ℓ
  IsDistinct [] = Unit
  IsDistinct ((k, v) ∷ m) = (lookup k m ≡ none) × IsDistinct m

  pub delete-IsDistinct : (k : String) (m : Dict V) → IsDistinct m → IsDistinct (delete k m)
  unfolding delete
  delete-IsDistinct k [] d = d
  delete-IsDistinct k ((j, v) ∷ m) d =
      ground (arith, delete-IsDistinct k m, lookup-delete k j m, eq_iff j k)

  pub insert-IsDistinct :
      (k : String) (v : V) (m : Dict V) → IsDistinct m → IsDistinct (insert k v m)
  unfolding insert
  insert-IsDistinct k v m d = ground (arith, delete-IsDistinct k m, lookup-delete k k m, eq_refl k)

  pub retain-IsDistinct :
      (keep : String → V → Bool) (m : Dict V) → IsDistinct m → IsDistinct (retain keep m)
  unfolding retain
  retain-IsDistinct keep [] d = d
  retain-IsDistinct keep ((k, v) ∷ m) d =
      ground (
        arith,
        retain-IsDistinct keep m,
        lookup-retain keep k m,
        delete-IsDistinct k (retain keep m),
      )

  pub map_values-IsDistinct :
      (f : String → V → V) (m : Dict V) → IsDistinct m → IsDistinct (map_values f m)
  unfolding map_values
  map_values-IsDistinct f [] d = d
  map_values-IsDistinct f ((k, v) ∷ m) d =
      ground (arith, map_values-IsDistinct f m, lookup-map_values f k m)

  -- No entry of the range meets the test: none that a lookup finds does.
  pub any_entry-eq-false :
      (test : String → V → Bool) (m : Dict V) (k : String) (v : V)
      → any_entry test m ≡ false
      → lookup k m ≡ some v
      → test k v ≡ false
  unfolding any_entry lookup
  any_entry-eq-false test [] k v h e = cc
  any_entry-eq-false test ((j, w) ∷ m) k v h e =
      ground (arith, eq_iff j k, any_entry-eq-false test m k v)

  -- Some entry of the range meets the test: a lookup finds it.
  pub any_entry-eq-true :
      (test : String → V → Bool) (m : Dict V)
      → IsDistinct m
      → any_entry test m ≡ true
      → (k : String) × (v : V) × (lookup k m ≡ some v) × (test k v ≡ true)
  unfolding any_entry lookup
  any_entry-eq-true test [] d h = absurd (cc)
  any_entry-eq-true test ((j, w) ∷ m) d h = elim (Bool-cases (test j w)) [
    | inl here ↦ (j, w, rw eq_refl, here)
    | inr missed ↦
        let (k, v, found, meets) = any_entry-eq-true test m d.1 (let e = h in rw missed at e) in
        (k, v, ground (arith, eq_iff j k), meets)
  ]
