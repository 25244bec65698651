-- ===== src/Examples/Granting.antt =====
-- Grants on a key that stands in the table.
use cloistr_signer.Prelude.{String, true, false, none, some, [], ◌∷◌, ◌≡◌, refl, arith, ◌↔◌}
use cloistr_signer.Prelude.Dict.{lookup, any_entry}
use cloistr_signer.Prelude.Distinct.{IsDistinct}
use cloistr_signer.Storage.Types.{Permission, Error, err, permission_expired, slot_occupied}
use cloistr_signer.Storage.Grants.{
  set_permission, get_permission, check_grant, grants_of, validate_slot, default_slot,
  stamp_created, store_grant, occupies,
}
use cloistr_signer.Storage.Grants.View.{grant}
use cloistr_signer.Storage.Grants.Trace.{run, set, remove, note_use, is_single}
use cloistr_signer.Storage.Grants.Access.{Answer, get_permission-Answer}
use cloistr_signer.Storage.Grants.Exclusive.{IsExclusive, run-IsExclusive}
use cloistr_signer.Storage.Grants.Lapse.{get_permission-run}
use cloistr_signer.Storage.Grants.Slots.{
  IsRival, slot_of, set_permission-slot_occupied_iff, set_permission_error,
}
use cloistr_signer.Storage.Grants.Stored.{IsStored, set_permission-IsStored}
use cloistr_signer.Examples.{table, a_grant, an_expiring_grant, one_grant}

empty-IsExclusive : IsExclusive (table true) []
unfolding grants_of lookup
empty-IsExclusive k u v p q single hp hq rp rq same = absurd (cc)

run-IsExclusive_example : IsExclusive (table true) (
    run
      (table true)
      (set 5 5 (a_grant "alice") true ∷ set 6 6 (a_grant "bob") true ∷ note_use 7 "k1" "alice" ∷ [])
      [])
run-IsExclusive_example =
    run-IsExclusive (table true)
      (set 5 5 (a_grant "alice") true ∷ set 6 6 (a_grant "bob") true ∷ note_use 7 "k1" "alice" ∷ [])
      [] empty-IsExclusive

lapsed_at_eleven :
    get_permission 11 "k1" "alice" (one_grant an_expiring_grant) ≡ err permission_expired
unfolding get_permission check_grant grants_of lookup
lapsed_at_eleven = refl

get_permission-run_example :
    (e : Error) × (get_permission 20 "k1" "alice" (
        run
          (table false)
          (note_use 12 "k1" "alice" ∷ remove "k1" "bob" ∷ [])
          (one_grant an_expiring_grant))
      ≡ err e)
get_permission-run_example =
    get_permission-run (table false) 11 20 "k1" "alice"
      (note_use 12 "k1" "alice" ∷ remove "k1" "bob" ∷ []) (one_grant an_expiring_grant)
      permission_expired lapsed_at_eleven (omega arith, refl, (omega arith, refl, tt)) (omega arith)

get_permission-Answer_example :
    Answer 11
      (one_grant an_expiring_grant)
      "k1"
      "alice"
      (get_permission 11 "k1" "alice" (one_grant an_expiring_grant))
get_permission-Answer_example = get_permission-Answer 11 (one_grant an_expiring_grant) "k1" "alice"

bob_stored :
    (set_permission (table true) 6 6 (a_grant "bob") true (one_grant an_expiring_grant)).2 ≡ none
unfolding set_permission validate_slot default_slot stamp_created store_grant grants_of lookup
bob_stored = refl

bob_refused :
    (set_permission (table true) 6 6 (a_grant "bob") false (one_grant an_expiring_grant)).2
    ≡ some slot_occupied
unfolding set_permission validate_slot default_slot stamp_created store_grant grants_of lookup
    any_entry occupies
bob_refused = refl

one-IsDistinct : IsDistinct (grants_of "k1" (one_grant an_expiring_grant))
unfolding grants_of lookup
one-IsDistinct = (refl, tt)

set_permission-IsStored_example :
    IsStored
      (is_single (table true) "k1")
      6
      6
      (a_grant "bob")
      (set_permission (table true) 6 6 (a_grant "bob") true (one_grant an_expiring_grant)).1
      (one_grant an_expiring_grant)
      (set_permission (table true) 6 6 (a_grant "bob") true (one_grant an_expiring_grant)).0
set_permission-IsStored_example =
    set_permission-IsStored (table true) 6 6 (a_grant "bob") true (one_grant an_expiring_grant)
      bob_stored

set_permission-slot_occupied_iff_example :
    ((set_permission (table true) 6 6 (a_grant "bob") false (one_grant an_expiring_grant)).2
      ≡ some slot_occupied)
    ↔ ((is_single (table true) "k1" ≡ true)
        × (validate_slot (slot_of (a_grant "bob")) ≡ none)
        × ((v : String) × (q : Permission) × (grant (one_grant an_expiring_grant) "k1" v ≡ some q)
            × IsRival "bob" (slot_of (a_grant "bob")) 6 v q))
set_permission-slot_occupied_iff_example =
    set_permission-slot_occupied_iff (table true) 6 6 (a_grant "bob") (one_grant an_expiring_grant)
      one-IsDistinct

set_permission_error_example :
    grant
      (set_permission (table true) 6 6 (a_grant "bob") false (one_grant an_expiring_grant)).0
      "k1"
      "alice"
    ≡ grant (one_grant an_expiring_grant) "k1" "alice"
set_permission_error_example =
    set_permission_error (table true) 6 6 (a_grant "bob") false (one_grant an_expiring_grant)
      slot_occupied bob_refused "k1" "alice"
