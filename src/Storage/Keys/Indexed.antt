-- ===== src/Storage/Keys/Indexed.antt =====
-- The by-id and by-pubkey maps of keys in step: what a new struct and a removed one leave of it.
pub mod Calls
pub mod Single
use cloistr_signer.Prelude.{
  ℕ, String, Bool, true, false, Option, none, some, List, [], ◌∷◌, ◌≡◌, refl, sym, ap, ◌∙◌, arith,
  eq_iff, eq_refl, Bool-cases, Option-cases, inl, inr, ◌⊎◌, ◌≢◌, str_eq, ◌==◌, ==_iff, not,
  if◌then◌else◌,
}
use cloistr_signer.Prelude.Dict.{
  Dict, lookup, delete, insert, lookup-insert, lookup-insert_self, lookup-delete,
}
use cloistr_signer.Storage.Types.{Key, KeyTable, Heap, update, ok}
use cloistr_signer.Storage.Users.{holds}
use cloistr_signer.Storage.Keys.{
  get_key_by_pubkey, index_name, drop_name, rename, create_key, update_key, update_key_encryption,
  delete_key, set_primary_key, mark_primary, mark_each,
}
use cloistr_signer.Storage.Keys.Primary.{IsKeyed, has_ref, mark_each-cases}

-- Each struct stands under its own id and pubkey, and the by-pubkey map has no other entries.
pub record IsIndexed (tbl : KeyTable) : Type 0 where
  pub keyed : IsKeyed tbl
  pub sound :
      (p : String) (r : ℕ)
      → lookup p tbl.keys_by_pubkey ≡ some r
      → ((tbl.cell r).pubkey ≡ p) × (lookup (tbl.cell r).id tbl.keys ≡ some r)
  pub complete :
      (id : String) (r : ℕ)
      → lookup id tbl.keys ≡ some r
      → lookup (tbl.cell r).pubkey tbl.keys_by_pubkey ≡ some r

-- A table whose structs differ in other fields only.
pub recelled-IsIndexed :
    (tbl : KeyTable) (cell' : Heap Key)
    → ((r : ℕ) → ((cell' r).id ≡ (tbl.cell r).id) × ((cell' r).pubkey ≡ (tbl.cell r).pubkey))
    → IsIndexed tbl
    → IsIndexed (record tbl { cell = cell' })
recelled-IsIndexed tbl cell' same w = record {
  keyed = λ id r found. (same r).0 ∙ w.keyed id r found;
  sound = λ p r found.
      let (is, at) = w.sound p r found in
      ((same r).1 ∙ is, ap (λ i. lookup i tbl.keys) (same r).0 ∙ at);
  complete = λ id r found. ap (λ q. lookup q tbl.keys_by_pubkey) (same r).1 ∙ w.complete id r found;
}

pub renamed-IsIndexed :
    (tbl : KeyTable) (names : Dict ℕ)
    → IsIndexed tbl
    → IsIndexed (record tbl { keys_by_name = names })
renamed-IsIndexed tbl names w = record { keyed = w.keyed; sound = w.sound; complete = w.complete }

-- A struct put under its id and its pubkey, where its id was free or held one with that pubkey.
pub put-IsIndexed :
    (tbl : KeyTable) (r : ℕ)
    → ((at : ℕ)
        → lookup (tbl.cell r).id tbl.keys ≡ some at
        → (tbl.cell at).pubkey ≡ (tbl.cell r).pubkey)
    → ((at : ℕ)
        → lookup (tbl.cell r).pubkey tbl.keys_by_pubkey ≡ some at
        → lookup (tbl.cell r).id tbl.keys ≡ some at)
    → IsIndexed tbl
    → IsIndexed (record tbl {
      keys = insert (tbl.cell r).id r tbl.keys;
      keys_by_pubkey = insert (tbl.cell r).pubkey r tbl.keys_by_pubkey;
    })
put-IsIndexed tbl r kept free w = record {
  keyed = λ id s found.
      ground (
        arith,
        lookup-insert (tbl.cell r).id id r tbl.keys,
        eq_iff (tbl.cell r).id id,
        w.keyed id s,
      );
  sound = λ p s found. elim (Bool-cases (str_eq (tbl.cell r).pubkey p)) [
    | inl same ↦
        let e : r ≡ s =
          ground (arith, same, found, lookup-insert (tbl.cell r).pubkey p r tbl.keys_by_pubkey) in
        (
          ap (λ i. (tbl.cell i).pubkey) (sym e) ∙ (eq_iff (tbl.cell r).pubkey p).0 same,
          ap (λ i. lookup (tbl.cell i).id (insert (tbl.cell r).id r tbl.keys)) (sym e)
              ∙ lookup-insert_self (tbl.cell r).id r tbl.keys
              ∙ ap some e,
        )
    | inr other ↦
        let (is, at) = w.sound p s (
          ground (arith, other, found, lookup-insert (tbl.cell r).pubkey p r tbl.keys_by_pubkey)) in
        (
          is,
          ground (
            arith,
            at,
            is,
            other,
            kept s,
            eq_iff (tbl.cell r).pubkey p,
            eq_iff (tbl.cell r).id (tbl.cell s).id,
            lookup-insert (tbl.cell r).id (tbl.cell s).id r tbl.keys,
          ),
        )
  ];
  complete = λ id s found. elim (Bool-cases (str_eq (tbl.cell r).id id)) [
    | inl same ↦
        let e : r ≡ s = ground (arith, same, found, lookup-insert (tbl.cell r).id id r tbl.keys) in
        ap (λ i. lookup (tbl.cell i).pubkey (insert (tbl.cell r).pubkey r tbl.keys_by_pubkey))
          (sym e)
        ∙ lookup-insert_self (tbl.cell r).pubkey r tbl.keys_by_pubkey
        ∙ ap some e
    | inr other ↦
        let old : lookup id tbl.keys ≡ some s =
          ground (arith, other, found, lookup-insert (tbl.cell r).id id r tbl.keys) in
        ground (
          arith,
          other,
          w.complete id s old,
          free s,
          w.keyed id s old,
          w.keyed (tbl.cell r).id s,
          eq_iff (tbl.cell r).id id,
          eq_iff (tbl.cell r).pubkey (tbl.cell s).pubkey,
          lookup-insert (tbl.cell r).pubkey (tbl.cell s).pubkey r tbl.keys_by_pubkey,
        )
  ];
}

pub removed-IsIndexed :
    (tbl : KeyTable) (id : String) (r : ℕ)
    → lookup id tbl.keys ≡ some r
    → IsIndexed tbl
    → IsIndexed (record tbl {
      keys = delete id tbl.keys;
      keys_by_pubkey = delete (tbl.cell r).pubkey tbl.keys_by_pubkey;
    })
removed-IsIndexed tbl id r found w = record {
  keyed = λ j s at. w.keyed j s (ground (arith, at, lookup-delete id j tbl.keys));
  sound = λ p s at.
      let law = lookup-delete (tbl.cell r).pubkey p tbl.keys_by_pubkey in
      let (is, old) = w.sound p s (ground (arith, law, at)) in
      (
        is,
        ground (
          arith,
          law,
          at,
          is,
          old,
          found,
          eq_iff (tbl.cell r).pubkey p,
          eq_iff id (tbl.cell s).id,
          lookup-delete id (tbl.cell s).id tbl.keys,
        ),
      );
  complete = λ j s at.
      let law = lookup-delete id j tbl.keys in
      let old : lookup j tbl.keys ≡ some s = ground (arith, law, at) in
      ground (
        arith,
        law,
        at,
        w.complete j s old,
        w.complete id r found,
        w.keyed j s old,
        w.keyed id r found,
        eq_iff id j,
        eq_iff (tbl.cell r).pubkey (tbl.cell s).pubkey,
        lookup-delete (tbl.cell r).pubkey (tbl.cell s).pubkey tbl.keys_by_pubkey,
      );
}
