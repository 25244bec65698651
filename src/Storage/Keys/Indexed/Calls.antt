-- ===== src/Storage/Keys/Indexed/Calls.antt =====
-- Each call on keys keeps the by-id and by-pubkey maps in step.
use cloistr_signer.Prelude.{
  ℕ, String, none, some, List, [], ◌∷◌, ◌≡◌, refl, ap, ◌∙◌, arith, Bool-cases, Option-cases, inl,
  inr, ◌⊎◌, str_eq, ◌==◌, ==_iff,
}
use cloistr_signer.Prelude.Dict.{Dict, lookup, insert}
use cloistr_signer.Storage.Types.{Key, KeyTable, Heap, update}
use cloistr_signer.Storage.Keys.{
  index_name, drop_name, rename, create_key, update_key, update_key_encryption, delete_key,
  set_primary_key, mark_primary, mark_each,
}
use cloistr_signer.Storage.Keys.Primary.{has_ref, mark_each-cases}
use cloistr_signer.Storage.Keys.Indexed.{
  IsIndexed, recelled-IsIndexed, renamed-IsIndexed, put-IsIndexed, removed-IsIndexed,
}

pub data KeyCall : Type 0 where
  create : ℕ → KeyCall
  change : ℕ → KeyCall
  encrypt : String → String → String → KeyCall
  remove : String → KeyCall
  promote : String → String → KeyCall

unfoldable pub step : KeyCall → KeyTable → KeyTable
step (create r) tbl = (create_key r tbl).0
step (change r) tbl = (update_key r tbl).0
step (encrypt id nsec method) tbl = (update_key_encryption id nsec method tbl).0
step (remove id) tbl = (delete_key id tbl [] []).0
step (promote owner_id id) tbl = (set_primary_key owner_id id tbl).0

unfoldable pub run : List KeyCall → KeyTable → KeyTable
run [] tbl = tbl
run (c ∷ cs) tbl = run cs (step c tbl)

-- An update gives the stored struct's pubkey again.
abbrev pub KeepsPubkey : KeyCall → KeyTable → Type 0
KeepsPubkey (change r) tbl =
    (at : ℕ)
    → lookup (tbl.cell r).id tbl.keys ≡ some at
    → (tbl.cell at).pubkey ≡ (tbl.cell r).pubkey
KeepsPubkey _ tbl = Unit

module _ (r : ℕ) (tbl : KeyTable) where
  -- What `CreateKey` does: nothing, or the struct stands under its id and its pubkey, both free.
  pub create_key-cases :
      ((create_key r tbl).0 ≡ tbl)
      ⊎ ((lookup (tbl.cell r).id tbl.keys ≡ none)
          × (lookup (tbl.cell r).pubkey tbl.keys_by_pubkey ≡ none)
          × ((create_key r tbl).0 ≡ record tbl {
            keys = insert (tbl.cell r).id r tbl.keys;
            keys_by_pubkey = insert (tbl.cell r).pubkey r tbl.keys_by_pubkey;
            keys_by_name = index_name (tbl.cell r).name r tbl.keys_by_name;
          }))
  unfolding create_key
  create_key-cases = elim (Option-cases (lookup (tbl.cell r).id tbl.keys)) [
    | inr (at, taken) ↦ inl (rw (taken, create_key) refl)
    | inl new ↦ elim (Option-cases (lookup (tbl.cell r).pubkey tbl.keys_by_pubkey)) [
      | inr (at, taken) ↦ inl (rw (new, create_key) (rw taken refl))
      | inl free ↦ inr (new, free, rw (new, create_key) (rw free refl))
    ]
  ]

  abbrev pub kept_single : ℕ → Key
  kept_single at = record (tbl.cell r) { single_grant = (tbl.cell at).single_grant }

  pub update_key-cases :
      ((update_key r tbl).0 ≡ tbl)
      ⊎ ((at : ℕ) × (lookup (tbl.cell r).id tbl.keys ≡ some at)
          × ((update_key r tbl).0 ≡ record {
            cell = update tbl.cell r (kept_single at);
            keys = insert (tbl.cell r).id r tbl.keys;
            keys_by_pubkey = insert (tbl.cell r).pubkey r tbl.keys_by_pubkey;
            keys_by_name = rename (tbl.cell at).name (tbl.cell r).name r tbl.keys_by_name;
          }))
  unfolding update_key
  update_key-cases = elim (Option-cases (lookup (tbl.cell r).id tbl.keys)) [
    | inl absent ↦ inl (rw (absent, update_key) refl)
    | inr (at, found) ↦ inr (at, found, rw (found, update_key) refl)
  ]

-- A write through a pointer that leaves an attribute.
pub written-same :
    {A : Type 0} (attr : Key → A) (cell : Heap Key) (r s : ℕ) (k : Key)
    → attr k ≡ attr (cell r)
    → attr (update cell r k s) ≡ attr (cell s)
written-same attr cell r s k same = elim (Bool-cases (r == s)) [
  | inl here ↦ rw here (same ∙ ap (λ i. attr (cell i)) ((==_iff r s).0 here))
  | inr there ↦ rw there refl
]

create_key-IsIndexed : (r : ℕ) (tbl : KeyTable) → IsIndexed tbl → IsIndexed (create_key r tbl).0
create_key-IsIndexed r tbl w = elim (create_key-cases r tbl) [
  | inl same ↦ rw same w
  | inr (new, free, is) ↦ rw is (
      renamed-IsIndexed _ (index_name (tbl.cell r).name r tbl.keys_by_name)
        (put-IsIndexed tbl r (λ at e. absurd (cc)) (λ at e. absurd (cc)) w))
]

update_key-IsIndexed :
    (r : ℕ) (tbl : KeyTable)
    → KeepsPubkey (change r) tbl
    → IsIndexed tbl
    → IsIndexed (update_key r tbl).0
update_key-IsIndexed r tbl kept w = elim (update_key-cases r tbl) [
  | inl same ↦ rw same w
  | inr (at, found, is) ↦ rw is (
      renamed-IsIndexed _ (rename (tbl.cell at).name (tbl.cell r).name r tbl.keys_by_name) (
        recelled-IsIndexed _ (update tbl.cell r (kept_single r tbl at))
          (λ s. (
            written-same (λ k. k.id) tbl.cell r s (kept_single r tbl at) refl,
            written-same (λ k. k.pubkey) tbl.cell r s (kept_single r tbl at) refl,
          ))
          (put-IsIndexed tbl r kept
            (λ other e.
              ground (arith, e, found, kept at found, w.complete (tbl.cell r).id at found))
            w)))
]

update_key_encryption-IsIndexed :
    (id nsec method : String) (tbl : KeyTable)
    → IsIndexed tbl
    → IsIndexed (update_key_encryption id nsec method tbl).0
unfolding update_key_encryption
update_key_encryption-IsIndexed id nsec method tbl w = elim (Option-cases (lookup id tbl.keys)) [
  | inl absent ↦ rw (absent, update_key_encryption) w
  | inr (r, found) ↦
      let k = record (tbl.cell r) { encrypted_nsec = nsec; encryption_method = method } in
      rw (found, update_key_encryption)
        (recelled-IsIndexed tbl (update tbl.cell r k)
          (λ s. (
            written-same (λ x. x.id) tbl.cell r s k refl,
            written-same (λ x. x.pubkey) tbl.cell r s k refl,
          ))
          w)
]

delete_key-IsIndexed :
    (id : String) (tbl : KeyTable) → IsIndexed tbl → IsIndexed (delete_key id tbl [] []).0
unfolding delete_key
delete_key-IsIndexed id tbl w = elim (Option-cases (lookup id tbl.keys)) [
  | inl absent ↦ rw (absent, delete_key) w
  | inr (r, found) ↦
      rw (found, delete_key)
        (renamed-IsIndexed _ (drop_name (tbl.cell r).name tbl.keys_by_name)
          (removed-IsIndexed tbl id r found w))
]

-- The loop of `SetPrimaryKey` leaves every attribute but the flag.
pub mark_each-same :
    {A : Type 0} (attr : Key → A) (owner_id key_id : String) (entries : Dict ℕ) (cell : Heap Key)
    (s : ℕ)
    → attr (mark_primary owner_id key_id (cell s)) ≡ attr (cell s)
    → attr (mark_each owner_id key_id entries cell s) ≡ attr (cell s)
mark_each-same attr owner_id key_id entries cell s same =
    ap attr (mark_each-cases owner_id key_id entries cell s)
    ∙ (elim (Bool-cases (has_ref s entries)) [
      | inl reached ↦ rw reached same
      | inr missed ↦ rw missed refl
    ])

pub mark_primary-fields :
    (owner_id key_id : String) (k : Key)
    → ((mark_primary owner_id key_id k).id ≡ k.id)
      × ((mark_primary owner_id key_id k).pubkey ≡ k.pubkey)
      × ((mark_primary owner_id key_id k).single_grant ≡ k.single_grant)
unfolding mark_primary
mark_primary-fields owner_id key_id k = ground arith

pub set_primary_key-places :
    (owner_id key_id : String) (tbl : KeyTable)
    → ((set_primary_key owner_id key_id tbl).0 ≡ tbl)
      ⊎ ((set_primary_key owner_id key_id tbl).0
          ≡ record tbl { cell = mark_each owner_id key_id tbl.keys tbl.cell })
unfolding set_primary_key
set_primary_key-places owner_id key_id tbl = elim (Option-cases (lookup key_id tbl.keys)) [
  | inl absent ↦ inl (rw (absent, set_primary_key) refl)
  | inr (r, found) ↦ elim (Bool-cases (str_eq (tbl.cell r).owner_id owner_id)) [
    | inl theirs ↦ inr (rw (found, set_primary_key) (rw theirs refl))
    | inr other ↦ inl (rw (found, set_primary_key) (rw other refl))
  ]
]

set_primary_key-IsIndexed :
    (owner_id key_id : String) (tbl : KeyTable)
    → IsIndexed tbl
    → IsIndexed (set_primary_key owner_id key_id tbl).0
set_primary_key-IsIndexed owner_id key_id tbl w =
    elim (set_primary_key-places owner_id key_id tbl) [
      | inl same ↦ rw same w
      | inr is ↦ rw is (
          recelled-IsIndexed tbl (mark_each owner_id key_id tbl.keys tbl.cell)
            (λ s.
              let (same_id, same_pubkey, _) = mark_primary-fields owner_id key_id (tbl.cell s) in
              (
                mark_each-same (λ k. k.id) owner_id key_id tbl.keys tbl.cell s same_id,
                mark_each-same (λ k. k.pubkey) owner_id key_id tbl.keys tbl.cell s same_pubkey,
              ))
            w)
    ]

-- A call on keys, but for an update that gives a stored key another pubkey, keeps the by-id and
-- by-pubkey maps in step: each struct stands under its own id and pubkey, and nothing else stands in
-- the by-pubkey map.
pub step-IsIndexed :
    (c : KeyCall) (tbl : KeyTable) → KeepsPubkey c tbl → IsIndexed tbl → IsIndexed (step c tbl)
unfolding step
step-IsIndexed (create r) tbl kept w = create_key-IsIndexed r tbl w
step-IsIndexed (change r) tbl kept w = update_key-IsIndexed r tbl kept w
step-IsIndexed (encrypt id nsec method) tbl kept w =
    update_key_encryption-IsIndexed id nsec method tbl w
step-IsIndexed (remove id) tbl kept w = delete_key-IsIndexed id tbl w
step-IsIndexed (promote owner_id id) tbl kept w = set_primary_key-IsIndexed owner_id id tbl w
