-- ===== src/Storage/Keys/Indexed/Single.antt =====
-- A key's `SingleGrant` is fixed at its creation: no later call changes it.
use cloistr_signer.Prelude.{
  ℕ, String, Bool, true, false, some, List, [], ◌∷◌, ◌≡◌, refl, sym, ap, ◌∙◌, arith, eq_iff,
  Bool-cases, Option-cases, inl, inr, str_eq, ◌==◌, ==_iff,
}
use cloistr_signer.Prelude.Dict.{Dict, lookup, insert, lookup-insert, lookup-delete}
use cloistr_signer.Storage.Types.{KeyTable, update}
use cloistr_signer.Storage.Keys.{
  create_key, update_key, update_key_encryption, delete_key, set_primary_key,
}
use cloistr_signer.Storage.Keys.Indexed.{IsIndexed}
use cloistr_signer.Storage.Keys.Indexed.Calls.{
  KeyCall, create, change, encrypt, remove, promote, step, run, KeepsPubkey, create_key-cases,
  update_key-cases, kept_single, written-same, mark_each-same, mark_primary-fields,
  set_primary_key-places, step-IsIndexed,
}

-- The key with the pubkey has the id and the flag.
pub record IsFlagged (p id : String) (flag : Bool) (tbl : KeyTable) : Type 0 where
  pub place : ℕ
  pub found : lookup p tbl.keys_by_pubkey ≡ some place
  pub has_id : (tbl.cell place).id ≡ id
  pub has_flag : (tbl.cell place).single_grant ≡ flag

-- The call does not delete the key with the id.
abbrev pub removes : String → KeyCall → Bool
removes id (remove j) = str_eq j id
removes id _ = false

-- No call deletes the key or gives a stored key another pubkey.
abbrev pub AllKeep : String → List KeyCall → KeyTable → Type 0
AllKeep id [] tbl = Unit
AllKeep id (c ∷ cs) tbl = (removes id c ≡ false) × KeepsPubkey c tbl × AllKeep id cs (step c tbl)

module _ (p id : String) (flag : Bool) where
  -- A table that holds the struct at the same place.
  kept-IsFlagged :
      (tbl tbl' : KeyTable) (f : IsFlagged p id flag tbl)
      → lookup p tbl'.keys_by_pubkey ≡ some f.place
      → (tbl'.cell f.place).id ≡ (tbl.cell f.place).id
      → (tbl'.cell f.place).single_grant ≡ (tbl.cell f.place).single_grant
      → IsFlagged p id flag tbl'
  kept-IsFlagged tbl tbl' f at same_id same = record {
    place = f.place;
    found = at;
    has_id = same_id ∙ f.has_id;
    has_flag = same ∙ f.has_flag;
  }

  create_key-IsFlagged :
      (r : ℕ) (tbl : KeyTable) → IsFlagged p id flag tbl → IsFlagged p id flag (create_key r tbl).0
  create_key-IsFlagged r tbl f = elim (create_key-cases r tbl) [
    | inl same ↦ rw same f
    | inr (new, free, is) ↦ rw is (
        kept-IsFlagged tbl _ f
          (ground (
            arith,
            f.found,
            free,
            eq_iff (tbl.cell r).pubkey p,
            lookup-insert (tbl.cell r).pubkey p r tbl.keys_by_pubkey,
          ))
          refl refl)
  ]

  -- The struct that replaces the stored one takes its id and its flag.
  replaced-IsFlagged :
      (r at : ℕ) (tbl : KeyTable)
      → IsIndexed tbl
      → lookup (tbl.cell r).id tbl.keys ≡ some at
      → (tbl.cell at).pubkey ≡ p
      → (tbl.cell r).pubkey ≡ p
      → (f : IsFlagged p id flag tbl) → (names : Dict ℕ)
      → IsFlagged p id flag (record {
        cell = update tbl.cell r (kept_single r tbl at);
        keys = insert (tbl.cell r).id r tbl.keys;
        keys_by_pubkey = insert (tbl.cell r).pubkey r tbl.keys_by_pubkey;
        keys_by_name = names;
      })
  replaced-IsFlagged r at tbl w found at_pubkey new_pubkey f names =
      let there = w.complete (tbl.cell r).id at found in
      let e : at ≡ f.place = ground (arith, there, f.found, at_pubkey) in
      let written : update tbl.cell r (kept_single r tbl at) r ≡ kept_single r tbl at =
        (let hit : (r == r) ≡ true = (==_iff r r).1 refl in rw hit refl) in
      record {
        place = r;
        found = ground (
          arith,
          new_pubkey,
          lookup-insert (tbl.cell r).pubkey p r tbl.keys_by_pubkey,
          eq_iff (tbl.cell r).pubkey p,
        );
        has_id =
            ap (λ k. k.id) written
            ∙ sym (w.keyed (tbl.cell r).id at found)
            ∙ ap (λ i. (tbl.cell i).id) e
            ∙ f.has_id;
        has_flag =
            ap (λ k. k.single_grant) written ∙ ap (λ i. (tbl.cell i).single_grant) e ∙ f.has_flag;
      }

  update_key-IsFlagged :
      (r : ℕ) (tbl : KeyTable)
      → KeepsPubkey (change r) tbl
      → IsIndexed tbl
      → IsFlagged p id flag tbl
      → IsFlagged p id flag (update_key r tbl).0
  update_key-IsFlagged r tbl kept w f = elim (update_key-cases r tbl) [
    | inl same ↦ rw same f
    | inr (at, found, is) ↦ elim (Bool-cases (str_eq (tbl.cell r).pubkey p)) [
      | inl ours ↦
          let e = (eq_iff (tbl.cell r).pubkey p).0 ours in
          rw is (replaced-IsFlagged r at tbl w found (kept at found ∙ e) e f _)
      | inr other ↦
          let (is_p, _) = w.sound p f.place f.found in
          let away : (r == f.place) ≡ false = elim (Bool-cases (r == f.place)) [
            | inr e ↦ e
            | inl e ↦
                let e' = ap (λ i. (tbl.cell i).pubkey) ((==_iff r f.place).0 e) ∙ is_p in
                absurd (let o = other in ground (arith, e', eq_iff (tbl.cell r).pubkey p))
          ] in
          rw is (
            kept-IsFlagged tbl _ f
              (ground
                (arith, f.found, other, lookup-insert (tbl.cell r).pubkey p r tbl.keys_by_pubkey))
              (rw away refl) (rw away refl))
    ]
  ]

  update_key_encryption-IsFlagged :
      (j nsec method : String) (tbl : KeyTable)
      → IsFlagged p id flag tbl
      → IsFlagged p id flag (update_key_encryption j nsec method tbl).0
  unfolding update_key_encryption
  update_key_encryption-IsFlagged j nsec method tbl f = elim (Option-cases (lookup j tbl.keys)) [
    | inl absent ↦ rw (absent, update_key_encryption) f
    | inr (r, at) ↦
        let k = record (tbl.cell r) { encrypted_nsec = nsec; encryption_method = method } in
        rw (at, update_key_encryption)
          (kept-IsFlagged tbl _ f f.found (written-same (λ x. x.id) tbl.cell r f.place k refl)
            (written-same (λ x. x.single_grant) tbl.cell r f.place k refl))
  ]

  delete_key-IsFlagged :
      (j : String) (tbl : KeyTable)
      → str_eq j id ≡ false
      → IsIndexed tbl
      → IsFlagged p id flag tbl
      → IsFlagged p id flag (delete_key j tbl [] []).0
  unfolding delete_key
  delete_key-IsFlagged j tbl other w f = elim (Option-cases (lookup j tbl.keys)) [
    | inl absent ↦ rw (absent, delete_key) f
    | inr (r, at) ↦
        rw (at, delete_key)
          (kept-IsFlagged tbl _ f
            (ground (
              arith,
              f.found,
              other,
              f.has_id,
              w.complete j r at,
              w.keyed j r at,
              eq_iff j id,
              eq_iff (tbl.cell r).pubkey p,
              lookup-delete (tbl.cell r).pubkey p tbl.keys_by_pubkey,
            ))
            refl refl)
  ]

  set_primary_key-IsFlagged :
      (owner_id j : String) (tbl : KeyTable)
      → IsFlagged p id flag tbl
      → IsFlagged p id flag (set_primary_key owner_id j tbl).0
  set_primary_key-IsFlagged owner_id j tbl f = elim (set_primary_key-places owner_id j tbl) [
    | inl same ↦ rw same f
    | inr is ↦
        let (same_id, _, same) = mark_primary-fields owner_id j (tbl.cell f.place) in
        rw is (
          kept-IsFlagged tbl _ f f.found
            (mark_each-same (λ k. k.id) owner_id j tbl.keys tbl.cell f.place same_id)
            (mark_each-same (λ k. k.single_grant) owner_id j tbl.keys tbl.cell f.place same))
  ]

  step-IsFlagged :
      (c : KeyCall) (tbl : KeyTable)
      → removes id c ≡ false
      → KeepsPubkey c tbl
      → IsIndexed tbl
      → IsFlagged p id flag tbl
      → IsFlagged p id flag (step c tbl)
  unfolding step
  step-IsFlagged (create r) tbl stays kept w f = create_key-IsFlagged r tbl f
  step-IsFlagged (change r) tbl stays kept w f = update_key-IsFlagged r tbl kept w f
  step-IsFlagged (encrypt j nsec method) tbl stays kept w f =
      update_key_encryption-IsFlagged j nsec method tbl f
  step-IsFlagged (remove j) tbl stays kept w f = delete_key-IsFlagged j tbl stays w f
  step-IsFlagged (promote owner_id j) tbl stays kept w f =
      set_primary_key-IsFlagged owner_id j tbl f

  -- Whatever calls are made on keys, but for the deletion of the key with the id and updates that give a
  -- stored key another pubkey, the pubkey leads to a struct with the same id and the same
  -- `SingleGrant`, where the maps of keys were in step.
  pub run-IsFlagged :
      (cs : List KeyCall) (tbl : KeyTable)
      → AllKeep id cs tbl
      → IsIndexed tbl
      → IsFlagged p id flag tbl
      → IsFlagged p id flag (run cs tbl)
  unfolding run
  run-IsFlagged [] tbl keep w f = f
  run-IsFlagged (c ∷ cs) tbl (stays, kept, keep) w f =
      run-IsFlagged cs (step c tbl) keep (step-IsIndexed c tbl kept w)
        (step-IsFlagged c tbl stays kept w f)
