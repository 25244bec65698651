-- ===== src/Storage/Keys/Removed.antt =====
-- What is left of a key after `DeleteKey`, and what `UpdateKey` does to the lookups.
use cloistr_signer.Prelude.{
  ℕ, String, some, ◌≡◌, refl, arith, eq_iff, eq_refl, Option-cases, inl, inr, ◌≢◌, str_eq,
  if◌then◌else◌,
}
use cloistr_signer.Prelude.Dict.{lookup, delete, lookup-delete}
use cloistr_signer.Storage.Types.{Time, key_not_found, ok, err, KeyTable, Grants}
use cloistr_signer.Storage.Seals.{Seals}
use cloistr_signer.Storage.Grants.{grants_of, get_permission}
use cloistr_signer.Storage.Keys.{
  get_key, get_key_by_pubkey, get_key_by_name, drop_name, rename, update_key, delete_key,
}

module _ (id : String) (tbl : KeyTable) (grants : Grants) (seals : Seals) (r : ℕ)
    (found : lookup id tbl.keys ≡ some r) where
  delete_key-keys : (delete_key id tbl grants seals).0 ≡ record tbl {
    keys = delete id tbl.keys;
    keys_by_pubkey = delete (tbl.cell r).pubkey tbl.keys_by_pubkey;
    keys_by_name = drop_name (tbl.cell r).name tbl.keys_by_name;
  }
  unfolding delete_key
  delete_key-keys = rw (found, delete_key) refl

  delete_key-grants : (delete_key id tbl grants seals).1 ≡ delete id grants
  unfolding delete_key
  delete_key-grants = rw (found, delete_key) refl

-- A key that `DeleteKey` removes is found no more by its id nor by its pubkey, and a key with another
-- pubkey is found by it as before.
pub delete_key-get_key_by_pubkey :
    (id : String) (tbl : KeyTable) (grants : Grants) (seals : Seals) (r : ℕ) (p : String)
    → get_key id tbl ≡ ok r
    → (get_key id (delete_key id tbl grants seals).0 ≡ err key_not_found)
      × (get_key_by_pubkey p (delete_key id tbl grants seals).0
          ≡ (if str_eq (tbl.cell r).pubkey p then err key_not_found else get_key_by_pubkey p tbl))
unfolding get_key get_key_by_pubkey
delete_key-get_key_by_pubkey id tbl grants seals r p got =
    let found : lookup id tbl.keys ≡ some r = ground (arith, got) in
    rw (delete_key-keys id tbl grants seals r found) (
      ground (arith, lookup-delete id id tbl.keys, eq_refl id),
      ground (arith, lookup-delete (tbl.cell r).pubkey p tbl.keys_by_pubkey),
    )

-- `DeleteKey` leaves the grants of a key whose pubkey is not its id: each client's grant on the pubkey
-- is answered as before.
pub delete_key-get_permission :
    (id : String) (tbl : KeyTable) (grants : Grants) (seals : Seals) (now : Time)
    (p client : String)
    → id ≢ p
    → get_permission now p client (delete_key id tbl grants seals).1
      ≡ get_permission now p client grants
unfolding get_permission delete_key grants_of
delete_key-get_permission id tbl grants seals now p client differ =
    elim (Option-cases (lookup id tbl.keys)) [
      | inl absent ↦ rw (absent, delete_key) refl
      | inr (r, found) ↦
          let kept : lookup p (delete id grants) ≡ lookup p grants =
            ground (arith, lookup-delete id p grants, eq_iff id p) in
          rw (delete_key-grants id tbl grants seals r found) (rw (kept, grants_of) refl)
    ]

-- `UpdateKey` of the struct that is stored already, as a caller does who changed what `GetKey` returned,
-- leaves every lookup by name as it was.
pub update_key-get_key_by_name :
    (r : ℕ) (tbl : KeyTable) (name : String)
    → get_key (tbl.cell r).id tbl ≡ ok r
    → get_key_by_name name (update_key r tbl).0 ≡ get_key_by_name name tbl
unfolding get_key get_key_by_name update_key rename
update_key-get_key_by_name r tbl name got =
    let found : lookup (tbl.cell r).id tbl.keys ≡ some r = ground (arith, got) in
    rw (found, update_key) (rw eq_refl refl)
