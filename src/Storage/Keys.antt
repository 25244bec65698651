-- ===== src/Storage/Keys.antt =====
-- internal/storage/storage.go: keys in `MemoryStorage`. Three maps share the caller's structs, so a
-- method takes and returns the place of a struct in the heap.
pub mod Primary
pub mod Removed
pub mod Indexed
use cloistr_signer.Prelude.{
  ℕ, String, true, not, Option, none, some, List, [], ◌∷◌, if◌then◌else◌, str_eq,
}
use cloistr_signer.Prelude.Dict.{Dict, lookup, delete, insert, values}
use cloistr_signer.Storage.Types.{
  Error, key_not_found, key_exists, Result, ok, err, Key, KeyTable, Heap, update, Grants,
}
use cloistr_signer.Storage.Seals.{Seals, drop_session_seals}
use cloistr_signer.Storage.Users.{holds}

-- `if key.Name != "" { m.keysByName[key.Name] = key }`
unfoldable pub index_name : String → ℕ → Dict ℕ → Dict ℕ
index_name name r m = if str_eq name "" then m else insert name r m

unfoldable pub create_key : ℕ → KeyTable → KeyTable × Option Error
create_key r tbl =
    let key = tbl.cell r in
    if holds (lookup key.id tbl.keys)
    then (tbl, some key_exists)
    else if holds (lookup key.pubkey tbl.keys_by_pubkey)
    then (tbl, some key_exists)
    else (
      record tbl {
        keys = insert key.id r tbl.keys;
        keys_by_pubkey = insert key.pubkey r tbl.keys_by_pubkey;
        keys_by_name = index_name key.name r tbl.keys_by_name;
      },
      none,
    )

abbrev pub found_key : Option ℕ → Result ℕ
found_key none = err key_not_found
found_key (some r) = ok r

unfoldable pub get_key : String → KeyTable → Result ℕ
get_key id tbl = found_key (lookup id tbl.keys)

unfoldable pub get_key_by_pubkey : String → KeyTable → Result ℕ
get_key_by_pubkey pubkey tbl = found_key (lookup pubkey tbl.keys_by_pubkey)

unfoldable pub get_key_by_name : String → KeyTable → Result ℕ
get_key_by_name name tbl = found_key (lookup name tbl.keys_by_name)

unfoldable pub list_keys : String → KeyTable → List ℕ
list_keys owner_id tbl = values (λ _ r. str_eq (tbl.cell r).owner_id owner_id) tbl.keys

unfoldable pub list_all_keys : KeyTable → List ℕ
list_all_keys tbl = values (λ _ _. true) tbl.keys

-- `if name != "" { delete(m.keysByName, name) }`
unfoldable pub drop_name : String → Dict ℕ → Dict ℕ
drop_name name m = if str_eq name "" then m else delete name m

-- The by-name map after an update from `old` to `new`, the struct at `r`.
unfoldable pub rename : String → String → ℕ → Dict ℕ → Dict ℕ
rename old new r m = if str_eq old new then m else index_name new r (drop_name old m)

unfoldable pub update_key : ℕ → KeyTable → KeyTable × Option Error
update_key r tbl =
    let key = tbl.cell r in
    elim (lookup key.id tbl.keys) [
      | none ↦ (tbl, some key_not_found)
      | some at ↦
          let existing = tbl.cell at in
          (
            record {
              cell = update tbl.cell r (record key { single_grant = existing.single_grant });
              keys = insert key.id r tbl.keys;
              keys_by_pubkey = insert key.pubkey r tbl.keys_by_pubkey;
              keys_by_name = rename existing.name key.name r tbl.keys_by_name;
            },
            none,
          )
    ]

unfoldable pub update_key_encryption : String → String → String → KeyTable → KeyTable × Option Error
update_key_encryption key_id encrypted_nsec encryption_method tbl = elim (lookup key_id tbl.keys) [
  | none ↦ (tbl, some key_not_found)
  | some r ↦ (
    record tbl {
      cell = update tbl.cell r (record (tbl.cell r) {
        encrypted_nsec = encrypted_nsec;
        encryption_method = encryption_method;
      });
    },
    none,
  )
]

unfoldable pub delete_key :
    String → KeyTable → Grants → Seals → KeyTable × Grants × Seals × Option Error
delete_key id tbl grants seals = elim (lookup id tbl.keys) [
  | none ↦ (tbl, grants, seals, some key_not_found)
  | some r ↦
      let key = tbl.cell r in
      (
        record tbl {
          keys = delete id tbl.keys;
          keys_by_pubkey = delete key.pubkey tbl.keys_by_pubkey;
          keys_by_name = drop_name key.name tbl.keys_by_name;
        },
        delete id grants,
        (drop_session_seals (λ seal. str_eq seal.key_id id) seals).0,
        none,
      )
]

-- The body of the loop of `SetPrimaryKey`, on the struct.
unfoldable pub mark_primary : String → String → Key → Key
mark_primary owner_id key_id k =
    if str_eq k.owner_id owner_id then record k { is_primary = str_eq k.id key_id } else k

-- The loop, over what `m.keys` holds.
unfoldable pub mark_each : String → String → Dict ℕ → Heap Key → Heap Key
mark_each owner_id key_id [] cell = cell
mark_each owner_id key_id ((id, r) ∷ entries) cell =
    mark_each owner_id key_id entries (update cell r (mark_primary owner_id key_id (cell r)))

unfoldable pub set_primary_key : String → String → KeyTable → KeyTable × Option Error
set_primary_key owner_id key_id tbl = elim (lookup key_id tbl.keys) [
  | none ↦ (tbl, some key_not_found)
  | some r ↦
      if not (str_eq (tbl.cell r).owner_id owner_id)
      then (tbl, some key_not_found)
      else (record tbl { cell = mark_each owner_id key_id tbl.keys tbl.cell }, none)
]
