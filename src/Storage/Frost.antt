-- ===== src/Storage/Frost.antt =====
-- internal/storage/storage.go: FROST keys, shares and the signer's shares of 2-of-N keys in
-- `MemoryStorage`. No method writes to a struct that it has stored before, so the maps are dictionaries
-- of values. Coefficients and shares are lists of bytes.
pub mod Deleted
use cloistr_signer.Prelude.{
  ℕ, String, Bool, true, Option, none, some, List, [], ◌∷◌, if◌then◌else◌, ◌==◌, str_eq,
}
use cloistr_signer.Prelude.Dict.{Dict, lookup, delete, insert, values}
use cloistr_signer.Storage.Types.{
  Time, Error, frost_key_not_found, frost_key_exists, frost_pubkey_exists, frost_share_not_found,
  frost_share_exists, frost_index_exists, frost_user_share_not_found, frost_user_share_exists,
  Result, ok, err,
}
use cloistr_signer.Storage.Users.{holds}

pub record FrostKey : Type 0 where
  pub id : String
  pub name : String
  pub pubkey : String
  pub threshold : ℕ
  pub total_shares : ℕ
  pub group_public_key : List ℕ
  pub verification_shares : List ℕ
  pub created_at : Time
  pub created_by : String
  pub owner_id : String

pub record FrostUserShare : Type 0 where
  pub id : String
  pub key_id : String
  pub owner_id : String
  pub share_index : ℕ
  pub encrypted_share : List ℕ
  pub verification_share : List ℕ
  pub threshold : ℕ
  pub total_shares : ℕ
  pub rotation_generation : ℕ
  pub created_at : Time
  pub updated_at : Time
  pub encrypted_user_share_at_dkg : List ℕ
  pub user_verification_share_hex : String

pub record FrostShare : Type 0 where
  pub id : String
  pub frost_key_id : String
  pub share_index : ℕ
  pub encrypted_share : List ℕ
  pub holder_pubkey : String
  pub holder_bunker_uri : String
  pub is_local : Bool
  pub public_share : List ℕ
  pub created_at : Time

-- `map[int]*FrostShare`
abbrev pub ByIndex : Type 0
ByIndex = List (ℕ × FrostShare)

unfoldable pub lookup_at : ℕ → ByIndex → Option FrostShare
lookup_at i [] = none
lookup_at i ((j, share) ∷ m) = if j == i then some share else lookup_at i m

unfoldable pub delete_at : ℕ → ByIndex → ByIndex
delete_at i [] = []
delete_at i ((j, share) ∷ m) =
    let rest = delete_at i m in if j == i then rest else (j, share) ∷ rest

unfoldable pub shares_in : (FrostShare → Bool) → ByIndex → List FrostShare
shares_in keep [] = []
shares_in keep ((j, share) ∷ m) =
    let rest = shares_in keep m in if keep share then share ∷ rest else rest

pub record FrostTable : Type 0 where
  pub frost_keys : Dict FrostKey
  pub frost_keys_by_pubkey : Dict FrostKey
  pub frost_shares : Dict FrostShare
  pub frost_shares_by_key : Dict ByIndex
  pub frost_user_shares : Dict FrostUserShare
  pub frost_user_share_by_key : Dict FrostUserShare

unfoldable pub create_frost_key : FrostKey → FrostTable → FrostTable × Option Error
create_frost_key key tbl =
    if holds (lookup key.id tbl.frost_keys)
    then (tbl, some frost_key_exists)
    else if holds (lookup key.pubkey tbl.frost_keys_by_pubkey)
    then (tbl, some frost_pubkey_exists)
    else (
      record tbl {
        frost_keys = insert key.id key tbl.frost_keys;
        frost_keys_by_pubkey = insert key.pubkey key tbl.frost_keys_by_pubkey;
      },
      none,
    )

abbrev pub found_frost_key : Option FrostKey → Result FrostKey
found_frost_key none = err frost_key_not_found
found_frost_key (some key) = ok key

unfoldable pub get_frost_key : String → FrostTable → Result FrostKey
get_frost_key id tbl = found_frost_key (lookup id tbl.frost_keys)

unfoldable pub get_frost_key_by_pubkey : String → FrostTable → Result FrostKey
get_frost_key_by_pubkey pubkey tbl = found_frost_key (lookup pubkey tbl.frost_keys_by_pubkey)

unfoldable pub list_frost_keys : FrostTable → List FrostKey
list_frost_keys tbl = values (λ _ _. true) tbl.frost_keys

unfoldable pub list_frost_keys_by_owner : String → FrostTable → List FrostKey
list_frost_keys_by_owner owner_id tbl =
    values (λ _ key. str_eq key.owner_id owner_id) tbl.frost_keys

unfoldable pub delete_frost_key : String → FrostTable → FrostTable × Option Error
delete_frost_key id tbl = elim (lookup id tbl.frost_keys) [
  | none ↦ (tbl, some frost_key_not_found)
  | some key ↦ (
    record tbl {
      frost_keys = delete id tbl.frost_keys;
      frost_keys_by_pubkey = delete key.pubkey tbl.frost_keys_by_pubkey;
      frost_shares_by_key = delete id tbl.frost_shares_by_key;
    },
    none,
  )
]

-- A missing map reads as an empty one.
unfoldable pub shares_of : String → Dict ByIndex → ByIndex
shares_of key_id m = elim (lookup key_id m) [ none ↦ [] | some held ↦ held ]

unfoldable pub create_frost_share : FrostShare → FrostTable → FrostTable × Option Error
create_frost_share share tbl =
    let held = shares_of share.frost_key_id tbl.frost_shares_by_key in
    if holds (lookup share.id tbl.frost_shares)
    then (tbl, some frost_share_exists)
    else if holds (lookup_at share.share_index held)
    then (tbl, some frost_index_exists)
    else (
      record tbl {
        frost_shares = insert share.id share tbl.frost_shares;
        frost_shares_by_key =
            insert share.frost_key_id
              ((share.share_index, share) ∷ delete_at share.share_index held)
              tbl.frost_shares_by_key;
      },
      none,
    )

abbrev pub found_frost_share : Option FrostShare → Result FrostShare
found_frost_share none = err frost_share_not_found
found_frost_share (some share) = ok share

unfoldable pub get_frost_share : String → FrostTable → Result FrostShare
get_frost_share id tbl = found_frost_share (lookup id tbl.frost_shares)

unfoldable pub get_frost_share_by_key_and_index : String → ℕ → FrostTable → Result FrostShare
get_frost_share_by_key_and_index key_id i tbl = elim (lookup key_id tbl.frost_shares_by_key) [
  | none ↦ err frost_share_not_found
  | some shares ↦ found_frost_share (lookup_at i shares)
]

unfoldable pub list_frost_shares : String → FrostTable → List FrostShare
list_frost_shares key_id tbl = shares_in (λ _. true) (shares_of key_id tbl.frost_shares_by_key)

unfoldable pub list_local_frost_shares : String → FrostTable → List FrostShare
list_local_frost_shares key_id tbl =
    shares_in (λ share. share.is_local) (shares_of key_id tbl.frost_shares_by_key)

unfoldable pub delete_frost_share : String → FrostTable → FrostTable × Option Error
delete_frost_share id tbl = elim (lookup id tbl.frost_shares) [
  | none ↦ (tbl, some frost_share_not_found)
  | some share ↦ (
    record tbl {
      frost_shares = delete id tbl.frost_shares;
      frost_shares_by_key = elim (lookup share.frost_key_id tbl.frost_shares_by_key) [
        | none ↦ tbl.frost_shares_by_key
        | some shares ↦
            insert share.frost_key_id (delete_at share.share_index shares) tbl.frost_shares_by_key
      ];
    },
    none,
  )
]

-- The two maps of user shares after a share is stored.
unfoldable pub put_user_share : FrostUserShare → FrostTable → FrostTable
put_user_share share tbl = record tbl {
  frost_user_shares = insert share.id share tbl.frost_user_shares;
  frost_user_share_by_key = insert share.key_id share tbl.frost_user_share_by_key;
}

unfoldable pub create_frost_user_share :
    Time → FrostUserShare → FrostTable → FrostTable × Option Error
create_frost_user_share now share tbl =
    let created : Time = if share.created_at == 0 then now else share.created_at in
    if holds (lookup share.id tbl.frost_user_shares)
    then (tbl, some frost_user_share_exists)
    else if holds (lookup share.key_id tbl.frost_user_share_by_key)
    then (tbl, some frost_user_share_exists)
    else (put_user_share (record share { created_at = created; updated_at = now }) tbl, none)

abbrev pub found_user_share : Option FrostUserShare → Result FrostUserShare
found_user_share none = err frost_user_share_not_found
found_user_share (some share) = ok share

unfoldable pub get_frost_user_share : String → FrostTable → Result FrostUserShare
get_frost_user_share id tbl = found_user_share (lookup id tbl.frost_user_shares)

unfoldable pub get_frost_user_share_by_key_id : String → FrostTable → Result FrostUserShare
get_frost_user_share_by_key_id key_id tbl =
    found_user_share (lookup key_id tbl.frost_user_share_by_key)

unfoldable pub list_frost_user_shares_by_owner : String → FrostTable → List FrostUserShare
list_frost_user_shares_by_owner owner_id tbl =
    values (λ _ share. str_eq share.owner_id owner_id) tbl.frost_user_shares

unfoldable pub update_frost_user_share :
    Time → FrostUserShare → FrostTable → FrostTable × Option Error
update_frost_user_share now share tbl = elim (lookup share.id tbl.frost_user_shares) [
  | none ↦ (tbl, some frost_user_share_not_found)
  | some existing ↦ (
    put_user_share (record share { created_at = existing.created_at; updated_at = now }) tbl,
    none,
  )
]

unfoldable pub delete_frost_user_share : String → FrostTable → FrostTable × Option Error
delete_frost_user_share id tbl = elim (lookup id tbl.frost_user_shares) [
  | none ↦ (tbl, some frost_user_share_not_found)
  | some share ↦ (
    record tbl {
      frost_user_shares = delete id tbl.frost_user_shares;
      frost_user_share_by_key = delete share.key_id tbl.frost_user_share_by_key;
    },
    none,
  )
]
