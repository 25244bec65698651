-- ===== src/Storage/Grants.antt =====
-- internal/storage/storage.go: permissions (a client's grants on a key) in `MemoryStorage`.
-- `m.permissions` is a dictionary of dictionaries, by key pubkey and client pubkey. Each reading of
-- the clock is an argument. A method that writes to its `perm` argument returns it too.
pub mod View
pub mod Access
pub mod Trace
pub mod Exclusive
pub mod Lapse
pub mod Slots
pub mod Stored
use cloistr_signer.Prelude.{
  ◌+◌, ◌-◌, ◌*◌, String, Bool, true, false, not, ◌&&◌, ◌||◌, Option, none, some, List, [],
  if◌then◌else◌, ltb, ◌==◌, str_eq,
}
use cloistr_signer.Prelude.Dict.{Dict, lookup, delete, insert, map_values, any_entry, values}
use cloistr_signer.Storage.Types.{
  Time, Error, key_not_found, not_authorized, permission_expired, invalid_slot, slot_occupied,
  Result, ok, err, Key, Permission, KeyTable, Grants,
}

abbrev pub slot_default : String
slot_default = "default"

abbrev pub slot_publisher : String
slot_publisher = "publisher"

-- 30 days and 24 hours, in nanoseconds.
abbrev pub sliding_grant_ttl : Time
sliding_grant_ttl = 30 * 24 * 3600 * 1000000000

abbrev pub sliding_grant_refresh_every : Time
sliding_grant_refresh_every = 24 * 3600 * 1000000000

abbrev is_none {ℓ} : {A : Type ℓ} → Option A → Bool
is_none none = true
is_none (some _) = false

unfoldable pub validate_slot : String → Option Error
validate_slot slot =
    if not (str_eq slot slot_default) && not (str_eq slot slot_publisher)
    then some invalid_slot
    else none

unfoldable pub default_sliding_expiry : Permission → Time → Permission
default_sliding_expiry perm now =
    if is_none perm.expires_at
    then record perm { expires_at = some (now + sliding_grant_ttl); sliding_expiry = true }
    else perm

unfoldable pub slide_due : Bool → Option Time → Time → Bool
slide_due sliding none now = false
slide_due sliding (some expires) now =
    sliding
    && ltb now expires
    && ltb expires (now + (sliding_grant_ttl - sliding_grant_refresh_every))

-- `m.permissions[keyID]`: a missing map reads as an empty one.
unfoldable pub grants_of : String → Grants → Dict Permission
grants_of key_id g = elim (lookup key_id g) [ none ↦ [] | some held ↦ held ]

-- A live entry of another client in the slot: the first loop of `setPermission`.
unfoldable pub occupies : Permission → Time → String → Permission → Bool
occupies perm now pubkey existing =
    let lapsed : Bool = elim existing.expires_at [ none ↦ false | some t ↦ not (ltb now t) ] in
    not (str_eq pubkey perm.user_pubkey)
    && is_none existing.revoked_at
    && str_eq existing.slot perm.slot
    && not lapsed

-- The body of the second loop.
unfoldable pub displace : Permission → Time → String → Permission → Permission
displace perm now pubkey existing =
    if not (str_eq pubkey perm.user_pubkey)
      && is_none existing.revoked_at
      && str_eq existing.slot perm.slot
    then record existing { revoked_at = some now; revoked_by = perm.user_pubkey }
    else existing

-- `setPermission` from the test of `key.SingleGrant` on.
unfoldable pub store_grant :
    Key → Time → Permission → Bool → Grants → Grants × Permission × Option Error
store_grant key now perm displace_live g =
    let held = grants_of perm.key_id g in
    let slid = default_sliding_expiry perm now in
    if not key.single_grant
    then (insert perm.key_id (insert perm.user_pubkey slid held) g, slid, none)
    else if not displace_live && any_entry (occupies perm now) held
    then (insert perm.key_id held g, perm, some slot_occupied)
    else (
      insert perm.key_id (insert perm.user_pubkey perm (map_values (displace perm now) held)) g,
      perm,
      none,
    )

unfoldable pub default_slot : Permission → Permission
default_slot perm = if str_eq perm.slot "" then record perm { slot = slot_default } else perm

unfoldable pub stamp_created : Time → Permission → Permission
stamp_created t perm = if perm.created_at == 0 then record perm { created_at = t } else perm

-- `t` is the clock at `perm.CreatedAt = time.Now()`, `now` at `now := time.Now()`.
unfoldable pub set_permission :
    KeyTable → Time → Time → Permission → Bool → Grants → Grants × Permission × Option Error
set_permission tbl t now perm displace_live g = elim (lookup perm.key_id tbl.keys_by_pubkey) [
  | none ↦ (g, perm, some key_not_found)
  | some r ↦
      let slotted = default_slot perm in
      elim (validate_slot slotted.slot) [
        | some e ↦ (g, slotted, some e)
        | none ↦ store_grant (tbl.cell r) now (stamp_created t slotted) displace_live g
      ]
]

-- `time.Now().After(*perm.ExpiresAt)`, false for no expiry.
abbrev pub expired : Option Time → Time → Bool
expired none now = false
expired (some t) now = ltb t now

-- `GetPermission` after the two map lookups.
unfoldable pub check_grant : Time → Option Permission → Result Permission
check_grant now none = err not_authorized
check_grant now (some perm) =
    if not (is_none perm.revoked_at) || expired perm.expires_at now
    then err permission_expired
    else ok perm

unfoldable pub get_permission : Time → String → String → Grants → Result Permission
get_permission now key_id user_pubkey g = check_grant now (lookup user_pubkey (grants_of key_id g))

unfoldable pub list_permissions : String → Grants → List Permission
list_permissions key_id g = values (λ _ perm. is_none perm.revoked_at) (grants_of key_id g)

unfoldable pub delete_permission : String → String → Grants → Grants
delete_permission key_id user_pubkey g = elim (lookup key_id g) [
  | none ↦ g
  | some perms ↦ insert key_id (delete user_pubkey perms) g
]

-- A write through the pointer that `m.permissions[keyID][userPubkey]` holds.
unfoldable pub write_grant : String → String → Permission → Grants → Grants
write_grant key_id user_pubkey perm g =
    insert key_id (insert user_pubkey perm (grants_of key_id g)) g

unfoldable pub touch : Time → Permission → Permission
touch now perm =
    let used = record perm { last_used_at = some now } in
    if is_none perm.revoked_at && slide_due perm.sliding_expiry perm.expires_at now
    then record used { expires_at = some (now + sliding_grant_ttl) }
    else used

unfoldable pub update_permission_last_used : Time → String → String → Grants → Grants
update_permission_last_used now key_id user_pubkey g =
    elim (lookup user_pubkey (grants_of key_id g)) [
      | none ↦ g
      | some perm ↦ write_grant key_id user_pubkey (touch now perm) g
    ]

-- The guard of `RenewPermission` on an entry that is there.
unfoldable pub renewable : Time → Permission → Bool
renewable now perm =
    is_none perm.revoked_at && elim perm.expires_at [ none ↦ false | some t ↦ ltb now t ]

unfoldable pub renew_permission : Time → String → String → Time → Grants → Grants × Option Error
renew_permission now key_id user_pubkey expires_at g =
    elim (lookup user_pubkey (grants_of key_id g)) [
      | none ↦ (g, some permission_expired)
      | some perm ↦
          if renewable now perm
          then (
            write_grant key_id user_pubkey (record perm { expires_at = some expires_at }) g,
            none,
          )
          else (g, some permission_expired)
    ]

unfoldable pub update_permission_name : String → String → String → Grants → Grants × Option Error
update_permission_name key_id user_pubkey custom_name g =
    elim (lookup user_pubkey (grants_of key_id g)) [
      | none ↦ (g, some key_not_found)
      | some perm ↦
          (write_grant key_id user_pubkey (record perm { custom_name = custom_name }) g, none)
    ]
