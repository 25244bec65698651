-- ===== src/Storage/Grants/View.antt =====
-- The grant that a client holds on a key, and what each permission method of `MemoryStorage` does
-- to it.
use cloistr_signer.Prelude.{
  ℕ, ◌⊎◌, String, Bool, true, false, Option, none, some, ◌≡◌, refl, arith, if◌then◌else◌, str_eq,
  eq_iff, Option-cases, Bool-cases, inl, inr, not, ◌&&◌,
}
use cloistr_signer.Prelude.Dict.{
  Dict, lookup, insert, delete, map_values, any_entry, map_option, lookup-insert, lookup-delete,
  lookup-map_values,
}
use cloistr_signer.Storage.Types.{Time, Key, Permission, KeyTable, Grants}
use cloistr_signer.Storage.Grants.{
  grants_of, write_grant, store_grant, displace, occupies, default_sliding_expiry,
  delete_permission, set_permission, stamp_created, default_slot, validate_slot,
  update_permission_last_used, touch, renew_permission, renewable, update_permission_name,
}

abbrev pub grant : Grants → String → String → Option Permission
grant g key_id user_pubkey = lookup user_pubkey (grants_of key_id g)

pub grants_of-insert :
    (j k : String) (held : Dict Permission) (g : Grants)
    → grants_of k (insert j held g) ≡ (if str_eq j k then held else grants_of k g)
unfolding grants_of
grants_of-insert j k held g = ground (arith, lookup-insert j k held g)

-- The grant after one entry of one key's map is written.
pub grant-write_grant :
    (k u : String) (p : Permission) (g : Grants) (j v : String)
    → grant (write_grant k u p g) j v
      ≡ (if str_eq k j then (if str_eq u v then some p else grant g j v) else grant g j v)
unfolding write_grant
grant-write_grant k u p g j v = ground (
  arith,
  grants_of-insert k j (insert u p (grants_of k g)) g,
  lookup-insert u v p (grants_of k g),
  eq_iff k j,
)

pub grant-delete_permission :
    (k u : String) (g : Grants) (j v : String)
    → grant (delete_permission k u g) j v
      ≡ (if str_eq k j then (if str_eq u v then none else grant g j v) else grant g j v)
unfolding delete_permission grants_of lookup
grant-delete_permission k u g j v = elim (Option-cases (lookup k g)) [
  | inl absent ↦ ground (arith, absent, eq_iff k j)
  | inr (held, found) ↦
      ground (arith, found, eq_iff k j, lookup-insert k j (delete u held) g, lookup-delete u v held)
]

-- What a write of the map of one key gives at every place.
grant-insert_of :
    (k : String) (held : Dict Permission) (g : Grants) (j v : String) {o : Option Permission}
    → lookup v held ≡ o
    → grant (insert k held g) j v ≡ (if str_eq k j then o else grant g j v)
grant-insert_of k held g j v e = ground (arith, grants_of-insert k j held g)

-- On a user key the stored grant is the only one that changes.
pub grant-store_grant_user :
    (key : Key) (now : Time) (p : Permission) (live : Bool) (g : Grants) (j v : String)
    → key.single_grant ≡ false
    → grant (store_grant key now p live g).0 j v ≡ (
        if str_eq p.key_id j
        then (if str_eq p.user_pubkey v
            then some (default_sliding_expiry p now)
            else grant g p.key_id v)
        else grant g j v)
unfolding store_grant
grant-store_grant_user key now p live g j v e = rw e (
    grant-insert_of p.key_id _ g j v
      (lookup-insert p.user_pubkey v (default_sliding_expiry p now) (grants_of p.key_id g)))

-- A refusal of a single-grant key changes no grant.
pub grant-store_grant_occupied :
    (key : Key) (now : Time) (p : Permission) (live : Bool) (g : Grants) (j v : String)
    → key.single_grant ≡ true
    → (not live && any_entry (occupies p now) (grants_of p.key_id g)) ≡ true
    → grant (store_grant key now p live g).0 j v ≡ grant g j v
unfolding store_grant
grant-store_grant_occupied key now p live g j v e full =
    rw (e, full)
      (ground
        (arith, grant-insert_of p.key_id (grants_of p.key_id g) g j v refl, eq_iff p.key_id j))

-- Stored on a single-grant key, a grant stands beside the displaced ones.
pub grant-store_grant_single :
    (key : Key) (now : Time) (p : Permission) (live : Bool) (g : Grants) (j v : String)
    → key.single_grant ≡ true
    → (not live && any_entry (occupies p now) (grants_of p.key_id g)) ≡ false
    → grant (store_grant key now p live g).0 j v ≡ (
        if str_eq p.key_id j
        then (if str_eq p.user_pubkey v
            then some p
            else map_option (displace p now v) (grant g p.key_id v))
        else grant g j v)
unfolding store_grant
grant-store_grant_single key now p live g j v e free =
    let held = grants_of p.key_id g in
    rw (e, free)
      (grant-insert_of p.key_id _ g j v (
        ground (
          arith,
          lookup-insert p.user_pubkey v p (map_values (displace p now) held),
          lookup-map_values (displace p now) v held,
        )))

pub stored_key_id :
    (t : Time) (perm : Permission) → (stamp_created t (default_slot perm)).key_id ≡ perm.key_id
unfolding stamp_created default_slot
stored_key_id t perm = ground arith

pub stored_user_pubkey :
    (t : Time) (perm : Permission)
    → (stamp_created t (default_slot perm)).user_pubkey ≡ perm.user_pubkey
unfolding stamp_created default_slot
stored_user_pubkey t perm = ground arith

-- `setPermission` refuses and leaves the table, or goes on with the defaults filled in.
pub set_permission-cases :
    (tbl : KeyTable) (t now : Time) (perm : Permission) (live : Bool) (g : Grants)
    → ((set_permission tbl t now perm live g).0 ≡ g)
      ⊎ ((r : ℕ) × (lookup perm.key_id tbl.keys_by_pubkey ≡ some r)
          × (set_permission tbl t now perm live g
              ≡ store_grant (tbl.cell r) now (stamp_created t (default_slot perm)) live g))
unfolding set_permission
set_permission-cases tbl t now perm live g =
    elim (Option-cases (lookup perm.key_id tbl.keys_by_pubkey)) [
      | inl absent ↦ inl (rw (absent, set_permission))
      | inr (r, found) ↦ elim (Option-cases (validate_slot (default_slot perm).slot)) [
        | inl valid ↦ inr (r, found, rw (found, valid, set_permission))
        | inr (e, bad) ↦ inl (rw (found, bad, set_permission))
      ]
    ]

-- The calls that write through a pointer: they leave the table, or write one entry back.
pub update_permission_last_used-cases :
    (now : Time) (k u : String) (g : Grants)
    → (update_permission_last_used now k u g ≡ g)
      ⊎ ((p : Permission) × (grant g k u ≡ some p)
          × (update_permission_last_used now k u g ≡ write_grant k u (touch now p) g))
unfolding update_permission_last_used
update_permission_last_used-cases now k u g = elim (Option-cases (grant g k u)) [
  | inl absent ↦ inl (rw (absent, update_permission_last_used))
  | inr (p, found) ↦ inr (p, found, rw (found, update_permission_last_used))
]

pub renew_permission-cases :
    (now : Time) (k u : String) (t : Time) (g : Grants)
    → ((renew_permission now k u t g).0 ≡ g)
      ⊎ ((p : Permission) × (grant g k u ≡ some p)
          × (renewable now p ≡ true)
          × ((renew_permission now k u t g).0
              ≡ write_grant k u (record p { expires_at = some t }) g))
unfolding renew_permission
renew_permission-cases now k u t g = elim (Option-cases (grant g k u)) [
  | inl absent ↦ inl (rw (absent, renew_permission))
  | inr (p, found) ↦ elim (Bool-cases (renewable now p)) [
    | inl live ↦ inr (p, found, live, rw (found, live, renew_permission))
    | inr stale ↦ inl (rw (found, stale, renew_permission))
  ]
]

pub update_permission_name-cases :
    (k u name : String) (g : Grants)
    → ((update_permission_name k u name g).0 ≡ g)
      ⊎ ((p : Permission) × (grant g k u ≡ some p)
          × ((update_permission_name k u name g).0
              ≡ write_grant k u (record p { custom_name = name }) g))
unfolding update_permission_name
update_permission_name-cases k u name g = elim (Option-cases (grant g k u)) [
  | inl absent ↦ inl (rw (absent, update_permission_name))
  | inr (p, found) ↦ inr (p, found, rw (found, update_permission_name))
]
