-- ===== src/Storage/Grants/Slots.antt =====
-- When a slot is taken, and what storing a grant does to it and to the others.
use cloistr_signer.Prelude.{
  ◌<◌, String, Bool, true, false, none, some, ◌≡◌, refl, ◌∙◌, arith, eq_iff, Bool-cases,
  Option-cases, inl, inr, ◌≢◌, ◌↔◌, not, ◌&&◌,
}
use cloistr_signer.Prelude.Dict.{lookup, any_entry}
use cloistr_signer.Prelude.Distinct.{IsDistinct, any_entry-eq-false, any_entry-eq-true}
use cloistr_signer.Storage.Types.{Time, Error, Permission, Key, KeyTable, Grants, slot_occupied}
use cloistr_signer.Storage.Grants.{
  grants_of, set_permission, store_grant, occupies, default_slot, stamp_created, validate_slot,
}
use cloistr_signer.Storage.Grants.View.{grant, set_permission-cases, grant-store_grant_occupied}
use cloistr_signer.Storage.Grants.Trace.{is_single}

-- `q`, held by `v`, is an unrevoked grant of another client than `user` in `slot` that has not
-- lapsed at `now`.
pub record IsRival (user slot : String) (now : Time) (v : String) (q : Permission) : Type 0 where
  pub another : v ≢ user
  pub unrevoked : q.revoked_at ≡ none
  pub same_slot : q.slot ≡ slot
  pub unlapsed : (t : Time) → q.expires_at ≡ some t → now < t

occupies-IsRival :
    (x : Permission) (now : Time) (v : String) (q : Permission)
    → occupies x now v q ≡ true
    → IsRival x.user_pubkey x.slot now v q
unfolding occupies
occupies-IsRival x now v q h = record {
  another = ground (arith, eq_iff v x.user_pubkey);
  unrevoked = ground arith;
  same_slot = ground (arith, eq_iff q.slot x.slot);
  unlapsed = λ t e. ground (arith, e);
}

IsRival-occupies :
    (x : Permission) (now : Time) (v : String) (q : Permission)
    → IsRival x.user_pubkey x.slot now v q
    → occupies x now v q ≡ true
unfolding occupies
IsRival-occupies x now v q r = elim (Option-cases q.expires_at) [
  | inl e ↦ ground (arith, e, eq_iff v x.user_pubkey, eq_iff q.slot x.slot, r)
  | inr (t, e) ↦ ground (arith, e, eq_iff v x.user_pubkey, eq_iff q.slot x.slot, r, r.unlapsed t e)
]

-- `setPermission` past its checks reports `ErrSlotOccupied` exactly when the key is a single-grant
-- key, live grants are not to be displaced and a rival holds the slot.
store_grant-occupied_iff :
    (key : Key) (now : Time) (x : Permission) (g : Grants)
    → IsDistinct (grants_of x.key_id g)
    → ((store_grant key now x false g).2 ≡ some slot_occupied) ↔ (
        (key.single_grant ≡ true)
        × ((v : String) × (q : Permission) × (grant g x.key_id v ≡ some q)
            × IsRival x.user_pubkey x.slot now v q))
unfolding store_grant
store_grant-occupied_iff key now x g d = elim (Bool-cases key.single_grant) [
  | inr many ↦ (λ h. absurd (ground (arith, many)), λ h. absurd (ground (arith, many)))
  | inl one ↦ elim (Bool-cases (any_entry (occupies x now) (grants_of x.key_id g))) [
    | inl full ↦
        let (v, q, found, meets) =
          any_entry-eq-true (occupies x now) (grants_of x.key_id g) d full in
        (λ h. (one, (v, q, found, occupies-IsRival x now v q meets)), λ h. rw (one, full))
    | inr free ↦ (
      λ h. absurd (let e = h in ground (arith, one, free)),
      λ (s, (v, q, found, rival)). absurd (
          let hit = IsRival-occupies x now v q rival in
          let miss = any_entry-eq-false (occupies x now) (grants_of x.key_id g) v q free found in
          cc),
    )
  ]
]

store_grant-occupied_at :
    (key : Key) (now : Time) (x : Permission) (g : Grants) (k u s : String)
    → x.key_id ≡ k
    → x.user_pubkey ≡ u
    → x.slot ≡ s
    → IsDistinct (grants_of k g)
    → ((store_grant key now x false g).2 ≡ some slot_occupied) ↔ (
        (key.single_grant ≡ true)
        × ((v : String) × (q : Permission) × (grant g k v ≡ some q) × IsRival u s now v q))
store_grant-occupied_at key now x g k u s ek eu es d =
    rw (← ek, ← eu, ← es) (store_grant-occupied_iff key now x g (rw ek d))

pub stamp_created_kept :
    (t : Time) (p : Permission)
    → ((stamp_created t p).slot ≡ p.slot)
      × ((stamp_created t p).key_id ≡ p.key_id)
      × ((stamp_created t p).user_pubkey ≡ p.user_pubkey)
unfolding stamp_created
stamp_created_kept t p = ground arith

pub default_slot_kept :
    (p : Permission)
    → ((default_slot p).key_id ≡ p.key_id) × ((default_slot p).user_pubkey ≡ p.user_pubkey)
unfolding default_slot
default_slot_kept p = ground arith

invalid_other :
    (p : Permission) (e : Error)
    → validate_slot (default_slot p).slot ≡ some e
    → some e ≢ some slot_occupied
unfolding validate_slot
invalid_other p e bad h = ground arith

-- The slot that a permission is stored in.
abbrev pub slot_of : Permission → String
slot_of perm = (default_slot perm).slot

-- `SetPermissionIfSlotFree` reports `ErrSlotOccupied` exactly for a valid slot of a stored
-- single-grant key in which another client holds an unrevoked grant that has not lapsed, where the
-- key's map has one entry for each client.
pub set_permission-slot_occupied_iff :
    (tbl : KeyTable) (t now : Time) (perm : Permission) (g : Grants)
    → IsDistinct (grants_of perm.key_id g)
    → ((set_permission tbl t now perm false g).2 ≡ some slot_occupied) ↔ (
        (is_single tbl perm.key_id ≡ true)
        × (validate_slot (slot_of perm) ≡ none)
        × ((v : String) × (q : Permission) × (grant g perm.key_id v ≡ some q)
            × IsRival perm.user_pubkey (slot_of perm) now v q))
unfolding set_permission
set_permission-slot_occupied_iff tbl t now perm g d =
    elim (Option-cases (lookup perm.key_id tbl.keys_by_pubkey)) [
      | inl absent ↦ rw (absent, set_permission) (λ h. absurd (cc), λ h. absurd (cc (h.0)))
      | inr (r, found) ↦ elim (Option-cases (validate_slot (slot_of perm))) [
        | inr (e, bad) ↦
            rw (found, bad, set_permission)
              (λ h. absurd (invalid_other perm e bad h), λ h. absurd (cc (h.1)))
        | inl valid ↦
            let kept = stamp_created_kept t (default_slot perm) in
            let same = default_slot_kept perm in
            let iff =
              store_grant-occupied_at (tbl.cell r) now (stamp_created t (default_slot perm)) g
                perm.key_id perm.user_pubkey (slot_of perm) (kept.1 ∙ same.0) (kept.2 ∙ same.1)
                kept.0 d in
            rw (found, valid, set_permission)
              (λ h. ((iff.0 h).0, refl, (iff.0 h).1), λ h. iff.1 (h.0, h.2))
      ]
    ]

store_grant_error :
    (key : Key) (now : Time) (x : Permission) (live : Bool) (g : Grants) (e : Error)
    → (store_grant key now x live g).2 ≡ some e
    → (j v : String) → grant (store_grant key now x live g).0 j v ≡ grant g j v
store_grant_error key now x live g e failed j v = elim (Bool-cases key.single_grant) [
  | inr many ↦ absurd (unfold store_grant in ground (arith, many))
  | inl one ↦ elim (Bool-cases (not live && any_entry (occupies x now) (grants_of x.key_id g))) [
    | inl full ↦ grant-store_grant_occupied key now x live g j v one full
    | inr free ↦ absurd (unfold store_grant in ground (arith, one, free))
  ]
]

-- A call of `setPermission` that reports an error changes no client's grant on any key.
pub set_permission_error :
    (tbl : KeyTable) (t now : Time) (perm : Permission) (live : Bool) (g : Grants) (e : Error)
    → (set_permission tbl t now perm live g).2 ≡ some e
    → (j v : String) → grant (set_permission tbl t now perm live g).0 j v ≡ grant g j v
set_permission_error tbl t now perm live g e failed j v =
    elim (set_permission-cases tbl t now perm live g) [
      | inl refused ↦ rw refused
      | inr (r, found, stored) ↦
          rw stored
            (store_grant_error (tbl.cell r) now _ live g e (let f = failed in rw stored at f) j v)
    ]
