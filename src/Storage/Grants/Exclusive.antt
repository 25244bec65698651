-- ===== src/Storage/Grants/Exclusive.antt =====
-- A single-grant key holds at most one unrevoked grant in each slot.
use cloistr_signer.Prelude.{
  String, Bool, ◌⊎◌, ◌≢◌, true, false, none, some, ◌≡◌, refl, sym, ◌∙◌, arith, eq_iff, Bool-cases,
  Option-cases, inl, inr, str_eq, not, ◌&&◌, List, [], ◌∷◌,
}
use cloistr_signer.Prelude.Dict.{any_entry}
use cloistr_signer.Storage.Types.{Time, Key, Permission, KeyTable, Grants}
use cloistr_signer.Storage.Grants.{
  grants_of, set_permission, store_grant, displace, occupies, default_slot, stamp_created,
  delete_permission, update_permission_last_used, renew_permission, update_permission_name,
  write_grant, touch,
}
use cloistr_signer.Storage.Grants.View.{
  update_permission_last_used-cases, renew_permission-cases, update_permission_name-cases, grant,
  stored_key_id, set_permission-cases, grant-write_grant, grant-delete_permission,
  grant-store_grant_user, grant-store_grant_occupied, grant-store_grant_single,
}
use cloistr_signer.Storage.Grants.Trace.{
  GrantCall, set, remove, note_use, renew, rename, step, run, is_single,
}

abbrev pub IsExclusive : KeyTable → Grants → Type 0
IsExclusive tbl g =
    (k u v : String) (p q : Permission)
    → is_single tbl k ≡ true
    → grant g k u ≡ some p
    → grant g k v ≡ some q
    → p.revoked_at ≡ none
    → q.revoked_at ≡ none
    → p.slot ≡ q.slot
    → u ≡ v

-- Every grant of the second table was there before, in the same slot and as much revoked.
abbrev Inherits : Grants → Grants → Type 0
Inherits g h =
    (k u : String) (p : Permission)
    → grant h k u ≡ some p
    → (q : Permission) × (grant g k u ≡ some q) × (q.slot ≡ p.slot) × (q.revoked_at ≡ p.revoked_at)

Inherits-IsExclusive :
    (tbl : KeyTable) (g h : Grants) → Inherits g h → IsExclusive tbl g → IsExclusive tbl h
Inherits-IsExclusive tbl g h old ex k u v p q single hp hq rp rq same =
    let (p', gp, sp, ep) = old k u p hp in
    let (q', gq, sq, eq) = old k v q hq in
    ex k u v p' q' single gp gq (ep ∙ rp) (eq ∙ rq) (sp ∙ same ∙ sym sq)

-- Writing an entry back with its slot and revocation unchanged.
write_grant-Inherits :
    (k u : String) (p q : Permission) (g : Grants)
    → grant g k u ≡ some q
    → q.slot ≡ p.slot
    → q.revoked_at ≡ p.revoked_at
    → Inherits g (write_grant k u p g)
write_grant-Inherits k u p q g e s r j v x h = elim (Bool-cases (str_eq k j && str_eq u v)) [
  | inl here ↦ (
    q,
    ground (arith, eq_iff k j, eq_iff u v),
    ground (arith, grant-write_grant k u p g j v),
    ground (arith, grant-write_grant k u p g j v),
  )
  | inr other ↦ (x, ground (arith, grant-write_grant k u p g j v), refl, refl)
]

delete_permission-Inherits : (k u : String) (g : Grants) → Inherits g (delete_permission k u g)
delete_permission-Inherits k u g j v x h =
    (x, ground (arith, grant-delete_permission k u g j v), refl, refl)

unchanged-Inherits : (g h : Grants) → ((j v : String) → grant h j v ≡ grant g j v) → Inherits g h
unchanged-Inherits g h same j v x e = (x, sym (same j v) ∙ e, refl, refl)

touch_kept :
    (now : Time) (p : Permission)
    → (p.slot ≡ (touch now p).slot) × (p.revoked_at ≡ (touch now p).revoked_at)
unfolding touch
touch_kept now p = ground arith

update_permission_last_used-Inherits :
    (now : Time) (k u : String) (g : Grants) → Inherits g (update_permission_last_used now k u g)
update_permission_last_used-Inherits now k u g =
    elim (update_permission_last_used-cases now k u g) [
      | inl same ↦ rw same (unchanged-Inherits g g (λ j v. refl))
      | inr (p, found, wrote) ↦ rw wrote (
          write_grant-Inherits k u (touch now p) p g found (touch_kept now p).0
            (touch_kept now p).1)
    ]

renew_permission-Inherits :
    (now : Time) (k u : String) (t : Time) (g : Grants)
    → Inherits g (renew_permission now k u t g).0
renew_permission-Inherits now k u t g = elim (renew_permission-cases now k u t g) [
  | inl same ↦ rw same (unchanged-Inherits g g (λ j v. refl))
  | inr (p, found, live, wrote) ↦
      rw wrote (write_grant-Inherits k u (record p { expires_at = some t }) p g found refl refl)
]

update_permission_name-Inherits :
    (k u name : String) (g : Grants) → Inherits g (update_permission_name k u name g).0
update_permission_name-Inherits k u name g = elim (update_permission_name-cases k u name g) [
  | inl same ↦ rw same (unchanged-Inherits g g (λ j v. refl))
  | inr (p, found, wrote) ↦
      rw wrote (write_grant-Inherits k u (record p { custom_name = name }) p g found refl refl)
]

-- A grant that `displace` leaves unrevoked was so before, in another slot or of the same client.
displace_left :
    (p q x : Permission) (now : Time) (v : String)
    → displace p now v q ≡ x
    → x.revoked_at ≡ none
    → (q ≡ x) × ((v ≡ p.user_pubkey) ⊎ (x.slot ≢ p.slot))
unfolding displace
displace_left p q x now v e r = ground (arith, eq_iff v p.user_pubkey, eq_iff q.slot p.slot)

store_grant_user-IsExclusive :
    (tbl : KeyTable) (key : Key) (now : Time) (x : Permission) (live : Bool) (g : Grants)
    → is_single tbl x.key_id ≡ false
    → key.single_grant ≡ false
    → IsExclusive tbl g
    → IsExclusive tbl (store_grant key now x live g).0
store_grant_user-IsExclusive tbl key now x live g many e ex k u v p q single hp hq =
    ex k u v p q single
      (ground (arith, grant-store_grant_user key now x live g k u e, eq_iff x.key_id k))
      (ground (arith, grant-store_grant_user key now x live g k v e, eq_iff x.key_id k))

-- What a displacing store leaves unrevoked: the new grant, or an old one in another slot.
store_grant_single_left :
    (key : Key) (now : Time) (x : Permission) (live : Bool) (g : Grants) (k v : String)
    (q : Permission)
    → key.single_grant ≡ true
    → (not live && any_entry (occupies x now) (grants_of x.key_id g)) ≡ false
    → x.key_id ≡ k
    → grant (store_grant key now x live g).0 k v ≡ some q
    → q.revoked_at ≡ none
    → ((v ≡ x.user_pubkey) × (q ≡ x)) ⊎ ((grant g k v ≡ some q) × (q.slot ≢ x.slot))
store_grant_single_left key now x live g k v q e free same h r =
    let law = grant-store_grant_single key now x live g k v e free in
    elim (Bool-cases (str_eq x.user_pubkey v)) [
      | inl own ↦ inl (ground (arith, law, eq_iff x.user_pubkey v, eq_iff x.key_id k))
      | inr other ↦ elim (Option-cases (grant g k v)) [
        | inl absent ↦ absurd (ground (arith, law, eq_iff x.key_id k))
        | inr (old, found) ↦
            ground
              (arith, law, eq_iff x.key_id k, eq_iff x.user_pubkey v, displace_left x old q now v)
      ]
    ]

store_grant_single-IsExclusive :
    (tbl : KeyTable) (key : Key) (now : Time) (x : Permission) (live : Bool) (g : Grants)
    → key.single_grant ≡ true
    → (not live && any_entry (occupies x now) (grants_of x.key_id g)) ≡ false
    → IsExclusive tbl g
    → IsExclusive tbl (store_grant key now x live g).0
store_grant_single-IsExclusive tbl key now x live g e free ex k u v p q single hp hq rp rq same =
    elim (Bool-cases (str_eq x.key_id k)) [
      | inr elsewhere ↦
          ex k u v p q single (ground (arith, grant-store_grant_single key now x live g k u e free))
            (ground (arith, grant-store_grant_single key now x live g k v e free)) rp rq same
      | inl here ↦ ground (
        arith,
        eq_iff x.key_id k,
        store_grant_single_left key now x live g k u p e free,
        store_grant_single_left key now x live g k v q e free,
        ex k u v p q single,
      )
    ]

store_grant-IsExclusive :
    (tbl : KeyTable) (key : Key) (now : Time) (x : Permission) (live : Bool) (g : Grants)
    → is_single tbl x.key_id ≡ key.single_grant
    → IsExclusive tbl g
    → IsExclusive tbl (store_grant key now x live g).0
store_grant-IsExclusive tbl key now x live g same ex = elim (Bool-cases key.single_grant) [
  | inr many ↦ store_grant_user-IsExclusive tbl key now x live g (same ∙ many) many ex
  | inl one ↦ elim (Bool-cases (not live && any_entry (occupies x now) (grants_of x.key_id g))) [
    | inr free ↦ store_grant_single-IsExclusive tbl key now x live g one free ex
    | inl full ↦
        Inherits-IsExclusive tbl g (store_grant key now x live g).0
          (unchanged-Inherits g (store_grant key now x live g).0
            (λ j v. grant-store_grant_occupied key now x live g j v one full))
          ex
  ]
]

set_permission-IsExclusive :
    (tbl : KeyTable) (t now : Time) (perm : Permission) (live : Bool) (g : Grants)
    → IsExclusive tbl g
    → IsExclusive tbl (set_permission tbl t now perm live g).0
set_permission-IsExclusive tbl t now perm live g ex =
    elim (set_permission-cases tbl t now perm live g) [
      | inl refused ↦ rw refused ex
      | inr (r, found, stored) ↦ rw stored (
          store_grant-IsExclusive tbl (tbl.cell r) now (stamp_created t (default_slot perm)) live g
            (let e = stored_key_id t perm in rw (e, found) refl) ex)
    ]

step-IsExclusive :
    (tbl : KeyTable) (c : GrantCall) (g : Grants)
    → IsExclusive tbl g
    → IsExclusive tbl (step tbl c g)
unfolding step
step-IsExclusive tbl (set t now perm live) g ex =
    set_permission-IsExclusive tbl t now perm live g ex
step-IsExclusive tbl (remove k u) g ex =
    Inherits-IsExclusive tbl g _ (delete_permission-Inherits k u g) ex
step-IsExclusive tbl (note_use now k u) g ex =
    Inherits-IsExclusive tbl g _ (update_permission_last_used-Inherits now k u g) ex
step-IsExclusive tbl (renew now k u t) g ex =
    Inherits-IsExclusive tbl g _ (renew_permission-Inherits now k u t g) ex
step-IsExclusive tbl (rename k u name) g ex =
    Inherits-IsExclusive tbl g _ (update_permission_name-Inherits k u name g) ex

-- Whatever permission calls follow, and whoever makes them: if no single-grant key holds two
-- unrevoked grants of different clients in one slot, none does afterwards.
pub run-IsExclusive :
    (tbl : KeyTable) (cs : List GrantCall) (g : Grants)
    → IsExclusive tbl g
    → IsExclusive tbl (run tbl cs g)
unfolding run
run-IsExclusive tbl [] g ex = ex
run-IsExclusive tbl (c ∷ cs) g ex =
    run-IsExclusive tbl cs (step tbl c g) (step-IsExclusive tbl c g ex)
