-- ===== src/Storage/Grants/Lapse.antt =====
-- A grant that `GetPermission` refuses as expired stays refused: using, renewing or renaming a
-- grant, or setting another client's, never brings it back.
use cloistr_signer.Prelude.{
  ℕ, ◌≤◌, String, Bool, true, false, Option, none, some, List, [], ◌∷◌, ◌≡◌, refl, arith, eq_iff,
  Bool-cases, Option-cases, inl, inr, ◌⊎◌, str_eq, not, ◌&&◌, ◌||◌, ◌↔◌,
}
use cloistr_signer.Prelude.Dict.{any_entry, map_option}
use cloistr_signer.Storage.Types.{
  Time, Error, Permission, KeyTable, Grants, err, permission_expired, not_authorized,
}
use cloistr_signer.Storage.Grants.{
  grants_of, set_permission, store_grant, displace, occupies, default_slot, stamp_created,
  write_grant, touch, renewable, is_none, expired, slide_due, check_grant, get_permission,
}
use cloistr_signer.Storage.Grants.View.{
  update_permission_last_used-cases, renew_permission-cases, update_permission_name-cases, grant,
  stored_key_id, stored_user_pubkey, set_permission-cases, grant-write_grant,
  grant-delete_permission, grant-store_grant_user, grant-store_grant_occupied,
  grant-store_grant_single,
}
use cloistr_signer.Storage.Grants.Trace.{GrantCall, set, remove, note_use, renew, rename, step, run}

-- No unrevoked grant that is good at `now` is stored: an absent entry, or a lapsed or revoked one.
abbrev pub is_dead : Time → Option Permission → Bool
is_dead now none = true
is_dead now (some perm) = not (is_none perm.revoked_at) || expired perm.expires_at now

-- `GetPermission` refuses exactly the dead entries.
pub get_permission_iff :
    (now : Time) (k u : String) (g : Grants)
    → (is_dead now (grant g k u) ≡ true) ↔ (
        (get_permission now k u g ≡ err not_authorized)
        ⊎ (get_permission now k u g ≡ err permission_expired))
unfolding get_permission check_grant
get_permission_iff now k u g = elim (Option-cases (grant g k u)) [
  | inl absent ↦ (λ d. inl (rw absent), λ d. rw absent)
  | inr (perm, found) ↦ ground (arith, found)
]

refused_dead :
    (now : Time) (k u : String) (g : Grants) (e : Error)
    → get_permission now k u g ≡ err e
    → is_dead now (grant g k u) ≡ true
unfolding get_permission check_grant
refused_dead now k u g e h = elim (Option-cases (grant g k u)) [
  | inl absent ↦ rw absent
  | inr (perm, found) ↦ ground (arith, found)
]

dead_refused :
    (now : Time) (k u : String) (g : Grants)
    → is_dead now (grant g k u) ≡ true
    → (e : Error) × (get_permission now k u g ≡ err e)
dead_refused now k u g d = elim ((get_permission_iff now k u g).0 d) [
  | inl absent ↦ (not_authorized, absent)
  | inr lapsed ↦ (permission_expired, lapsed)
]

-- When a call reads the clock, and the client that it may bring back.
abbrev pub call_time : GrantCall → Time → Time
call_time (set t now perm live) last = now
call_time (remove k u) last = last
call_time (note_use now k u) last = now
call_time (renew now k u t) last = now
call_time (rename k u name) last = last

abbrev pub sets : String → String → GrantCall → Bool
sets k u (set t now perm live) = str_eq perm.key_id k && str_eq perm.user_pubkey u
sets k u _ = false

is_dead_later :
    (t now : Time) (o : Option Permission) → t ≤ now → is_dead t o ≡ true → is_dead now o ≡ true
is_dead_later t now none le d = refl
is_dead_later t now (some perm) le d = elim (Option-cases perm.expires_at) [
  | inl e ↦ ground (arith, e)
  | inr (x, e) ↦ ground (arith, e)
]

-- Every call reads the clock at `t` or later, and none sets the grant of `u` on `k`.
abbrev pub IsQuiet : Time → String → String → List GrantCall → Type 0
IsQuiet t k u [] = Unit
IsQuiet t k u (c ∷ cs) = (t ≤ call_time c t) × (sets k u c ≡ false) × IsQuiet t k u cs

touch_dead :
    (t now : Time) (p : Permission)
    → t ≤ now
    → is_dead t (some p) ≡ true
    → is_dead t (some (touch now p)) ≡ true
unfolding touch slide_due
touch_dead t now p le d = elim (Option-cases p.expires_at) [
  | inl e ↦ ground (arith, e)
  | inr (x, e) ↦ ground (arith, e)
]

renewable_dead :
    (t now : Time) (p : Permission) → t ≤ now → is_dead t (some p) ≡ true → renewable now p ≡ false
unfolding renewable
renewable_dead t now p le d = elim (Option-cases p.expires_at) [
  | inl e ↦ ground (arith, e)
  | inr (x, e) ↦ ground (arith, e)
]

displace_dead :
    (x : Permission) (t now : Time) (v : String) (o : Option Permission)
    → is_dead t o ≡ true
    → is_dead t (map_option (displace x now v) o) ≡ true
unfolding displace
displace_dead x t now v none d = refl
displace_dead x t now v (some p) d = ground arith

-- A grant written back dead leaves what was dead so.
write_grant_dead :
    (t : Time) (j v : String) (p : Permission) (g : Grants) (k u : String)
    → (is_dead t (grant g j v) ≡ true → is_dead t (some p) ≡ true)
    → is_dead t (grant g k u) ≡ true
    → is_dead t (grant (write_grant j v p g) k u) ≡ true
write_grant_dead t j v p g k u keep d =
    rw grant-write_grant (elim (Bool-cases (str_eq j k && str_eq v u)) [
      | inl here ↦ ground (arith, eq_iff j k, eq_iff v u)
      | inr other ↦ ground arith
    ])

module _ (tbl : KeyTable) (t : Time) (k u : String) where
  store_grant_dead :
      (r : ℕ) (now : Time) (x : Permission) (live : Bool) (g : Grants)
      → (str_eq x.key_id k && str_eq x.user_pubkey u) ≡ false
      → is_dead t (grant g k u) ≡ true
      → is_dead t (grant (store_grant (tbl.cell r) now x live g).0 k u) ≡ true
  store_grant_dead r now x live g other d =
      let held = grants_of x.key_id g in
      elim (Bool-cases (tbl.cell r).single_grant) [
        | inr many ↦
            rw (grant-store_grant_user (tbl.cell r) now x live g k u many)
              (ground (arith, eq_iff x.key_id k))
        | inl one ↦ elim (Bool-cases (not live && any_entry (occupies x now) held)) [
          | inl full ↦ rw (grant-store_grant_occupied (tbl.cell r) now x live g k u one full) d
          | inr free ↦
              rw (grant-store_grant_single (tbl.cell r) now x live g k u one free)
                (ground (arith, eq_iff x.key_id k, displace_dead x t now u (grant g k u)))
        ]
      ]

  set_permission_dead :
      (s now : Time) (x : Permission) (live : Bool) (g : Grants)
      → (str_eq x.key_id k && str_eq x.user_pubkey u) ≡ false
      → is_dead t (grant g k u) ≡ true
      → is_dead t (grant (set_permission tbl s now x live g).0 k u) ≡ true
  set_permission_dead s now x live g other d = elim (set_permission-cases tbl s now x live g) [
    | inl refused ↦ rw refused d
    | inr (r, found, stored) ↦ rw stored (
        store_grant_dead r now (stamp_created s (default_slot x)) live g
          (rw (stored_key_id s x, stored_user_pubkey s x) other) d)
  ]

  step_dead :
      (c : GrantCall) (g : Grants)
      → t ≤ call_time c t
      → sets k u c ≡ false
      → is_dead t (grant g k u) ≡ true
      → is_dead t (grant (step tbl c g) k u) ≡ true
  unfolding step
  step_dead (set s now x live) g le other d = set_permission_dead s now x live g other d
  step_dead (remove j v) g le other d = rw grant-delete_permission (ground (arith, d))
  step_dead (note_use now j v) g le other d = elim (update_permission_last_used-cases now j v g) [
    | inl same ↦ rw same d
    | inr (p, found, wrote) ↦ rw wrote (
        write_grant_dead t j v (touch now p) g k u
          (λ e. touch_dead t now p le (let e' = e in rw found at e')) d)
  ]
  step_dead (renew now j v x) g le other d = elim (renew_permission-cases now j v x g) [
    | inl same ↦ rw same d
    | inr (p, found, live, wrote) ↦ rw wrote (
        write_grant_dead t j v (record p { expires_at = some x }) g k u
          (λ e.
            absurd (
              let stale = renewable_dead t now p le (let e' = e in rw found at e') in ground arith))
          d)
  ]
  step_dead (rename j v name) g le other d = elim (update_permission_name-cases j v name g) [
    | inl same ↦ rw same d
    | inr (p, found, wrote) ↦
        rw wrote
          (write_grant_dead t j v (record p { custom_name = name }) g k u (λ e. rw found at e) d)
  ]

  run_dead :
      (cs : List GrantCall) (g : Grants)
      → IsQuiet t k u cs
      → is_dead t (grant g k u) ≡ true
      → is_dead t (grant (run tbl cs g) k u) ≡ true
  unfolding run
  run_dead [] g q d = d
  run_dead (c ∷ cs) g q d = run_dead cs (step tbl c g) q.2 (step_dead c g q.0 q.1 d)

-- A client that `GetPermission` refuses at `t` is refused at any later time too, after any
-- permission calls that read the clock at `t` or later, unless one of them sets that client's grant.
pub get_permission-run :
    (tbl : KeyTable) (t now : Time) (k u : String) (cs : List GrantCall) (g : Grants) (e : Error)
    → get_permission t k u g ≡ err e
    → IsQuiet t k u cs
    → t ≤ now
    → (e' : Error) × (get_permission now k u (run tbl cs g) ≡ err e')
get_permission-run tbl t now k u cs g e refused quiet le = dead_refused now k u (run tbl cs g) (
    is_dead_later t now (grant (run tbl cs g) k u) le
      (run_dead tbl t k u cs g quiet (refused_dead t k u g e refused)))
