-- ===== src/Storage/Grants/Access.antt =====
-- What `GetPermission` returns, by the grant that is stored.
use cloistr_signer.Prelude.{
  ◌≤◌, String, none, some, ◌≡◌, refl, arith, Option-cases, subst, inl, inr, ◌⊎◌,
}
use cloistr_signer.Storage.Types.{
  Time, Permission, Grants, Result, ok, err, not_authorized, permission_expired,
}
use cloistr_signer.Storage.Grants.{get_permission, check_grant}
use cloistr_signer.Storage.Grants.View.{grant}

-- A grant that is in force: not revoked, and not past its expiry if it has one.
pub record IsLive (now : Time) (p : Permission) : Type 0 where
  pub unrevoked : p.revoked_at ≡ none
  pub in_time : (t : Time) → p.expires_at ≡ some t → now ≤ t

module _ (now : Time) (p : Permission) where
  ok_IsLive : check_grant now (some p) ≡ ok p → IsLive now p
  unfolding check_grant
  ok_IsLive h = record { unrevoked = ground arith; in_time = λ t e. ground (arith, e) }

  IsLive-ok : IsLive now p → check_grant now (some p) ≡ ok p
  unfolding check_grant
  IsLive-ok l = elim (Option-cases p.expires_at) [
    | inl e ↦ ground (arith, e, l.unrevoked)
    | inr (t, e) ↦ ground (arith, e, l.unrevoked, l.in_time t e)
  ]

  check_grant-cases :
      (check_grant now (some p) ≡ ok p) ⊎ (check_grant now (some p) ≡ err permission_expired)
  unfolding check_grant
  check_grant-cases = ground arith

-- The three answers of `GetPermission`: the stored grant if it is in force; "permission expired" if a
-- grant is stored that is not; "not authorized" if none is stored.
pub data Answer (now : Time) (g : Grants) (k u : String) : Result Permission → Type 0 where
  live : (p : Permission) → grant g k u ≡ some p → IsLive now p → Answer now g k u (ok p)
  lapsed :
      (p : Permission)
      → grant g k u ≡ some p
      → ¬ IsLive now p
      → Answer now g k u (err permission_expired)
  missing : grant g k u ≡ none → Answer now g k u (err not_authorized)

-- `GetPermission` returns the stored grant if it is in force, "permission expired" if one is stored
-- that is revoked or past its expiry, and "not authorized" if none is stored.
pub get_permission-Answer :
    (now : Time) (g : Grants) (k u : String) → Answer now g k u (get_permission now k u g)
unfolding get_permission
get_permission-Answer now g k u = elim (Option-cases (grant g k u)) [
  | inl absent ↦ rw absent (unfold check_grant in missing absent)
  | inr (p, found) ↦ elim (check_grant-cases now p) [
    | inl good ↦ rw (found, good) (live p found (ok_IsLive now p good))
    | inr bad ↦ rw (found, bad) (lapsed p found (λ l. let good = IsLive-ok now p l in cc))
  ]
]

Answer-lapsed :
    {now : Time} {g : Grants} {k u : String} {res : Result Permission} (p : Permission)
    → Answer now g k u res
    → grant g k u ≡ some p
    → ¬ IsLive now p
    → res ≡ err permission_expired
Answer-lapsed {now} p (live q stored good) e bad =
    absurd (bad (let same : q ≡ p = cc in subst (IsLive now) same good))
Answer-lapsed p (lapsed q stored dead) e bad = refl
Answer-lapsed p (missing absent) e bad = absurd (cc)

-- A stored grant that is not in force is answered "permission expired".
pub get_permission_lapsed :
    (now : Time) (g : Grants) (k u : String) (p : Permission)
    → grant g k u ≡ some p
    → ¬ IsLive now p
    → get_permission now k u g ≡ err permission_expired
get_permission_lapsed now g k u p e bad = Answer-lapsed p (get_permission-Answer now g k u) e bad

-- A stored grant that is in force is returned.
pub get_permission_live :
    (now : Time) (g : Grants) (k u : String) (p : Permission)
    → grant g k u ≡ some p
    → IsLive now p
    → get_permission now k u g ≡ ok p
unfolding get_permission
get_permission_live now g k u p e good = rw (e, IsLive-ok now p good)
