-- ===== src/Guard/Lockout.antt =====
-- Wrong passwords and wrong MFA codes lock the account before they exceed the limit.
use cloistr_signer.Prelude.{
  ℕ, ◌+◌, String, Bool, true, false, not, ◌&&◌, Option, some, ◌≡◌, refl, sym, ap, subst, ◌∙◌,
  Bool-cases, Option-cases, inl, inr, if◌then◌else◌, leb, str_eq,
}
use cloistr_signer.Prelude.Dict.{lookup}
use cloistr_signer.Storage.Types.{Time, User, UserTable, update_at, Result-cases}
use cloistr_signer.Storage.Users.{
  get_user, write_user, increment_failed_logins, lock_user, consume_backup_code, remove_code,
}
use cloistr_signer.RateLimit.{Windows}
use cloistr_signer.Guard.{
  Checks, GuardConfig, Origin, begin_attempt, fail_attempt, check_mfa, drop_code,
  validate_backup_code,
}
use cloistr_signer.Guard.Reauth.{
  ReauthClock, Credentials, Verdict, bad_credentials, bad_mfa, is_locked, check_credentials,
  reauthenticate,
}

-- The user that is stored under an id, with what the lockout reads of it.
pub record HasUser (id : String) (failed : ℕ) (until : Option Time) (tbl : UserTable) : Type 0 where
  pub place : ℕ
  pub found : lookup id tbl.users ≡ some place
  pub attempts : (tbl.cell place).failed_login_attempts ≡ failed
  pub lock : (tbl.cell place).locked_until ≡ until
  pub own_id : (tbl.cell place).id ≡ id

-- A write through the user's pointer.
write_user-HasUser :
    (id : String) (f : User → User) (tbl : UserTable) (failed failed' : ℕ)
    (until until' : Option Time) (w : HasUser id failed until tbl)
    → (f (tbl.cell w.place)).failed_login_attempts ≡ failed'
    → (f (tbl.cell w.place)).locked_until ≡ until'
    → (f (tbl.cell w.place)).id ≡ (tbl.cell w.place).id
    → HasUser id failed' until' (write_user id f tbl).0
unfolding write_user
write_user-HasUser id f tbl failed failed' until until' w e e' same =
    let is = update_at tbl.cell w.place (f (tbl.cell w.place)) in
    rw (w.found, write_user)
      (record {
        place = w.place;
        found = w.found;
        attempts = ap (λ u. u.failed_login_attempts) is ∙ e;
        lock = ap (λ u. u.locked_until) is ∙ e';
        own_id = ap (λ u. u.id) is ∙ same ∙ w.own_id;
      })

consume-HasUser :
    (now : Time) (id code : String) (failed : ℕ) (until : Option Time) (tbl : UserTable)
    → HasUser id failed until tbl
    → HasUser id failed until (consume_backup_code now id code tbl).0
unfolding consume_backup_code
consume-HasUser now id code failed until tbl w =
    elim (Option-cases (remove_code code (tbl.cell w.place).backup_codes)) [
      | inl absent ↦ rw (w.found, consume_backup_code) (rw absent w)
      | inr (left, is) ↦
          let user = tbl.cell w.place in
          let user' = record user {
            backup_codes = left;
            backup_codes_used = user.backup_codes_used + 1;
            updated_at = now;
          } in
          let here = update_at tbl.cell w.place user' in
          rw (w.found, consume_backup_code)
            (rw is (record {
              place = w.place;
              found = w.found;
              attempts = ap (λ u. u.failed_login_attempts) here ∙ w.attempts;
              lock = ap (λ u. u.locked_until) here ∙ w.lock;
              own_id = ap (λ u. u.id) here ∙ w.own_id;
            }))
    ]

abbrev pub after_fail : GuardConfig → Time → ℕ → Option Time → Option Time
after_fail cfg start failed until =
    if leb cfg.max_failed_attempts (failed + 1) then some (start + cfg.lockout_duration) else until

fail_attempt-HasUser :
    (cfg : GuardConfig) (counted locked start : Time) (user : User) (failed : ℕ)
    (until : Option Time) (tbl : UserTable)
    → user.failed_login_attempts ≡ failed
    → HasUser user.id failed until tbl
    → HasUser user.id
        (failed + 1)
        (after_fail cfg start failed until)
        (fail_attempt cfg counted locked start user tbl)
unfolding fail_attempt increment_failed_logins lock_user
fail_attempt-HasUser cfg counted locked start user failed until tbl same w =
    let w1 =
      write_user-HasUser user.id
        (λ u. record u {
          failed_login_attempts = u.failed_login_attempts + 1;
          updated_at = counted;
        })
        tbl failed (failed + 1) until until w (ap (λ n. n + 1) w.attempts) w.lock refl in
    elim (Bool-cases (leb cfg.max_failed_attempts (failed + 1))) [
      | inl last ↦
          rw (same, last)
            (write_user-HasUser user.id
              (λ u. record u {
                locked_until = some (start + cfg.lockout_duration);
                updated_at = locked;
              })
              _ (failed + 1) (failed + 1) until (some (start + cfg.lockout_duration)) w1 w1.attempts
              refl refl)
      | inr more ↦ rw (same, more) w1
    ]

-- The same for the request's copy of the user, whose id is equal.
fail_copy-HasUser :
    (cfg : GuardConfig) (counted locked start : Time) (user : User) (id : String) (failed : ℕ)
    (until : Option Time) (tbl : UserTable)
    → user.id ≡ id
    → user.failed_login_attempts ≡ failed
    → HasUser id failed until tbl
    → HasUser id
        (failed + 1)
        (after_fail cfg start failed until)
        (fail_attempt cfg counted locked start user tbl)
fail_copy-HasUser cfg counted locked start user id failed until tbl e same w =
    subst
      (λ i.
        HasUser i (failed + 1) (after_fail cfg start failed until)
          (fail_attempt cfg counted locked start user tbl))
      e
      (fail_attempt-HasUser cfg counted locked start user failed until tbl same
        (subst (λ i. HasUser i failed until tbl) (sym e) w))

drop_code-fields :
    (hash : String) (user : User)
    → ((drop_code hash user).id ≡ user.id)
      × ((drop_code hash user).failed_login_attempts ≡ user.failed_login_attempts)
unfolding drop_code
drop_code-fields hash user = elim (Option-cases (remove_code hash user.backup_codes)) [
  | inl absent ↦ rw (absent, drop_code) (refl, refl)
  | inr (left, is) ↦ rw (is, drop_code) (refl, refl)
]

check_mfa-HasUser :
    (checks : Checks) (now : Time) (user : User) (code : String) (failed : ℕ) (until : Option Time)
    (tbl : UserTable)
    → HasUser user.id failed until tbl
    → HasUser user.id failed until (check_mfa checks now user code tbl).0
      × ((check_mfa checks now user code tbl).1.id ≡ user.id)
      × ((check_mfa checks now user code tbl).1.failed_login_attempts ≡ user.failed_login_attempts)
unfolding check_mfa
check_mfa-HasUser checks now user code failed until tbl w =
    elim (Bool-cases (checks.validate_mfa_code user.mfa_secret code)) [
      | inl totp ↦ rw totp (w, refl, refl)
      | inr other ↦ elim (Option-cases (validate_backup_code checks code user.backup_codes)) [
        | inl absent ↦ rw (other, absent) (w, refl, refl)
        | inr (hash, is) ↦
            let w' = consume-HasUser now user.id hash failed until tbl w in
            elim (Result-cases (consume_backup_code now user.id hash tbl).1) [
              | inr (e, refused) ↦ rw (other, is) (rw refused (w', refl, refl))
              | inl (true, won) ↦
                  let (same, same') = drop_code-fields hash user in
                  rw (other, is) (rw won (w', same, same'))
              | inl (false, lost) ↦ rw (other, is) (rw lost (w', refl, refl))
            ]
      ]
    ]

-- The verdicts that `Fail` is called for.
abbrev pub is_failure : Verdict → Bool
is_failure bad_credentials = true
is_failure bad_mfa = true
is_failure _ = false

-- What an attempt does to the counter and the lock.
abbrev pub Counted : GuardConfig → Time → String → ℕ → Option Time → UserTable → Bool → Type 0
Counted cfg start id failed until tbl true =
    HasUser id (failed + 1) (after_fail cfg start failed until) tbl
Counted cfg start id failed until tbl false = HasUser id failed until tbl

-- A predicate of both branches.
either {ℓ κ} :
    {A : Type ℓ} (P : A → Type κ) (b : Bool) {x y : A} → P x → P y → P (if b then x else y)
either P true px py = px
either P false px py = py

module _ (checks : Checks) (cfg : GuardConfig) (clock : ReauthClock) (creds : Credentials) where
  check_credentials-Counted :
      (user : User) (failed : ℕ) (until : Option Time) (tbl : UserTable)
      → user.failed_login_attempts ≡ failed
      → HasUser user.id failed until tbl
      → Counted cfg clock.start user.id failed until
          (check_credentials checks cfg clock creds user tbl).0
          (is_failure (check_credentials checks cfg clock creds user tbl).1)
  unfolding check_credentials
  check_credentials-Counted user failed until tbl same w =
      let (w', same_id, same') =
        check_mfa-HasUser checks clock.consumed user creds.mfa_code failed until tbl w in
      let user' = (check_mfa checks clock.consumed user creds.mfa_code tbl).1 in
      let tbl' = (check_mfa checks clock.consumed user creds.mfa_code tbl).0 in
      let P : UserTable × Verdict × Bool → Type 0 =
        λ x. Counted cfg clock.start user.id failed until x.0 (is_failure x.1) in
      let bad : HasUser user.id (failed + 1) (after_fail cfg clock.start failed until)
          (fail_attempt cfg clock.counted clock.locked clock.start user tbl) =
        fail_attempt-HasUser cfg clock.counted clock.locked clock.start user failed until tbl same
          w in
      let bad' : HasUser user.id (failed + 1) (after_fail cfg clock.start failed until)
          (fail_attempt cfg clock.counted clock.locked clock.start user' tbl') =
        fail_copy-HasUser cfg clock.counted clock.locked clock.start user' user.id failed until tbl'
          same_id (same' ∙ same) w' in
      let kept : HasUser user.id failed until (if user.mfa_enabled then tbl' else tbl) =
        either (λ x. HasUser user.id failed until x) user.mfa_enabled w' w in
      either P (is_locked clock.now user.locked_until) w (
        either P (not (checks.verify_password creds.password user.password_hash)) bad (
          either P (user.mfa_enabled && str_eq creds.mfa_code "") w (
            either P
              (user.mfa_enabled && not (check_mfa checks clock.consumed user creds.mfa_code tbl).2)
              bad'
              (either P (not (str_eq creds.confirm user.username)) kept
                (either P user.mfa_enabled w' w)))))

  pub reauthenticate-Counted :
      (origin : Origin) (id : String) (failed : ℕ) (until : Option Time) (tbl : UserTable)
      (m : Windows)
      → HasUser id failed until tbl
      → Counted cfg clock.start id failed until
          (reauthenticate checks cfg clock origin id creds tbl m).0
          (is_failure (reauthenticate checks cfg clock origin id creds tbl m).2)
  unfolding reauthenticate get_user
  reauthenticate-Counted origin id failed until tbl m w =
      let user = tbl.cell w.place in
      let step =
        check_credentials-Counted user failed until tbl w.attempts
          (subst (λ i. HasUser i failed until tbl) (sym w.own_id) w) in
      elim (Option-cases (begin_attempt checks cfg clock.begun origin user.username m).1) [
        | inl refused ↦ rw (w.found, reauthenticate, get_user) (rw refused w)
        | inr (attempt, begun) ↦
            rw (w.found, reauthenticate, get_user)
              (rw begun (
                subst
                  (λ i.
                    Counted cfg clock.start i failed until
                      (check_credentials checks cfg clock creds user tbl).0
                      (is_failure (check_credentials checks cfg clock creds user tbl).1))
                  w.own_id step))
      ]
