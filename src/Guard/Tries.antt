-- ===== src/Guard/Tries.antt =====
-- How many wrong passwords and codes an account takes before it is locked.
use cloistr_signer.Prelude.{
  ℕ, ◌+◌, ◌<◌, ◌≤◌, String, Bool, false, not, ◌&&◌, ◌||◌, str_eq, Option-cases, Option, none, some,
  List, [], ◌∷◌, ◌≡◌, refl, ap, ◌∙◌, subst, arith, Bool-cases, inl, inr, ◌⊎◌, if◌then◌else◌,
}
use cloistr_signer.Storage.Types.{Time, User, UserTable, Result-cases, ok, err}
use cloistr_signer.Storage.Users.{get_user}
use cloistr_signer.RateLimit.{Windows}
use cloistr_signer.Guard.{Checks, GuardConfig, Origin, begin_attempt, check_mfa}
use cloistr_signer.Guard.Reauth.{
  ReauthClock, Credentials, is_locked, check_credentials, reauthenticate,
}
use cloistr_signer.Guard.Lockout.{HasUser, Counted, is_failure, after_fail, reauthenticate-Counted}

pub record Try : Type 0 where
  pub clock : ReauthClock
  pub origin : Origin
  pub creds : Credentials

-- The password is wrong, or the code is where MFA is on and a code is given.
abbrev pub wrong_creds : Checks → Try → User → UserTable → Bool
wrong_creds checks t user tbl =
    not (checks.verify_password t.creds.password user.password_hash)
    || (user.mfa_enabled
        && not (str_eq t.creds.mfa_code "")
        && not (check_mfa checks t.clock.consumed user t.creds.mfa_code tbl).2)

-- A try that the limits of its address and its account let through, on a stored account that is not
-- locked, with a wrong password or code.
abbrev pub is_wrong : Checks → GuardConfig → String → Try → UserTable → Windows → Bool
is_wrong checks cfg id t tbl m = elim (get_user id tbl) [
  | err _ ↦ false
  | ok user ↦ elim (begin_attempt checks cfg t.clock.begun t.origin user.username m).1 [
    | none ↦ false
    | some _ ↦ not (is_locked t.clock.now user.locked_until) && wrong_creds checks t user tbl
  ]
]

-- Tries one after the other, and the starts of those that are wrong.
unfoldable pub run_tries :
    Checks → GuardConfig → String → List Try → UserTable → Windows → UserTable × Windows × List Time
run_tries checks cfg id [] tbl m = (tbl, m, [])
run_tries checks cfg id (t ∷ ts) tbl m =
    let (tbl1, m1, _) = reauthenticate checks cfg t.clock t.origin id t.creds tbl m in
    let (tbl2, m2, starts) = run_tries checks cfg id ts tbl1 m1 in
    (tbl2, m2, if is_wrong checks cfg id t tbl m then t.clock.start ∷ starts else starts)

abbrev pub count : List Time → ℕ
count [] = 0
count (_ ∷ ts) = count ts + 1

abbrev pub last : Time → List Time → Time
last t [] = t
last t (u ∷ us) = last u us

abbrev last_of : List Time → Time
last_of [] = 0
last_of (t ∷ ts) = last t ts

-- What wrong tries, begun at `starts`, leave of the account's counter, `failed` before, and of its lock,
-- `until` before.
pub record IsLimited (cfg : GuardConfig) (id : String) (failed : ℕ) (until : Option Time)
    (starts : List Time) (tbl : UserTable) : Type 0 where
  pub until' : Option Time
  pub user : HasUser id (failed + count starts) until' tbl
  -- below the limit, and without a wrong try, the lock is as it was
  pub kept : (starts ≡ []) ⊎ (failed + count starts < cfg.max_failed_attempts) → until' ≡ until
  -- at the limit the account is locked for `LockoutDuration` from the start of the last wrong try
  pub locked :
      (t : Time) (ts : List Time)
      → starts ≡ t ∷ ts
      → cfg.max_failed_attempts ≤ failed + count starts
      → until' ≡ some (last t ts + cfg.lockout_duration)

module _ (checks : Checks) (cfg : GuardConfig) (t : Try) where
  check_credentials_failure :
      (user : User) (tbl : UserTable)
      → is_failure (check_credentials checks cfg t.clock t.creds user tbl).1
        ≡ (not (is_locked t.clock.now user.locked_until) && wrong_creds checks t user tbl)
  unfolding check_credentials
  check_credentials_failure user tbl = ground (arith)

  -- The verdicts for which `Fail` is called are those on wrong tries.
  reauthenticate_failure :
      (id : String) (tbl : UserTable) (m : Windows)
      → is_failure (reauthenticate checks cfg t.clock t.origin id t.creds tbl m).2
        ≡ is_wrong checks cfg id t tbl m
  unfolding reauthenticate
  reauthenticate_failure id tbl m = elim (Result-cases (get_user id tbl)) [
    | inr (e, absent) ↦ rw (absent, reauthenticate, is_wrong) refl
    | inl (user, stored) ↦
        elim (Option-cases (begin_attempt checks cfg t.clock.begun t.origin user.username m).1) [
          | inl refused ↦ rw (stored, reauthenticate, is_wrong) (rw refused refl)
          | inr (attempt, begun) ↦
              rw (stored, reauthenticate, is_wrong) (rw begun (check_credentials_failure user tbl))
        ]
  ]

module _ (checks : Checks) (cfg : GuardConfig) (id : String) where
  after_fail_below :
      (start : Time) (failed : ℕ) (until : Option Time)
      → failed + 1 < cfg.max_failed_attempts
      → after_fail cfg start failed until ≡ until
  after_fail_below start failed until below = ground (arith, below)

  after_fail_limit :
      (start : Time) (failed : ℕ) (until : Option Time)
      → cfg.max_failed_attempts ≤ failed + 1
      → after_fail cfg start failed until ≡ some (start + cfg.lockout_duration)
  after_fail_limit start failed until limit = ground (arith, limit)

  failed-locked :
      (start : Time) (failed : ℕ) (until : Option Time) (starts : List Time) (tbl : UserTable)
      (l : IsLimited cfg id (failed + 1) (after_fail cfg start failed until) starts tbl)
      → cfg.max_failed_attempts ≤ failed + count (start ∷ starts)
      → l.until' ≡ some (last start starts + cfg.lockout_duration)
  failed-locked start failed until [] tbl l limit =
      l.kept (inl refl) ∙ after_fail_limit start failed until (omega (arith, limit))
  failed-locked start failed until (t ∷ ts) tbl l limit = l.locked t ts refl (omega (arith, limit))

  failed-IsLimited :
      (start : Time) (failed : ℕ) (until : Option Time) (starts : List Time) (tbl : UserTable)
      → IsLimited cfg id (failed + 1) (after_fail cfg start failed until) starts tbl
      → IsLimited cfg id failed until (start ∷ starts) tbl
  failed-IsLimited start failed until starts tbl l =
      let same : (failed + 1) + count starts ≡ failed + count (start ∷ starts) = omega (arith) in
      record {
        until' = l.until';
        user = subst (λ n. HasUser id n l.until' tbl) same l.user;
        kept = λ which. elim which [
          | inl none_failed ↦ absurd (cc)
          | inr below ↦
              l.kept (inr (omega (arith, below)))
              ∙ after_fail_below start failed until (omega (arith, below))
        ];
        locked = λ t ts is limit.
            failed-locked start failed until starts tbl l limit
            ∙ ap (λ x. some (last_of x + cfg.lockout_duration)) is;
      }

  -- However many tries are made on a stored account, one after the other and from any addresses, every
  -- one with a wrong password or code is counted that is within the limits on attempts and not made
  -- while the account is locked. Once the count reaches `MaxFailedAttempts`, the account is locked until
  -- `LockoutDuration` after the start of the last one that was counted; below it, and if there was none,
  -- the lock is as before.
  pub run_tries-IsLimited :
      (ts : List Try) (failed : ℕ) (until : Option Time) (tbl : UserTable) (m : Windows)
      → HasUser id failed until tbl
      → IsLimited cfg id failed until
          (run_tries checks cfg id ts tbl m).2
          (run_tries checks cfg id ts tbl m).0
  unfolding run_tries
  run_tries-IsLimited [] failed until tbl m w = record {
    until' = until;
    user = subst (λ n. HasUser id n until tbl) (ground (arith)) w;
    kept = λ _. refl;
    locked = λ t ts is limit. absurd (cc);
  }
  run_tries-IsLimited (t ∷ ts) failed until tbl m w =
      let tbl1 = (reauthenticate checks cfg t.clock t.origin id t.creds tbl m).0 in
      let m1 = (reauthenticate checks cfg t.clock t.origin id t.creds tbl m).1 in
      let w1 : Counted cfg t.clock.start id failed until tbl1 (is_wrong checks cfg id t tbl m) =
        subst (Counted cfg t.clock.start id failed until tbl1)
          (reauthenticate_failure checks cfg t id tbl m)
          (reauthenticate-Counted checks cfg t.clock t.creds t.origin id failed until tbl m w) in
      elim (Bool-cases (is_wrong checks cfg id t tbl m)) [
        | inl fails ↦ rw fails (
            failed-IsLimited t.clock.start failed until _ _ (
              run_tries-IsLimited ts (failed + 1) (after_fail cfg t.clock.start failed until) tbl1
                m1 (let h = w1 in rw fails at h)))
        | inr passes ↦
            rw passes (run_tries-IsLimited ts failed until tbl1 m1 (let h = w1 in rw passes at h))
      ]
