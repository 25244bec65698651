-- ===== src/Guard/Verified.antt =====
-- What `reauthenticate` has checked when it lets a request through.
use cloistr_signer.Prelude.{
  String, true, false, not, ◌&&◌, List, [], ◌∷◌, some, ◌≡◌, refl, arith, eq_iff, Bool-cases,
  Option-cases, inl, inr, str_eq,
}
use cloistr_signer.Storage.Types.{Time, User, UserTable, ok, Result-cases}
use cloistr_signer.Storage.Users.{get_user, consume_backup_code}
use cloistr_signer.Storage.Users.Codes.{is_accepted}
use cloistr_signer.RateLimit.{Windows}
use cloistr_signer.Guard.{
  Checks, GuardConfig, Origin, begin_attempt, check_mfa, validate_backup_code,
}
use cloistr_signer.Guard.Reauth.{
  ReauthClock, Credentials, accepted, is_locked, check_credentials, reauthenticate,
}

-- The account's second factor was given: none is set, or a TOTP code, or a stored backup code, which
-- the store has dropped.
pub data SecondFactor (checks : Checks) (now : Time) (code : String) (user : User)
    (before after : UserTable) : Type 0 where
  no_mfa :
      user.mfa_enabled ≡ false → after ≡ before → SecondFactor checks now code user before after
  totp :
      checks.validate_mfa_code user.mfa_secret code ≡ true
      → after ≡ before
      → SecondFactor checks now code user before after
  backup :
      (hash : String)
      → checks.verify_password code hash ≡ true
      → is_accepted (consume_backup_code now user.id hash before).1 ≡ true
      → after ≡ (consume_backup_code now user.id hash before).0
      → SecondFactor checks now code user before after

pub record IsVerified (checks : Checks) (clock : ReauthClock) (id : String) (creds : Credentials)
    (before after : UserTable) : Type 0 where
  pub user : User
  pub stored : get_user id before ≡ ok user
  pub unlocked : is_locked clock.now user.locked_until ≡ false
  pub password : checks.verify_password creds.password user.password_hash ≡ true
  pub confirmed : creds.confirm ≡ user.username
  pub factor : SecondFactor checks clock.consumed creds.mfa_code user before after

validate_backup_code-verified :
    (checks : Checks) (code : String) (hashes : List String) (hash : String)
    → validate_backup_code checks code hashes ≡ some hash
    → checks.verify_password code hash ≡ true
unfolding validate_backup_code
validate_backup_code-verified checks code [] hash is = absurd (cc)
validate_backup_code-verified checks code (h ∷ hashes) hash is =
    elim (Bool-cases (checks.verify_password code h)) [
      | inl hit ↦ let e : h ≡ hash = ground (arith, is, hit) in rw (← e) hit
      | inr miss ↦
          validate_backup_code-verified checks code hashes hash (let g = is in rw miss at g)
    ]

-- An accepted code is a valid one.
check_mfa-SecondFactor :
    (checks : Checks) (now : Time) (user : User) (code : String) (tbl : UserTable)
    → (check_mfa checks now user code tbl).2 ≡ true
    → SecondFactor checks now code user tbl (check_mfa checks now user code tbl).0
unfolding check_mfa
check_mfa-SecondFactor checks now user code tbl good =
    elim (Bool-cases (checks.validate_mfa_code user.mfa_secret code)) [
      | inl valid ↦ totp valid (rw valid refl)
      | inr other ↦ elim (Option-cases (validate_backup_code checks code user.backup_codes)) [
        | inl absent ↦ absurd (let g = good in ground (arith, other, absent))
        | inr (hash, is) ↦
            let verified = validate_backup_code-verified checks code user.backup_codes hash is in
            elim (Result-cases (consume_backup_code now user.id hash tbl).1) [
              | inr (e, refused) ↦ absurd (let g = good in ground (arith, other, is, refused))
              | inl (false, lost) ↦ absurd (let g = good in ground (arith, other, is, lost))
              | inl (true, won) ↦ backup hash verified (rw won refl) (rw (other, is) (rw won refl))
            ]
      ]
    ]

module _ (checks : Checks) (cfg : GuardConfig) (clock : ReauthClock) (creds : Credentials) where
  -- The tests that an accepted request has passed.
  check_credentials-passed :
      (user out : User) (tbl : UserTable)
      → (check_credentials checks cfg clock creds user tbl).1 ≡ accepted out
      → (is_locked clock.now user.locked_until ≡ false)
        × (checks.verify_password creds.password user.password_hash ≡ true)
        × (str_eq creds.confirm user.username ≡ true)
        × SecondFactor checks clock.consumed creds.mfa_code user tbl
            (check_credentials checks cfg clock creds user tbl).0
  unfolding check_credentials
  check_credentials-passed user out tbl done =
      let unlocked : is_locked clock.now user.locked_until ≡ false = ground (arith) in
      let right : checks.verify_password creds.password user.password_hash ≡ true =
        ground (arith) in
      let same : str_eq creds.confirm user.username ≡ true = ground (arith) in
      let given : (user.mfa_enabled && str_eq creds.mfa_code "") ≡ false = ground (arith) in
      let good : (user.mfa_enabled
            && not (check_mfa checks clock.consumed user creds.mfa_code tbl).2)
          ≡ false =
        ground (arith) in
      (
        unlocked,
        right,
        same,
        elim (Bool-cases user.mfa_enabled) [
          | inr off ↦ no_mfa off (ground (arith))
          | inl on ↦
              let after : (check_credentials checks cfg clock creds user tbl).0
                  ≡ (check_mfa checks clock.consumed user creds.mfa_code tbl).0 =
                ground (arith) in
              rw after (
                check_mfa-SecondFactor checks clock.consumed user creds.mfa_code tbl
                  (ground (arith)))
        ],
      )

  -- A request that `reauthenticate` lets through is for an account of the store that is not
  -- locked, with its password, its name typed as confirmation and, where MFA is on, a valid code or a
  -- stored backup code, which is then dropped; else no user has changed.
  pub reauthenticate-IsVerified :
      (origin : Origin) (id : String) (tbl : UserTable) (m : Windows) (out : User)
      → (reauthenticate checks cfg clock origin id creds tbl m).2 ≡ accepted out
      → IsVerified checks clock id creds tbl
          (reauthenticate checks cfg clock origin id creds tbl m).0
  unfolding reauthenticate
  reauthenticate-IsVerified origin id tbl m out done = elim (Result-cases (get_user id tbl)) [
    | inr (e, absent) ↦ absurd (let g = done in ground (arith, absent))
    | inl (user, stored) ↦
        elim (Option-cases (begin_attempt checks cfg clock.begun origin user.username m).1) [
          | inl refused ↦ absurd (let g = done in ground (arith, stored, refused))
          | inr (attempt, begun) ↦
              let checked : (check_credentials checks cfg clock creds user tbl).1 ≡ accepted out =
                ground (arith, stored, begun) in
              let (unlocked, right, same, second) = check_credentials-passed user out tbl checked in
              record {
                user = user;
                stored = stored;
                unlocked = unlocked;
                password = right;
                confirmed = (eq_iff creds.confirm user.username).0 same;
                factor = rw (stored, reauthenticate) (rw begun second);
              }
        ]
  ]
