-- ===== src/Guard/Reauth.antt =====
-- internal/api/reauth.go: `reauthenticate`, which gates the deletion of an account and the export of its
-- keys. Each reading of the clock is an argument.
use cloistr_signer.Prelude.{
  String, Bool, true, false, not, ◌&&◌, Option, none, some, if◌then◌else◌, ltb, str_eq,
}
use cloistr_signer.Storage.Types.{Time, User, UserTable, ok, err}
use cloistr_signer.Storage.Users.{get_user}
use cloistr_signer.RateLimit.{Windows}
use cloistr_signer.Guard.{
  Checks, GuardConfig, BeginClock, Origin, begin_attempt, fail_attempt, end_attempt, check_mfa,
}

-- The clock in `Begin`, at the test of the lock, in `Fail`, in the use of a backup code and in `End`.
pub record ReauthClock : Type 0 where
  pub begun : BeginClock
  pub now : Time
  pub counted : Time
  pub locked : Time
  pub start : Time
  pub consumed : Time
  pub released : String → Time

pub record Credentials : Type 0 where
  pub password : String
  pub mfa_code : String
  pub confirm : String

-- The response, or the user that the caller goes on with.
pub data Verdict : Type 0 where
  accepted : User → Verdict
  not_found too_many locked_out bad_credentials mfa_required bad_mfa not_confirmed : Verdict

abbrev pub is_locked : Time → Option Time → Bool
is_locked now none = false
is_locked now (some until) = ltb now until

-- What is decided once an attempt is begun, with the users after it and whether `Fail` was called.
unfoldable pub check_credentials :
    Checks → GuardConfig → ReauthClock → Credentials → User → UserTable → UserTable × Verdict × Bool
check_credentials checks cfg clock creds user users =
    let failed : User → UserTable → UserTable =
      λ u tbl. fail_attempt cfg clock.counted clock.locked clock.start u tbl in
    let (users', user', good_mfa) = check_mfa checks clock.consumed user creds.mfa_code users in
    if is_locked clock.now user.locked_until
    then (users, locked_out, false)
    else if not (checks.verify_password creds.password user.password_hash)
    then (failed user users, bad_credentials, true)
    else if user.mfa_enabled && str_eq creds.mfa_code ""
    then (users, mfa_required, false)
    else if user.mfa_enabled && not good_mfa
    then (failed user' users', bad_mfa, true)
    else if not (str_eq creds.confirm user.username)
    then ((if user.mfa_enabled then users' else users), not_confirmed, false)
    else if user.mfa_enabled
    then (users', accepted user', false)
    else (users, accepted user, false)

unfoldable pub reauthenticate :
    Checks
    → GuardConfig
    → ReauthClock
    → Origin
    → String
    → Credentials
    → UserTable
    → Windows
    → UserTable × Windows × Verdict
reauthenticate checks cfg clock origin user_id creds users m = elim (get_user user_id users) [
  | err _ ↦ (users, m, not_found)
  | ok user ↦
      let (m', begun) = begin_attempt checks cfg clock.begun origin user.username m in
      elim begun [
        | none ↦ (users, m', too_many)
        | some attempt ↦
            let (users', verdict, failed) = check_credentials checks cfg clock creds user users in
            (users', end_attempt clock.released (record attempt { failed = failed }) m', verdict)
      ]
]
