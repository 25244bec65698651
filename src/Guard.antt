-- ===== src/Guard.antt =====
-- internal/authguard/authguard.go and `ValidateBackupCode` of internal/auth/auth.go: attempt limits,
-- lockout and MFA, which every check of a password shares, on the limiter in memory and `MemoryStorage`.
-- The hash of a user name, bcrypt and TOTP are parameters. Each reading of the clock is an argument.
pub mod Reauth
pub mod Lockout
pub mod Tries
pub mod Verified
use cloistr_signer.Prelude.{
  ℕ, ◌+◌, ◌*◌, String, Bool, true, false, not, ◌&&◌, Option, none, some, List, [], ◌∷◌,
  if◌then◌else◌, leb, ltb, str_eq,
}
use Prim.Native.String.{◌++◌}
use cloistr_signer.Storage.Types.{Time, User, UserTable, Result, ok, err}
use cloistr_signer.Storage.Users.{
  increment_failed_logins, lock_user, remove_code, consume_backup_code,
}
use cloistr_signer.RateLimit.{Windows, allow, allow_ip, release}

-- What the guard calls of packages that are not in the repository.
pub record Checks : Type 0 where
  -- `ratelimit.HashKey(strings.ToLower(strings.TrimSpace(username)))`
  pub account_hash : String → String
  pub verify_password : String → String → Bool
  pub validate_mfa_code : String → String → Bool

-- The fields of `Guard` and its configuration. `per_ip` is `Cfg.Auth.AttemptsPerIP`, 0 where there is no
-- `IPHasher` or no trusted header.
pub record GuardConfig : Type 0 where
  pub has_limiter : Bool
  pub attempt_window_minutes : ℕ
  pub attempts_per_account : ℕ
  pub attempts_per_ip : ℕ
  pub max_failed_attempts : ℕ
  pub lockout_duration : Time

-- The request's address, "" for none, and its keys of `IPHasher.Keys`.
pub record Origin : Type 0 where
  pub ip : String
  pub cur : String
  pub prev : String

-- The readings of the clock in `Begin` and in the releases of its keys.
pub record BeginClock : Type 0 where
  pub account : Time
  pub counted : Time
  pub reserved : Time
  pub ip_released : Time
  pub released : String → Time

pub record Attempt : Type 0 where
  pub keys : List String
  pub failed : Bool

abbrev pub minute : Time
minute = 60 * 1000000000

unfoldable pub attempt_window : ℕ → Time
attempt_window minutes = if ltb 0 minutes then minutes * minute else 15 * minute

unfoldable pub release_keys : (String → Time) → List String → Windows → Windows
release_keys released [] m = m
release_keys released (k ∷ keys) m = release_keys released keys (release (released k) k m)

abbrev pub account_key : Checks → String → String
account_key checks username = "auth:acct:" ++ checks.account_hash username

-- The reservation for the account: the keys it holds, `none` if it is refused.
unfoldable pub reserve_account :
    Checks → GuardConfig → BeginClock → String → Windows → Windows × Option (List String)
reserve_account checks cfg clock username m =
    let key = account_key checks username in
    let (m', allowed) =
      allow clock.account key cfg.attempts_per_account (attempt_window cfg.attempt_window_minutes)
        m in
    if not (ltb 0 cfg.attempts_per_account)
    then (m, some [])
    else if not allowed
    then (release (clock.released key) key m', none)
    else (m', some (key ∷ []))

abbrev pub append_key : String → List String → List String
append_key key [] = key ∷ []
append_key key (k ∷ keys) = k ∷ append_key key keys

-- The reservation for the address, with the keys that are held already.
unfoldable pub reserve_ip :
    GuardConfig → BeginClock → Origin → List String → Windows → Windows × Option (List String)
reserve_ip cfg clock origin keys m =
    let (m', allowed, key) =
      allow_ip clock.counted clock.reserved clock.ip_released "auth:ip:" origin.cur origin.prev
        cfg.attempts_per_ip (attempt_window cfg.attempt_window_minutes) m in
    if not (ltb 0 cfg.attempts_per_ip && not (str_eq origin.ip ""))
    then (m, some keys)
    else if not allowed
    then (release_keys clock.released keys m', none)
    else if str_eq key ""
    then (m', some keys)
    else (m', some (append_key key keys))

abbrev pub new_attempt : Option (List String) → Option Attempt
new_attempt none = none
new_attempt (some keys) = some (record { keys = keys; failed = false })

unfoldable pub begin_attempt :
    Checks → GuardConfig → BeginClock → Origin → String → Windows → Windows × Option Attempt
begin_attempt checks cfg clock origin username m =
    if not cfg.has_limiter
    then (m, new_attempt (some []))
    else let (m1, account) = reserve_account checks cfg clock username m in
      elim account [
        | none ↦ (m1, none)
        | some keys ↦ let (m2, held) = reserve_ip cfg clock origin keys m1 in (m2, new_attempt held)
      ]

-- `Fail` for a known user, of whom `user` is the request's copy. The readings of the clock are the
-- increment's, the lock's and the start of the lockout.
unfoldable pub fail_attempt : GuardConfig → Time → Time → Time → User → UserTable → UserTable
fail_attempt cfg counted locked start user tbl =
    let counted_tbl = (increment_failed_logins counted user.id tbl).0 in
    if leb cfg.max_failed_attempts (user.failed_login_attempts + 1)
    then (lock_user locked user.id (start + cfg.lockout_duration) counted_tbl).0
    else counted_tbl

unfoldable pub end_attempt : (String → Time) → Attempt → Windows → Windows
end_attempt released attempt m = if attempt.failed then m else release_keys released attempt.keys m

-- The first stored code whose hash the code has.
unfoldable pub validate_backup_code : Checks → String → List String → Option String
validate_backup_code checks code [] = none
validate_backup_code checks code (hash ∷ hashes) =
    let rest = validate_backup_code checks code hashes in
    if checks.verify_password code hash then some hash else rest

-- The request's copy of the user once a code is used.
unfoldable pub drop_code : String → User → User
drop_code hash user = elim (remove_code hash user.backup_codes) [
  | none ↦ user
  | some left ↦ record user { backup_codes = left; backup_codes_used = user.backup_codes_used + 1 }
]

unfoldable pub check_mfa : Checks → Time → User → String → UserTable → UserTable × User × Bool
check_mfa checks now user code tbl =
    if checks.validate_mfa_code user.mfa_secret code
    then (tbl, user, true)
    else elim (validate_backup_code checks code user.backup_codes) [
      | none ↦ (tbl, user, false)
      | some hash ↦
          let (tbl', verdict) = consume_backup_code now user.id hash tbl in
          elim verdict [
            | err _ ↦ (tbl', user, false)
            | ok won ↦ if won then (tbl', drop_code hash user, true) else (tbl', user, false)
          ]
    ]
