-- ===== src/Api/Recovery/Challenge.antt =====
-- internal/api/recovery.go: the first step of account recovery, which issues a challenge behind a proof of
-- work and three limits, on the limiter in memory. JSON, hashes, NIP-13 and random bytes are
-- parameters, and each reading of the clock is an argument.
use cloistr_signer.Prelude.{
  ℕ, ◌+◌, ◌*◌, String, Bool, true, false, not, ◌&&◌, ◌||◌, Option, none, some, List, [], ◌∷◌,
  if◌then◌else◌, ltb, str_eq,
}
use Prim.Native.String.{◌++◌}
use cloistr_signer.Storage.Types.{Time, UserTable, ok, err}
use cloistr_signer.Storage.Users.{get_user_by_username}
use cloistr_signer.Storage.Recovery.{RecoveryChallenges, create_recovery_challenge}
use cloistr_signer.RateLimit.{Windows, allow, allow_ip}
use cloistr_signer.Signer.Types.{Event}
use cloistr_signer.Api.Proof.{recovery_challenge_ttl}

-- 5 minutes.
abbrev work_window : Time
work_window = 5 * 60 * 1000000000

-- What the handler calls of packages that are not in the repository. `before_comma` is the part of a
-- text before its first comma, `ip_keys` the keys of an address under the current and the previous
-- secret.
pub record ChallengeLibrary : Type 0 where
  pub lower : String → String
  pub trim : String → String
  pub before_comma : String → String
  pub parse_event : String → Option Event
  pub event_time : ℕ → Time
  pub committed_difficulty : Event → ℕ
  pub hash_key : String → String
  pub ip_keys : String → String × String

-- `RecoveryConfig`, and whether the handler has a limiter and an `IPHasher`.
pub record ChallengeConfig : Type 0 where
  pub pow_difficulty : ℕ
  pub has_limiter : Bool
  pub has_hasher : Bool
  pub global_limit : ℕ
  pub global_window : Time
  pub per_username_limit : ℕ
  pub per_username_window : Time
  pub trusted_proxy_header : String
  pub per_ip_limit : ℕ
  pub per_ip_window : Time

-- `header` is the value of a header of the request.
pub record ChallengeRequest : Type 0 where
  pub username : String
  pub pow_event : String
  pub header : String → String

pub record ChallengeClock : Type 0 where
  pub worked : Time
  pub global : Time
  pub named : Time
  pub counted : Time
  pub reserved : Time
  pub released : Time
  pub issued : Time

-- Why a proof of work is refused; `weak_work` has the bits that were found.
pub data WorkError : Type 0 where
  no_work no_event stale_work unbound_work : WorkError
  weak_work : ℕ → WorkError

pub data ChallengeReply : Type 0 where
  no_username too_many no_nonce : ChallengeReply
  no_proof_of_work : WorkError → ChallengeReply
  issued : String → Time → ChallengeReply

unfoldable pub is_username_tag : String → List String → Bool
is_username_tag username (name ∷ value ∷ _) = str_eq name "u" && str_eq value username
is_username_tag username _ = false

unfoldable pub has_username_tag : String → List (List String) → Bool
has_username_tag username [] = false
has_username_tag username (tag ∷ tags) =
    is_username_tag username tag || has_username_tag username tags

-- The tests on an event that is offered as proof of work; `none` where it passes.
unfoldable pub check_work : ChallengeLibrary → ℕ → Time → String → Event → Option WorkError
check_work lib difficulty now username ev =
    let mined_at = lib.event_time ev.created_at in
    if ltb (mined_at + work_window) now || ltb (now + work_window) mined_at
    then some stale_work
    else if not (has_username_tag username ev.tags)
    then some unbound_work
    else if ltb (lib.committed_difficulty ev) difficulty
    then some (weak_work (lib.committed_difficulty ev))
    else none

unfoldable pub work_error : ChallengeLibrary → ℕ → Time → String → String → Option WorkError
work_error lib difficulty now username pow_event =
    if not (ltb 0 difficulty)
    then none
    else if str_eq pow_event ""
    then some no_work
    else elim (lib.parse_event pow_event) [
      | none ↦ some no_event
      | some ev ↦ check_work lib difficulty now username ev
    ]

-- The limit on the request's address. No trusted header, an empty one and an empty address have none.
unfoldable pub allow_address :
    ChallengeLibrary
    → ChallengeConfig
    → ChallengeClock
    → ChallengeRequest
    → Windows
    → Windows × Bool
allow_address lib cfg clock req m =
    let raw = req.header cfg.trusted_proxy_header in
    let ip = lib.trim (lib.before_comma raw) in
    let (cur, prev) = lib.ip_keys ip in
    let (m', allowed, _) =
      allow_ip clock.counted clock.reserved clock.released "" cur prev cfg.per_ip_limit
        cfg.per_ip_window m in
    if str_eq cfg.trusted_proxy_header "" || not cfg.has_hasher || str_eq raw "" || str_eq ip ""
    then (m, true)
    else (m', allowed)

-- The global limit, the limit on the name and the limit on the address, in this order.
unfoldable pub allow_challenge :
    ChallengeLibrary
    → ChallengeConfig
    → ChallengeClock
    → ChallengeRequest
    → String
    → Windows
    → Windows × Bool
allow_challenge lib cfg clock req username m =
    if not cfg.has_limiter
    then (m, true)
    else let (global_m, global_allowed) =
        allow clock.global "recovery:global" cfg.global_limit cfg.global_window m in
      if not global_allowed
      then (global_m, false)
      else let (name_m, name_allowed) =
          allow clock.named ("recovery:user:" ++ lib.hash_key username) cfg.per_username_limit
            cfg.per_username_window global_m in
        if not name_allowed then (name_m, false) else allow_address lib cfg clock req name_m

-- The row of a challenge, for a stored account only.
unfoldable pub store_recovery_challenge :
    Time → String → String → UserTable → RecoveryChallenges → RecoveryChallenges
store_recovery_challenge now nonce username users cs = elim (get_user_by_username username users) [
  | err _ ↦ cs
  | ok user ↦
      create_recovery_challenge
        (record {
          id = nonce;
          user_id = user.id;
          expires_at = now + recovery_challenge_ttl;
          created_at = now;
          used_at = none;
        })
        cs
]

-- The random value is `none` where `randomHex` fails.
unfoldable pub handle_recovery_challenge :
    ChallengeLibrary
    → ChallengeConfig
    → ChallengeClock
    → Option String
    → ChallengeRequest
    → UserTable
    → Windows
    → RecoveryChallenges
    → (Windows × RecoveryChallenges) × ChallengeReply
handle_recovery_challenge lib cfg clock random req users m cs =
    let username = lib.trim (lib.lower req.username) in
    if str_eq username ""
    then ((m, cs), no_username)
    else elim (work_error lib cfg.pow_difficulty clock.worked username req.pow_event) [
      | some e ↦ ((m, cs), no_proof_of_work e)
      | none ↦
          let (m', allowed) = allow_challenge lib cfg clock req username m in
          if not allowed then ((m', cs), too_many) else elim random [
            | none ↦ ((m', cs), no_nonce)
            | some nonce ↦ (
              (m', store_recovery_challenge clock.issued nonce username users cs),
              issued nonce (clock.issued + recovery_challenge_ttl),
            )
          ]
    ]
