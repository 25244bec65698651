-- ===== src/Examples/Recovering.antt =====
-- Requests for a recovery challenge.
use cloistr_signer.Prelude.{true, arith, none, some, [], ◌∷◌, ◌≡◌, refl}
use cloistr_signer.Prelude.Dict.{lookup, insert, size}
use cloistr_signer.Storage.Users.{get_user_by_username}
use cloistr_signer.Storage.Recovery.{RecoveryChallenge}
use cloistr_signer.RateLimit.{allow, allow_ip, count, sweep}
use cloistr_signer.Api.Proof.{
  verify_recovery_proof, check_proof, carries_challenge, is_challenge_tag,
}
use cloistr_signer.Api.Recovery.{bad_proof, handle_recovery_complete}
use cloistr_signer.Api.Recovery.Challenge.{
  ChallengeLibrary, ChallengeConfig, ChallengeRequest, ChallengeClock, is_username_tag,
  has_username_tag, check_work, work_error, allow_address, allow_challenge, issued,
  handle_recovery_challenge,
}
use cloistr_signer.Api.Recovery.Issued.{
  handle_recovery_challenge-same, handle_recovery_complete-unproven,
}
use cloistr_signer.Examples.Accounts.{no_users}
use cloistr_signer.Examples.Wallets.{one_user}
use cloistr_signer.Examples.Guarding.{a_proof, plain_library, before_recovery, recovery_clock}

abbrev challenge_library : ChallengeLibrary
challenge_library = record {
  lower = λ s. s;
  trim = λ s. s;
  before_comma = λ s. s;
  parse_event = λ _. some (record a_proof { tags = ("u" ∷ "ann" ∷ []) ∷ [] });
  event_time = λ t. t;
  committed_difficulty = λ _. 20;
  hash_key = λ s. s;
  ip_keys = λ ip. (ip, "");
}

abbrev all_layers : ChallengeConfig
all_layers = record {
  pow_difficulty = 18;
  has_limiter = true;
  has_hasher = true;
  global_limit = 9;
  global_window = 100;
  per_username_limit = 3;
  per_username_window = 100;
  trusted_proxy_header = "ip";
  per_ip_limit = 2;
  per_ip_window = 100;
}

abbrev challenge_clock : ChallengeClock
challenge_clock = record {
  worked = 4;
  global = 4;
  named = 4;
  counted = 4;
  reserved = 4;
  released = 4;
  issued = 4;
}

abbrev for_ann : ChallengeRequest
for_ann = record { username = "ann"; pow_event = "work"; header = λ _. "10.0.0.1" }

ann_issued :
    (handle_recovery_challenge challenge_library all_layers challenge_clock
      (some "n1")
      for_ann
      one_user
      []
      []).1
    ≡ issued "n1" 300000000004
unfolding handle_recovery_challenge work_error check_work has_username_tag is_username_tag
    allow_challenge allow_address allow allow_ip count sweep size lookup insert
ann_issued = refl

handle_recovery_challenge-same_example :
    ((handle_recovery_challenge challenge_library all_layers challenge_clock
        (some "n1")
        for_ann
        one_user
        []
        []).1
      ≡ (handle_recovery_challenge challenge_library all_layers challenge_clock
          (some "n1")
          for_ann
          no_users
          []
          []).1)
    × ((handle_recovery_challenge challenge_library all_layers challenge_clock
          (some "n1")
          for_ann
          one_user
          []
          []).0.0
        ≡ (handle_recovery_challenge challenge_library all_layers challenge_clock
            (some "n1")
            for_ann
            no_users
            []
            []).0.0)
handle_recovery_challenge-same_example =
    handle_recovery_challenge-same challenge_library all_layers challenge_clock (some "n1") for_ann
      [] one_user no_users [] []

wrong_tag : verify_recovery_proof plain_library 6 "event" "n1" ≡ none
unfolding verify_recovery_proof check_proof carries_challenge is_challenge_tag
wrong_tag = refl

no_n1 : lookup {V = RecoveryChallenge} "n1" [] ≡ none
unfolding lookup
no_n1 = refl

handle_recovery_complete-unproven_example :
    (handle_recovery_complete plain_library recovery_clock true
      (record { challenge = "n1"; signed_event = "event"; new_password = "long enough"; nsec = "" })
      (record before_recovery {
        challenges =
            (handle_recovery_challenge challenge_library all_layers challenge_clock
              (some "n1")
              for_ann
              one_user
              []
              []).0.1;
      })).1
    ≡ bad_proof
unfolding get_user_by_username lookup
handle_recovery_complete-unproven_example =
    handle_recovery_complete-unproven challenge_library all_layers challenge_clock "n1" for_ann
      one_user [] [] 300000000004 ann_issued no_n1 plain_library recovery_clock true "event"
      "long enough" "" before_recovery (omega (arith)) (omega (arith)) wrong_tag
