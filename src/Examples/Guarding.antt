-- ===== src/Examples/Guarding.antt =====
-- Checks of a password, and recoveries.
use cloistr_signer.Prelude.{String, true, false, none, some, List, [], ◌∷◌, ◌≡◌, refl, str_eq}
use cloistr_signer.Prelude.Dict.{lookup, size, values}
use cloistr_signer.Storage.Types.{KeyTable, Time, ok, err, challenge_not_found}
use cloistr_signer.Storage.Users.{get_user, update_user}
use cloistr_signer.Storage.Keys.{list_keys}
use cloistr_signer.Storage.Consents.{get_setting}
use cloistr_signer.Storage.Recovery.{
  RecoveryChallenge, RecoveryChallenges, consume_recovery_challenge,
}
use cloistr_signer.Storage.Recovery.Once
use cloistr_signer.Signer.Types.{Event}
use cloistr_signer.RateLimit.{Windows, allow, sweep}
use cloistr_signer.Guard.{
  Checks, GuardConfig, Origin, begin_attempt, reserve_account, reserve_ip, attempt_window,
  check_mfa,
}
use cloistr_signer.Guard.Reauth.{ReauthClock, accepted, check_credentials, reauthenticate}
use cloistr_signer.Guard.Lockout.{HasUser}
use cloistr_signer.Guard.Tries.{Try, run_tries, IsLimited, run_tries-IsLimited}
use cloistr_signer.Guard.Verified.{IsVerified, reauthenticate-IsVerified}
use cloistr_signer.Api.Proof.{
  RecoveryLibrary, is_challenge_tag, carries_challenge, check_proof, verify_recovery_proof,
}
use cloistr_signer.Api.Identity.{first_primary, resolve_signing_pubkey}
use cloistr_signer.Api.Recovery.{
  RecoveryState, RecoveryRequest, RecoveryClock, recovered, recovery_disabled, restore_key,
  stranded_keys, reset_password, recover_account, handle_recovery_complete, recovery_opt_out_key,
}
use cloistr_signer.Api.Recovery.Proven.{IsRecovered, handle_recovery_complete-IsRecovered}
use cloistr_signer.Examples.{a_key, table}
use cloistr_signer.Examples.Accounts.{a_user}
use cloistr_signer.Examples.Wallets.{one_user}

-- The hash of a password is the password.
abbrev plain : Checks
plain = record {
  account_hash = λ u. u;
  verify_password = λ password hash. str_eq password hash;
  validate_mfa_code = λ secret code. str_eq code "123456";
}

abbrev five_tries : GuardConfig
five_tries = record {
  has_limiter = true;
  attempt_window_minutes = 15;
  attempts_per_account = 10;
  attempts_per_ip = 0;
  max_failed_attempts = 5;
  lockout_duration = 1000;
}

abbrev clock_at : Time → ReauthClock
clock_at t = record {
  begun = record { account = t; counted = t; reserved = t; ip_released = t; released = λ _. t };
  now = t;
  counted = t;
  locked = t;
  start = t;
  consumed = t;
  released = λ _. t;
}

abbrev an_origin : Origin
an_origin = record { ip = ""; cur = ""; prev = "" }

abbrev a_try : String → Time → Try
a_try password t = record {
  clock = clock_at t;
  origin = an_origin;
  creds = record { password = password; mfa_code = "123456"; confirm = "ann" };
}

abbrev no_windows : Windows
no_windows = []

stored_user : HasUser "u1" 0 none one_user
unfolding lookup
stored_user = record { place = 0; found = refl; attempts = refl; lock = refl; own_id = refl }

-- The last of two allowed failures.
abbrev two_tries : GuardConfig
two_tries = record five_tries { max_failed_attempts = 2 }

abbrev wrong_tries : List Try
wrong_tries = a_try "x" 5 ∷ a_try "y" 6 ∷ []

run_tries-IsLimited_example :
    IsLimited two_tries "u1" 0 none
      (run_tries plain two_tries "u1" wrong_tries one_user []).2
      (run_tries plain two_tries "u1" wrong_tries one_user []).0
run_tries-IsLimited_example =
    run_tries-IsLimited plain two_tries "u1" wrong_tries 0 none one_user [] stored_user

let_in :
    (reauthenticate plain five_tries
      (clock_at 5)
      an_origin
      "u1"
      (a_try "" 5).creds
      one_user
      no_windows).2
    ≡ accepted a_user
unfolding reauthenticate get_user begin_attempt reserve_account reserve_ip attempt_window allow
    sweep check_credentials check_mfa lookup size
let_in = refl

reauthenticate-IsVerified_example :
    IsVerified plain
      (clock_at 5)
      "u1"
      (a_try "" 5).creds
      one_user
      (reauthenticate plain five_tries
        (clock_at 5)
        an_origin
        "u1"
        (a_try "" 5).creds
        one_user
        no_windows).0
reauthenticate-IsVerified_example =
    reauthenticate-IsVerified plain five_tries (clock_at 5) (a_try "" 5).creds an_origin "u1"
      one_user no_windows a_user let_in

abbrev a_recovery : RecoveryChallenge
a_recovery = record { id = "r1"; user_id = "u1"; expires_at = 10; created_at = 1; used_at = none }

abbrev one_recovery : RecoveryChallenges
one_recovery = ("r1", a_recovery) ∷ []

recovery_won :
    (consume_recovery_challenge 5 6 "r1" one_recovery).1
    ≡ ok (record a_recovery { used_at = some 6 })
unfolding consume_recovery_challenge lookup
recovery_won = refl

consume_recovery_challenge-run_example :
    (consume_recovery_challenge 8 8 "r1"
      (Once.run (Once.clean 7 ∷ []) (consume_recovery_challenge 5 6 "r1" one_recovery).0)).1
    ≡ err challenge_not_found
consume_recovery_challenge-run_example =
    Once.consume_recovery_challenge-run 5 6 "r1" one_recovery
      (record a_recovery { used_at = some 6 }) (Once.clean 7 ∷ []) 8 8 recovery_won (refl, tt)

abbrev pub a_proof : Event
a_proof = record {
  id = "";
  pubkey = "k1";
  created_at = 4;
  kind = 27235;
  tags = ("challenge" ∷ "r1" ∷ []) ∷ [];
  content = "";
  sig = "sig";
}

abbrev pub plain_library : RecoveryLibrary
plain_library = record {
  trim = λ s. s;
  parse_event = λ _. some a_proof;
  event_time = λ t. t;
  check_signature = λ ev. str_eq ev.sig "sig";
  decode_nsec = λ _. none;
  is_hex = λ _. true;
  public_key_of = λ _. some "k1";
  encrypt = λ _ text. some text;
  hash_password = λ password. some password;
}

-- The user's one key is "k1".
abbrev owned_table : KeyTable
owned_table = record (table false) { cell = λ _. record (a_key false) { owner_id = "u1" } }

abbrev pub before_recovery : RecoveryState
before_recovery = record {
  challenges = one_recovery;
  users = one_user;
  key_table = owned_table;
  settings = [];
  keys = [];
  proxy_keys = [];
}

abbrev a_request : RecoveryRequest
a_request = record {
  challenge = "r1";
  signed_event = "event";
  new_password = "long enough";
  nsec = "";
}

abbrev pub recovery_clock : RecoveryClock
recovery_clock = record { tested = 5; marked = 6; proved = 6; updated = 7 }

recovery_done :
    (handle_recovery_complete plain_library recovery_clock false a_request before_recovery).1
    ≡ recovered 0 [] false
unfolding handle_recovery_complete consume_recovery_challenge verify_recovery_proof check_proof
    carries_challenge is_challenge_tag recover_account recovery_disabled recovery_opt_out_key
    get_setting resolve_signing_pubkey list_keys values first_primary restore_key reset_password
    get_user update_user stranded_keys lookup
recovery_done = refl

handle_recovery_complete-IsRecovered_example :
    IsRecovered plain_library recovery_clock a_request before_recovery
      (handle_recovery_complete plain_library recovery_clock false a_request before_recovery).0
handle_recovery_complete-IsRecovered_example =
    handle_recovery_complete-IsRecovered plain_library recovery_clock false a_request
      before_recovery 0 [] false recovery_done
