-- ===== src/Examples/Accounts.antt =====
-- Users, their sessions and their attempts.
use cloistr_signer.Prelude.{
  ◌≤◌, ◌<◌, String, true, false, none, some, List, [], ◌∷◌, ◌≡◌, refl, ◌≢◌, arith, least,
}
use cloistr_signer.Prelude.Dict.{lookup, insert, size}
use cloistr_signer.Storage.Types.{User, UserTable, ok}
use cloistr_signer.Storage.WebSessions.{
  UserSession, WebTable, create_user_session, get_user_session, delete_user_sessions, delete_each,
  sessions_of,
}
use cloistr_signer.Storage.WebSessions.Owned.{IsOwned}
use cloistr_signer.Storage.WebSessions.Logout
use cloistr_signer.Storage.Users.{create_user, get_user, get_user_by_username, update_user}
use cloistr_signer.Storage.Users.Codes.{accepted, attempts, stored_codes, accepted-least}
use cloistr_signer.Storage.Users.Fresh.Calls.{IsFresh}
use cloistr_signer.Storage.Users.Fresh.Lookups.{run, step, create, change, run-get_user_by_username}
use cloistr_signer.RateLimit.{Window, Windows, allow, allow_ip, count, sweep}
use cloistr_signer.RateLimit.Budget.{reserve, give_back, granted, requests, granted-reserve}
use cloistr_signer.RateLimit.Refusal.{allow_ip_refused}

abbrev pub a_user : User
a_user = record {
  id = "u1";
  username = "ann";
  email = "ann@example.org";
  pubkey = "";
  role = "user";
  password_hash = "";
  mfa_secret = "";
  mfa_enabled = true;
  backup_codes = "c1" ∷ "c2" ∷ [];
  backup_codes_used = 0;
  failed_login_attempts = 0;
  locked_until = none;
  last_login_at = none;
  last_login_ip = "";
  created_at = 1;
  updated_at = 1;
}

abbrev pub no_users : UserTable
no_users = record {
  cell = λ _. a_user;
  next = 0;
  users = [];
  users_by_username = [];
  users_by_email = [];
}

no_users-IsFresh : IsFresh no_users
unfolding lookup
no_users-IsFresh = record {
  stored = λ id r found. absurd (cc);
  by_username = λ n s found. absurd (cc);
  by_email = λ n s found. absurd (cc);
  no_empty = refl;
}

abbrev renamed : User
renamed = record a_user { username = "anna" }

found_by_username :
    get_user_by_username "anna" (run (create a_user ∷ change 5 renamed ∷ []) no_users)
    ≡ ok (record renamed { updated_at = 5 })
unfolding get_user_by_username run step create_user update_user lookup insert
found_by_username = refl

run-get_user_by_username_example :
    (renamed.username ≡ "anna")
    × (get_user "u1" (run (create a_user ∷ change 5 renamed ∷ []) no_users)
        ≡ ok (record renamed { updated_at = 5 }))
run-get_user_by_username_example =
    run-get_user_by_username (create a_user ∷ change 5 renamed ∷ []) no_users "anna"
      (record renamed { updated_at = 5 }) no_users-IsFresh found_by_username

accepted-least_example :
    accepted "u1" "c1" (5 ∷ 5 ∷ 6 ∷ []) (run (create a_user ∷ []) no_users)
    ≡ least (attempts (5 ∷ 5 ∷ 6 ∷ [])) (stored_codes "u1" "c1" (run (create a_user ∷ []) no_users))
accepted-least_example =
    accepted-least "u1" "c1" (5 ∷ 5 ∷ 6 ∷ []) (run (create a_user ∷ []) no_users)

abbrev a_session : String → String → UserSession
a_session id user_id = record {
  id = id;
  user_id = user_id;
  token = "";
  vault_token = "";
  cosign_listener_pubkey = "";
  user_agent = "";
  ip_address = "";
  remember_device = false;
  last_activity = none;
  expires_at = 100;
  created_at = 1;
}

abbrev no_sessions : WebTable
no_sessions = record {
  cell = λ _. a_session "" "";
  next = 0;
  user_sessions = [];
  user_sessions_by_user = [];
}

no_sessions-IsOwned : IsOwned no_sessions
unfolding lookup
no_sessions-IsOwned = record {
  owned = λ id r found. absurd (cc);
  allocated = λ id r found. absurd (cc);
}

abbrev signed_in : List Logout.WebCall
signed_in =
    Logout.WebCall.create (a_session "w1" "u1") ∷ Logout.WebCall.create (a_session "w2" "u2") ∷ []

other_found :
    get_user_session 9 "w2" (delete_user_sessions "u1" (Logout.run signed_in no_sessions))
    ≡ ok (a_session "w2" "u2")
unfolding get_user_session delete_user_sessions create_user_session lookup insert delete_each
    sessions_of Logout.run Logout.step
other_found = refl

delete_user_sessions-get_user_session_example : (a_session "w2" "u2").user_id ≢ "u1"
delete_user_sessions-get_user_session_example =
    Logout.delete_user_sessions-get_user_session signed_in no_sessions "u1" 9 "w2"
      (a_session "w2" "u2") no_sessions-IsOwned other_found

abbrev empty : Windows
empty = []

no_window : (w : Window) → lookup "ip" empty ≡ some w → w.expires_at < 5
unfolding lookup
no_window w found = absurd (cc)

granted-reserve_example :
    granted "ip"
      (reserve 5 "ip" 2 10 ∷ reserve 6 "ip" 2 10 ∷ give_back 7 "x" ∷ reserve 8 "ip" 2 10 ∷ [])
      empty
    ≡ least
        (requests "ip"
          (reserve 5 "ip" 2 10 ∷ reserve 6 "ip" 2 10 ∷ give_back 7 "x" ∷ reserve 8 "ip" 2 10 ∷ []))
        2
granted-reserve_example =
    granted-reserve "ip" 2 5 10 (reserve 6 "ip" 2 10 ∷ give_back 7 "x" ∷ reserve 8 "ip" 2 10 ∷ [])
      empty no_window (omega arith, (λ _. refl), (refl, (omega arith, (λ _. refl), tt)))

abbrev spent : Windows
spent = ("ip:1", record { count = 2; expires_at = 50 }) ∷ []

still_open : (w : Window) → lookup "ip:1" spent ≡ some w → 6 ≤ w.expires_at → 7 < w.expires_at
unfolding lookup
still_open w found le = ground (arith, found)

refused : (allow_ip 5 6 7 "ip:" "1" "0" 2 40 spent).1 ≡ false
unfolding allow_ip allow count lookup insert sweep size
refused = refl

allow_ip_refused_example :
    count 8 "ip:1" (allow_ip 5 6 7 "ip:" "1" "0" 2 40 spent).0 ≡ count 8 "ip:1" spent
allow_ip_refused_example =
    allow_ip_refused 5 6 7 "ip:" "1" "0" 2 40 spent 8 "ip:1" still_open refused (omega arith)
