-- ===== src/Examples/Wallets.antt =====
-- Lightning logins.
use cloistr_signer.Prelude.{
  String, Bool, true, false, Option, none, some, List, [], ◌∷◌, ◌≡◌, ◌≢◌, refl, arith, eq_iff,
  str_eq,
}
use cloistr_signer.Prelude.Dict.{lookup, delete, insert}
use cloistr_signer.Storage.Types.{UserTable, Time, ok}
use cloistr_signer.Storage.WebSessions.{WebTable}
use cloistr_signer.Storage.Users.{get_user}
use cloistr_signer.Storage.Lightning.{
  LightningKey, LightningTable, LightningChallenge, Challenges, default_status,
  create_lightning_challenge, live_lightning_challenge, authenticate_lightning_challenge,
  consume_lightning_challenge, get_lightning_challenge, get_lightning_challenge_by_session,
  get_lightning_key_by_linking_key,
}
use cloistr_signer.Storage.Lightning.Phases.{
  IsTable, ChallengeCall, create, authenticate, step, run, Move, phase,
}
use cloistr_signer.Storage.Lightning.Moves.{view, step-Move}
use cloistr_signer.Storage.Lightning.Backed.{
  any_call, opens_for, signs_for, consume_lightning_challenge-backed,
}
use cloistr_signer.Storage.Lightning.Once.{IsSole}
use cloistr_signer.Api.Lightning.{
  LoginState, CallbackClock, lnurl_ok, handle_lnurl_auth_callback, login_key,
  claim_lightning_challenge,
}
use cloistr_signer.Api.Lightning.Callback.{IsAuthentic, handle_lnurl_auth_callback-IsAuthentic}
use cloistr_signer.Api.Lightning.Browser.{
  PollInput, signed_in, store_login, complete_lightning_login, handle_lightning_status,
}
use cloistr_signer.Api.Lightning.Poll.{handle_lightning_status-once}
use cloistr_signer.Examples.Accounts.{no_users}

abbrev a_challenge : LightningChallenge
a_challenge = record {
  k1 = "c1";
  session_id = "s1";
  status = "pending";
  user_id = "";
  bound_user_id = "";
  is_link = false;
  linking_key = "";
  expires_at = 10;
  created_at = 1;
}

abbrev signed_challenge : LightningChallenge
signed_challenge = record a_challenge {
  status = "authenticated";
  user_id = "u1";
  linking_key = "wallet";
}

abbrev waiting_table : Challenges
waiting_table = ("c1", a_challenge) ∷ []

abbrev signed_table : Challenges
signed_table = ("c1", signed_challenge) ∷ []

challenge_at :
    (c : LightningChallenge) (k : String) (x : LightningChallenge) (m : Challenges)
    → m ≡ (("c1", c) ∷ [])
    → c.k1 ≡ "c1"
    → lookup k m ≡ some x
    → x.k1 ≡ k
unfolding lookup
challenge_at c k x m e own at = ground (arith, eq_iff "c1" k)

waiting-IsTable : IsTable waiting_table
unfolding lookup
waiting-IsTable = record {
  distinct = (refl, tt);
  keyed = λ k x at. challenge_at a_challenge k x waiting_table refl refl at;
}

signed-IsTable : IsTable signed_table
unfolding lookup
signed-IsTable = record {
  distinct = (refl, tt);
  keyed = λ k x at. challenge_at signed_challenge k x signed_table refl refl at;
}

step-Move_example :
    Move "c1"
      (view waiting_table)
      (view (step (authenticate 5 "c1" "u1" "wallet") waiting_table))
      (phase "c1" waiting_table)
      (authenticate 5 "c1" "u1" "wallet")
      (phase "c1" (step (authenticate 5 "c1" "u1" "wallet") waiting_table))
step-Move_example =
    step-Move "c1" (authenticate 5 "c1" "u1" "wallet") waiting_table waiting-IsTable refl

abbrev login_calls : List ChallengeCall
login_calls = create a_challenge ∷ authenticate 5 "c1" "u1" "wallet" ∷ []

login_won : (consume_lightning_challenge 6 "s1" (run login_calls [])).1 ≡ ok "u1"
unfolding consume_lightning_challenge run step create_lightning_challenge default_status
    authenticate_lightning_challenge live_lightning_challenge insert delete
login_won = refl

consume_lightning_challenge-backed_example :
    (k1 : String) × (any_call (opens_for k1 "s1") login_calls ≡ true)
    × (any_call (signs_for k1 "u1") login_calls ≡ true)
consume_lightning_challenge-backed_example =
    consume_lightning_challenge-backed login_calls 6 "s1" "u1" (refl, (refl, tt)) login_won

abbrev a_wallet : LightningKey
a_wallet = record {
  id = "l1";
  user_id = "u1";
  linking_key = "wallet";
  name = "";
  created_at = 1;
  last_used_at = none;
  confirmed_at = none;
}

abbrev one_wallet : LightningTable
one_wallet = record {
  cell = λ _. a_wallet;
  next = 1;
  lightning_keys = ("l1", 0) ∷ [];
  by_linking_key = ("wallet", 0) ∷ [];
}

abbrev pub one_user : UserTable
one_user = record no_users {
  next = 1;
  users = ("u1", 0) ∷ [];
  users_by_username = ("ann", 0) ∷ [];
  users_by_email = [];
}

abbrev no_sessions : WebTable
no_sessions = record {
  cell = λ _. record {
    id = "";
    user_id = "";
    token = "";
    vault_token = "";
    cosign_listener_pubkey = "";
    user_agent = "";
    ip_address = "";
    remember_device = false;
    last_activity = none;
    expires_at = 0;
    created_at = 0;
  };
  next = 0;
  user_sessions = [];
  user_sessions_by_user = [];
}

abbrev login_state : Challenges → LoginState
login_state m = record { challenges = m; keys = one_wallet; users = one_user; web = no_sessions }

-- Accepts the signature "sig".
abbrev sig_only : String → String → String → Option Bool
sig_only k1 sig key = some (str_eq sig "sig")

abbrev callback_clock : CallbackClock
callback_clock = record { got = 4; created = 4; used = 5; claimed = 5 }

callback_ok :
    (handle_lnurl_auth_callback sig_only callback_clock "l2" "c1" "sig" "wallet"
      (login_state waiting_table)).1
    ≡ lnurl_ok
unfolding handle_lnurl_auth_callback get_lightning_challenge live_lightning_challenge login_key
    get_lightning_key_by_linking_key claim_lightning_challenge authenticate_lightning_challenge
    lookup
callback_ok = refl

handle_lnurl_auth_callback-IsAuthentic_example :
    IsAuthentic sig_only callback_clock "c1" "sig" "wallet"
      (login_state waiting_table)
      (handle_lnurl_auth_callback sig_only callback_clock "l2" "c1" "sig" "wallet"
        (login_state waiting_table)).0
handle_lnurl_auth_callback-IsAuthentic_example =
    handle_lnurl_auth_callback-IsAuthentic sig_only callback_clock "l2" "c1" "sig" "wallet"
      (login_state waiting_table) callback_ok

abbrev poll_at : Time → PollInput
poll_at t = record {
  got = t;
  consumed = t;
  created = t;
  logged_in = t;
  updated = t;
  session_id = "w1";
  user_agent = "";
  token = λ _ _. some ("token-of-sixteen", 100);
}

abbrev never : LightningKey → Bool
never _ = false

signed-IsSole : IsSole "s1" signed_table
unfolding lookup
signed-IsSole j k c d at at' own own' = ground (arith, eq_iff "c1" j, eq_iff "c1" k)

poll_won :
    (handle_lightning_status false never (poll_at 6) "s1" (login_state signed_table)).1
    ≡ signed_in "ann" "token-of-sixteen"
unfolding handle_lightning_status get_lightning_challenge_by_session live_lightning_challenge
    complete_lightning_login consume_lightning_challenge get_user store_login lookup
poll_won = refl

-- What is stored after the first poll and a replayed callback.
abbrev after_login : LoginState
after_login = record (login_state signed_table) {
  challenges =
      run (authenticate 7 "c1" "u1" "wallet" ∷ [])
        (handle_lightning_status false never (poll_at 6) "s1"
          (login_state signed_table)).0.challenges;
}

handle_lightning_status-once_example :
    (handle_lightning_status false never (poll_at 8) "s1" after_login).1
    ≢ signed_in "ann" "token-of-sixteen"
handle_lightning_status-once_example =
    handle_lightning_status-once false never never (poll_at 6) (poll_at 8) "s1" "ann"
      "token-of-sixteen" "ann" "token-of-sixteen" (login_state signed_table) after_login
      (authenticate 7 "c1" "u1" "wallet" ∷ []) signed-IsTable signed-IsSole poll_won (refl, tt) refl
