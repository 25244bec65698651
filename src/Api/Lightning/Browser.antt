-- ===== src/Api/Lightning/Browser.antt =====
-- internal/api/handler_lightning.go: the browser's side of a Lightning sign-in, which polls until the
-- wallet has signed. The JWT library and random texts are parameters.
use cloistr_signer.Prelude.{
  String, Bool, false, not, ◌&&◌, ◌||◌, Option, none, some, if◌then◌else◌, str_eq,
}
use Prim.Native.String.{slice}
use cloistr_signer.Storage.Types.{Time, User, ok, err}
use cloistr_signer.Storage.Users.{get_user, update_user}
use cloistr_signer.Storage.WebSessions.{create_user_session}
use cloistr_signer.Storage.Lightning.{
  LightningKey, LightningTable, LightningChallenge, get_lightning_key_by_linking_key,
  delete_lightning_key, confirm_lightning_key, get_lightning_challenge_by_session,
  consume_lightning_challenge,
}
use cloistr_signer.Api.Lightning.{LoginState}

-- The reply to the browser; `signed_in` carries the user name and the token of the cookie.
pub data PollReply : Type 0 where
  signed_in : String → String → PollReply
  confirm_account : String → PollReply
  bad_request expired pending not_required unlinked server_error : PollReply

-- The clock and the random texts of a poll, with what the JWT library makes of a user and a session: a
-- token and its expiry. `user_agent` is the request's.
pub record PollInput : Type 0 where
  pub got : Time
  pub consumed : Time
  pub created : Time
  pub logged_in : Time
  pub updated : Time
  pub session_id : String
  pub user_agent : String
  pub token : User → String → Option (String × Time)

-- The key that signed the challenge, if this browser has not confirmed it yet; `confirmed` is
-- `lightningBrowserConfirmed` of the request.
unfoldable pub lightning_key_needs_confirm :
    (LightningKey → Bool) → LightningChallenge → LightningTable → Option LightningKey
lightning_key_needs_confirm confirmed c keys =
    if str_eq c.linking_key ""
    then none
    else elim (get_lightning_key_by_linking_key c.linking_key keys) [
      | err _ ↦ none
      | ok lk ↦ if not (str_eq lk.user_id c.user_id) || confirmed lk then none else some lk
    ]

-- `completeLightningLogin` once a token is made.
unfoldable pub store_login : PollInput → User → String → Time → LoginState → LoginState × PollReply
store_login input user token expires_at st = (
  record st {
    users =
        (update_user input.updated (record user { last_login_at = some input.logged_in })
          st.users).0;
    web =
        create_user_session
          (record {
            id = input.session_id;
            user_id = user.id;
            token = slice token 0 16;
            vault_token = "";
            cosign_listener_pubkey = "";
            user_agent = input.user_agent;
            ip_address = "";
            remember_device = false;
            last_activity = none;
            expires_at = expires_at;
            created_at = input.created;
          })
          st.web;
  },
  signed_in user.username token,
)

unfoldable pub complete_lightning_login : PollInput → String → LoginState → LoginState × PollReply
complete_lightning_login input session_id st =
    let (m, found) = consume_lightning_challenge input.consumed session_id st.challenges in
    elim found [
      | err _ ↦ (st, expired)
      | ok user_id ↦
          let st' = record st { challenges = m } in
          elim (get_user user_id st.users) [
            | err _ ↦ (st', server_error)
            | ok user ↦ elim (input.token user input.session_id) [
              | none ↦ (st', server_error)
              | some (token, expires_at) ↦ store_login input user token expires_at st'
            ]
          ]
    ]

-- `confirm_first` is `Lightning.ConfirmFirstLogin` of the configuration.
unfoldable pub handle_lightning_status :
    Bool → (LightningKey → Bool) → PollInput → String → LoginState → LoginState × PollReply
handle_lightning_status confirm_first confirmed input session_id st =
    if str_eq session_id ""
    then (st, bad_request)
    else elim (get_lightning_challenge_by_session input.got session_id st.challenges) [
      | err _ ↦ (st, expired)
      | ok c ↦
          if str_eq c.status "pending"
          then (st, pending)
          else if not c.is_link && confirm_first
          then elim (lightning_key_needs_confirm confirmed c st.keys) [
            | none ↦ complete_lightning_login input session_id st
            | some _ ↦ elim (get_user c.user_id st.users) [
              | err _ ↦ (st, server_error)
              | ok user ↦ (st, confirm_account user.username)
            ]
          ]
          else complete_lightning_login input session_id st
    ]

-- The answer "not my account".
unfoldable pub reject_account :
    PollInput → String → LightningKey → LoginState → LoginState × PollReply
reject_account input session_id lk st =
    let (m, found) = consume_lightning_challenge input.consumed session_id st.challenges in
    elim found [
      | err _ ↦ (st, expired)
      | ok _ ↦
          let (keys, e) = delete_lightning_key lk.id st.keys in
          elim e [
            | some _ ↦ (record st { challenges = m }, server_error)
            | none ↦ (record st { challenges = m; keys = keys }, unlinked)
          ]
    ]

-- `confirm` is the request's answer.
unfoldable pub handle_lightning_confirm :
    (LightningKey → Bool) → PollInput → Time → String → Bool → LoginState → LoginState × PollReply
handle_lightning_confirm confirmed input confirmed_at session_id confirm st =
    if str_eq session_id ""
    then (st, bad_request)
    else elim (get_lightning_challenge_by_session input.got session_id st.challenges) [
      | err _ ↦ (st, expired)
      | ok c ↦
          if c.is_link
          then (st, not_required)
          else if not (str_eq c.status "authenticated")
          then (st, pending)
          else elim (lightning_key_needs_confirm confirmed c st.keys) [
            | none ↦ (st, not_required)
            | some lk ↦
                if not confirm
                then reject_account input session_id lk st
                else let (keys, e) = confirm_lightning_key confirmed_at lk.id st.keys in
                  elim e [
                    | some _ ↦ (st, server_error)
                    | none ↦ complete_lightning_login input session_id (record st { keys = keys })
                  ]
          ]
    ]
