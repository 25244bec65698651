-- ===== src/Api/Lightning.antt =====
-- internal/api/handler_lightning.go: sign-in with a Lightning wallet (LNURL-auth). The check of a
-- signature, tokens and random texts are parameters. Each reading of the clock is an argument; the
-- sending of the reply, logs and the audit log are left out.
pub mod Browser
pub mod Callback
pub mod Poll
use cloistr_signer.Prelude.{
  ◌+◌, ◌*◌, String, Bool, false, not, ◌&&◌, ◌||◌, Option, none, some, List, [], ◌∷◌, if◌then◌else◌,
  str_eq,
}
use Prim.Native.String.{slice}
use cloistr_signer.Storage.Types.{Time, User, UserTable, ok, err}
use cloistr_signer.Storage.Users.{get_user, update_user}
use cloistr_signer.Storage.WebSessions.{WebTable, create_user_session}
use cloistr_signer.Storage.Lightning.{
  LightningKey, LightningTable, LightningChallenge, Challenges, create_lightning_key,
  get_lightning_key_by_linking_key, update_lightning_key_last_used, delete_lightning_key,
  confirm_lightning_key, list_lightning_keys, create_lightning_challenge, get_lightning_challenge,
  get_lightning_challenge_by_session, authenticate_lightning_challenge, consume_lightning_challenge,
  clean_expired_lightning_challenges,
}

pub record LoginState : Type 0 where
  pub challenges : Challenges
  pub keys : LightningTable
  pub users : UserTable
  pub web : WebTable

-- 10 minutes.
abbrev pub lightning_challenge_ttl : Time
lightning_challenge_ttl = 10 * 60 * 1000000000

-- The part of `generateLightningChallenge` that stores the challenge; `k1` and `session_id` are random.
unfoldable pub store_challenge :
    Time → Time → String → String → String → Bool → Challenges → Challenges
store_challenge cleaned now k1 session_id bound_user_id is_link m =
    create_lightning_challenge
      (record {
        k1 = k1;
        session_id = session_id;
        status = "pending";
        user_id = "";
        bound_user_id = bound_user_id;
        is_link = is_link;
        linking_key = "";
        expires_at = now + lightning_challenge_ttl;
        created_at = now;
      })
      (clean_expired_lightning_challenges cleaned m)

-- The reply to a wallet.
pub data LnurlReply : Type 0 where
  lnurl_ok : LnurlReply
  missing_argument unknown_challenge bad_encoding bad_signature used_challenge : LnurlReply
  not_linked linked_elsewhere link_failed : LnurlReply

-- The clock at the lookup of the challenge, in the new key, at its last use and at the claim.
pub record CallbackClock : Type 0 where
  pub got : Time
  pub created : Time
  pub used : Time
  pub claimed : Time

unfoldable pub claim_lightning_challenge :
    Time → String → String → String → LoginState → LoginState × LnurlReply
claim_lightning_challenge now k1 user_id linking_key st =
    let (m, e) = authenticate_lightning_challenge now k1 user_id linking_key st.challenges in
    elim e [ none ↦ (record st { challenges = m }, lnurl_ok) | some _ ↦ (st, used_challenge) ]

-- Link mode, for the user that the challenge is bound to; `new_id` is random.
unfoldable pub link_key :
    CallbackClock
    → String
    → String
    → String
    → LightningChallenge
    → LoginState
    → LoginState × LnurlReply
link_key clock new_id k1 key session st =
    let lk : LightningKey = record {
      id = new_id;
      user_id = session.bound_user_id;
      linking_key = key;
      name = "";
      created_at = clock.created;
      last_used_at = none;
      confirmed_at = none;
    } in
    let (keys, e) = create_lightning_key lk st.keys in
    elim e [
      | none ↦
          claim_lightning_challenge clock.claimed k1 session.bound_user_id ""
            (record st { keys = keys })
      | some _ ↦ elim (get_lightning_key_by_linking_key key st.keys) [
        | err _ ↦ (st, link_failed)
        | ok existing ↦
            if not (str_eq existing.user_id session.bound_user_id)
            then (st, linked_elsewhere)
            else claim_lightning_challenge clock.claimed k1 session.bound_user_id "" st
      ]
    ]

unfoldable pub login_key : CallbackClock → String → String → LoginState → LoginState × LnurlReply
login_key clock k1 key st = elim (get_lightning_key_by_linking_key key st.keys) [
  | err _ ↦ (st, not_linked)
  | ok lk ↦
      claim_lightning_challenge clock.claimed k1 lk.user_id key
        (record st { keys = (update_lightning_key_last_used clock.used lk.id st.keys).0 })
]

-- `verify` is `verifyLNURLAuthSignature`: no Boolean for an error.
unfoldable pub handle_lnurl_auth_callback :
    (String → String → String → Option Bool)
    → CallbackClock
    → String
    → String
    → String
    → String
    → LoginState
    → LoginState × LnurlReply
handle_lnurl_auth_callback verify clock new_id k1 sig key st =
    if str_eq k1 "" || str_eq sig "" || str_eq key ""
    then (st, missing_argument)
    else elim (get_lightning_challenge clock.got k1 st.challenges) [
      | err _ ↦ (st, unknown_challenge)
      | ok session ↦ elim (verify k1 sig key) [
        | none ↦ (st, bad_encoding)
        | some valid ↦
            if not valid
            then (st, bad_signature)
            else if session.is_link && not (str_eq session.bound_user_id "")
            then link_key clock new_id k1 key session st
            else login_key clock k1 key st
      ]
    ]

unfoldable pub owns_key : String → List LightningKey → Bool
owns_key id [] = false
owns_key id (k ∷ keys) = str_eq k.id id || owns_key id keys

pub data DeleteReply : Type 0 where
  deleted missing_id not_owned failed : DeleteReply

-- `user_id` is the signed-in user's.
unfoldable pub handle_lightning_key_by_id :
    String → String → LightningTable → LightningTable × DeleteReply
handle_lightning_key_by_id user_id key_id keys =
    if str_eq key_id ""
    then (keys, missing_id)
    else if not (owns_key key_id (list_lightning_keys user_id keys))
    then (keys, not_owned)
    else let (keys', e) = delete_lightning_key key_id keys in
      elim e [ none ↦ (keys', deleted) | some _ ↦ (keys, failed) ]
