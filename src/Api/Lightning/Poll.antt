-- ===== src/Api/Lightning/Poll.antt =====
-- A poll signs a browser in for the user of its session's signed challenge, and only once.
use cloistr_signer.Prelude.{
  String, Bool, List, not, ◌&&◌, some, ◌≡◌, ◌≢◌, sym, ap, ◌∙◌, arith, Bool-cases, Option-cases, inl,
  inr, str_eq,
}
use cloistr_signer.Storage.Types.{Time, User, Result-cases, ok}
use cloistr_signer.Storage.Users.{get_user}
use cloistr_signer.Storage.Lightning.{
  LightningKey, get_lightning_challenge_by_session, consume_lightning_challenge,
}
use cloistr_signer.Storage.Lightning.Phases.{IsTable, ChallengeCall, run}
use cloistr_signer.Storage.Lightning.Once.{IsSole, NoneReopens, consume_lightning_challenge-run}
use cloistr_signer.Api.Lightning.{LoginState}
use cloistr_signer.Api.Lightning.Browser.{
  signed_in, PollInput, lightning_key_needs_confirm, store_login, complete_lightning_login,
  handle_lightning_status,
}

-- The session's challenge was consumed, and the login is its user's.
pub record IsLogin (input : PollInput) (s name token : String) (before after : LoginState)
    : Type 0 where
  pub user_id : String
  pub user : User
  pub expires_at : Time
  pub consumed :
      consume_lightning_challenge input.consumed s before.challenges
      ≡ (after.challenges, ok user_id)
  pub found : get_user user_id before.users ≡ ok user
  pub named : user.username ≡ name
  pub minted : input.token user input.session_id ≡ some (token, expires_at)

module _ (input : PollInput) (s name token : String) (st : LoginState) where
  complete-IsLogin :
      (complete_lightning_login input s st).1 ≡ signed_in name token
      → IsLogin input s name token st (complete_lightning_login input s st).0
  unfolding complete_lightning_login store_login
  complete-IsLogin done =
      let m = (consume_lightning_challenge input.consumed s st.challenges).0 in
      elim (Result-cases (consume_lightning_challenge input.consumed s st.challenges).1) [
        | inr (e, refused) ↦ absurd (let d = done in ground (arith, refused))
        | inl (user_id, won) ↦ elim (Result-cases (get_user user_id st.users)) [
          | inr (e, absent) ↦ absurd (let d = done in ground (arith, won, absent))
          | inl (user, found) ↦ elim (Option-cases (input.token user input.session_id)) [
            | inl unminted ↦ absurd (let d = done in ground (arith, won, found, unminted))
            | inr ((token', expires_at), minted) ↦
                let reply : signed_in user.username token' ≡ signed_in name token =
                  ground (arith, won, found, minted) in
                let same : user.username ≡ name = cc in
                let same' : token' ≡ token = cc in
                rw (won, complete_lightning_login)
                  (rw (found, minted)
                    (record {
                      user_id = user_id;
                      user = user;
                      expires_at = expires_at;
                      consumed = ap (λ r. (m, r)) won;
                      found = found;
                      named = same;
                      minted = minted ∙ ap (λ t. some (t, expires_at)) same';
                    }))
          ]
        ]
      ]

  -- A status poll that signs a browser in consumes the signed challenge of its session, and the name and
  -- the token it answers with are those of the stored user that the challenge was signed for.
  pub handle_lightning_status-IsLogin :
      (confirm_first : Bool) (confirmed : LightningKey → Bool)
      → (handle_lightning_status confirm_first confirmed input s st).1 ≡ signed_in name token
      → IsLogin input s name token st (handle_lightning_status confirm_first confirmed input s st).0
  unfolding handle_lightning_status
  handle_lightning_status-IsLogin confirm_first confirmed done = elim (Bool-cases (str_eq s "")) [
    | inl bare ↦ absurd (let d = done in ground (arith, bare))
    | inr given ↦
        elim (Result-cases (get_lightning_challenge_by_session input.got s st.challenges)) [
          | inr (e, absent) ↦ absurd (let d = done in ground (arith, given, absent))
          | inl (c, live) ↦ elim (Bool-cases (str_eq c.status "pending")) [
            | inl waits ↦ absurd (let d = done in ground (arith, given, live, waits))
            | inr signed ↦ elim (Bool-cases (not c.is_link && confirm_first)) [
              | inr direct ↦
                  rw (given, live, signed, direct, handle_lightning_status)
                    (complete-IsLogin (ground (arith, given, live, signed, direct)))
              | inl asked ↦ elim (Option-cases (lightning_key_needs_confirm confirmed c st.keys)) [
                | inl known ↦
                    rw (given, live, signed, asked, known, handle_lightning_status)
                      (complete-IsLogin (ground (arith, given, live, signed, asked, known)))
                | inr (lk, new) ↦ elim (Result-cases (get_user c.user_id st.users)) [
                  | inr (e, gone) ↦
                      absurd (let d = done in ground (arith, given, live, signed, asked, new, gone))
                  | inl (user, there) ↦
                      absurd
                        (let d = done in ground (arith, given, live, signed, asked, new, there))
                ]
              ]
            ]
          ]
        ]
  ]

-- Once a status poll has signed a browser in, where its session had one challenge and each challenge
-- stood once and under its own `k1`, no later poll of the session signs one in: whatever users, keys
-- and web sessions are stored by then, and after any calls on the table of challenges but the creation
-- of one for the session.
pub handle_lightning_status-once :
    (confirm_first : Bool) (confirmed confirmed' : LightningKey → Bool) (input input' : PollInput)
    (s name token name' token' : String) (st later : LoginState) (cs : List ChallengeCall)
    → IsTable st.challenges
    → IsSole s st.challenges
    → (handle_lightning_status confirm_first confirmed input s st).1 ≡ signed_in name token
    → NoneReopens s cs
    → later.challenges
      ≡ run cs (handle_lightning_status confirm_first confirmed input s st).0.challenges
    → (handle_lightning_status confirm_first confirmed' input' s later).1 ≢ signed_in name' token'
handle_lightning_status-once confirm_first confirmed confirmed' input input' s name token name'
      token' st later cs w sole done others is again =
    let first =
      handle_lightning_status-IsLogin input s name token st confirm_first confirmed done in
    let second =
      handle_lightning_status-IsLogin input' s name' token' later confirm_first confirmed' again in
    let gone =
      consume_lightning_challenge-run input.consumed s first.user_id st.challenges cs
        input'.consumed w sole (ap (λ x. x.1) first.consumed) others in
    let gone' =
      ap (λ m. (consume_lightning_challenge input'.consumed s m).1)
        (is ∙ ap (λ x. run cs x.0) (sym first.consumed))
      ∙ gone in
    absurd (let e = sym gone' ∙ ap (λ x. x.1) second.consumed in cc)
