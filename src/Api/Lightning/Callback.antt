-- ===== src/Api/Lightning/Callback.antt =====
-- What a wallet's callback must show before it signs a challenge, and for whom it signs it.
use cloistr_signer.Prelude.{
  String, Bool, true, false, not, ◌&&◌, ◌||◌, Option, none, some, ◌≡◌, ◌≢◌, ◌⊎◌, refl, ap, ◌∙◌,
  arith, eq_iff, Bool-cases, Option-cases, inl, inr, str_eq,
}
use cloistr_signer.Prelude.Dict.{lookup, lookup-insert_self}
use cloistr_signer.Storage.Types.{Time, Error, Result-cases, ok, update_at}
use cloistr_signer.Storage.Users.{holds}
use cloistr_signer.Storage.Lightning.{
  LightningKey, LightningTable, LightningChallenge, Challenges, create_lightning_key,
  get_lightning_key_by_linking_key, get_lightning_challenge, authenticate_lightning_challenge,
  update_lightning_key_last_used,
}
use cloistr_signer.Api.Lightning.{
  LoginState, lnurl_ok, CallbackClock, claim_lightning_challenge, link_key, login_key,
  handle_lnurl_auth_callback,
}

-- The wallet key belongs to the user `u`. A challenge that is bound to an account is a link: it is signed
-- for that account, the key is linked to it afterwards, and no linking key is written. Any other is a
-- login: it is signed for the user that the key was linked to before, with the linking key.
pub data BelongsTo (key : String) (c : LightningChallenge) (before after : LightningTable)
    (u linking_key : String) : Type 0 where
  logged_in :
      (lk : LightningKey)
      → (c.is_link ≡ false) ⊎ (c.bound_user_id ≡ "")
      → get_lightning_key_by_linking_key key before ≡ ok lk
      → lk.user_id ≡ u
      → linking_key ≡ key
      → BelongsTo key c before after u linking_key
  bound :
      (lk : LightningKey)
      → c.is_link ≡ true
      → c.bound_user_id ≢ ""
      → c.bound_user_id ≡ u
      → get_lightning_key_by_linking_key key after ≡ ok lk
      → lk.user_id ≡ u
      → linking_key ≡ ""
      → BelongsTo key c before after u linking_key

pub record IsAuthentic (verify : String → String → String → Option Bool) (clock : CallbackClock)
    (k1 sig key : String) (before after : LoginState) : Type 0 where
  pub session : LightningChallenge
  pub live : get_lightning_challenge clock.got k1 before.challenges ≡ ok session
  pub signature : verify k1 sig key ≡ some true
  pub user_id : String
  pub linking_key : String
  pub owner : BelongsTo key session before.keys after.keys user_id linking_key
  pub signed :
      authenticate_lightning_challenge clock.claimed k1 user_id linking_key before.challenges
      ≡ (after.challenges, none)

module _ (now : Time) (k1 user_id linking_key : String) (st : LoginState) where
  abbrev authenticated : Challenges × Option Error
  authenticated = authenticate_lightning_challenge now k1 user_id linking_key st.challenges

  claim-fine :
      (claim_lightning_challenge now k1 user_id linking_key st).1 ≡ lnurl_ok
      → authenticated.1 ≡ none
  unfolding claim_lightning_challenge
  claim-fine done = elim (Option-cases authenticated.1) [
    | inl fine ↦ fine
    | inr (e, bad) ↦ absurd (let d = done in ground (arith, bad))
  ]

  claim-is :
      authenticated.1 ≡ none
      → claim_lightning_challenge now k1 user_id linking_key st
        ≡ (record st { challenges = authenticated.0 }, lnurl_ok)
  unfolding claim_lightning_challenge
  claim-is fine = rw (fine, claim_lightning_challenge) refl

  claimed :
      (claim_lightning_challenge now k1 user_id linking_key st).1 ≡ lnurl_ok
      → (authenticated
          ≡ ((claim_lightning_challenge now k1 user_id linking_key st).0.challenges, none))
        × ((claim_lightning_challenge now k1 user_id linking_key st).0.keys ≡ st.keys)
  claimed done =
      let fine = claim-fine done in rw (claim-is fine) (ap (λ e. (authenticated.0, e)) fine, refl)

create_lightning_key-get :
    (lk : LightningKey) (keys : LightningTable)
    → (create_lightning_key lk keys).1 ≡ none
    → get_lightning_key_by_linking_key lk.linking_key (create_lightning_key lk keys).0 ≡ ok lk
unfolding create_lightning_key get_lightning_key_by_linking_key
create_lightning_key-get lk keys fine =
    elim (Bool-cases (holds (lookup lk.linking_key keys.by_linking_key))) [
      | inl taken ↦ absurd (let f = fine in ground (arith, taken))
      | inr free ↦ rw free (
          rw
            (
              lookup-insert_self lk.linking_key keys.next keys.by_linking_key,
              get_lightning_key_by_linking_key,
            )
            (ap ok (update_at keys.cell keys.next lk)))
    ]

module _ (verify : String → String → String → Option Bool) (clock : CallbackClock)
    (new_id k1 sig key : String) (st : LoginState) (session : LightningChallenge)
    (live : get_lightning_challenge clock.got k1 st.challenges ≡ ok session)
    (signature : verify k1 sig key ≡ some true) where
  abbrev linked_key : LightningKey
  linked_key = record {
    id = new_id;
    user_id = session.bound_user_id;
    linking_key = key;
    name = "";
    created_at = clock.created;
    last_used_at = none;
    confirmed_at = none;
  }

  link_key-IsAuthentic :
      session.is_link ≡ true
      → session.bound_user_id ≢ ""
      → (link_key clock new_id k1 key session st).1 ≡ lnurl_ok
      → IsAuthentic verify clock k1 sig key st (link_key clock new_id k1 key session st).0
  unfolding link_key
  link_key-IsAuthentic is_link given done =
      elim (Option-cases (create_lightning_key linked_key st.keys).1) [
        | inl new ↦
            let st' : LoginState = record st {
              keys = (create_lightning_key linked_key st.keys).0;
            } in
            let (signed, kept) =
              claimed clock.claimed k1 session.bound_user_id "" st' (ground (arith, new)) in
            rw (new, link_key)
              (record {
                session = session;
                live = live;
                signature = signature;
                user_id = session.bound_user_id;
                linking_key = "";
                owner =
                    bound linked_key is_link given refl
                      (ap (get_lightning_key_by_linking_key key) kept
                        ∙ create_lightning_key-get linked_key st.keys new)
                      refl refl;
                signed = signed;
              })
        | inr (e, exists) ↦ elim (Result-cases (get_lightning_key_by_linking_key key st.keys)) [
          | inr (e', absent) ↦ absurd (let d = done in ground (arith, exists, absent))
          | inl (lk, found) ↦ elim (Bool-cases (str_eq lk.user_id session.bound_user_id)) [
            | inr other ↦ absurd (let d = done in ground (arith, exists, found, other))
            | inl same ↦
                let (signed, kept) =
                  claimed clock.claimed k1 session.bound_user_id "" st
                    (ground (arith, exists, found, same)) in
                rw (exists, link_key)
                  (rw (found, same)
                    (record {
                      session = session;
                      live = live;
                      signature = signature;
                      user_id = session.bound_user_id;
                      linking_key = "";
                      owner =
                          bound lk is_link given refl
                            (ap (get_lightning_key_by_linking_key key) kept ∙ found)
                            ((eq_iff lk.user_id session.bound_user_id).0 same) refl;
                      signed = signed;
                    }))
          ]
        ]
      ]

  login_key-IsAuthentic :
      (session.is_link ≡ false) ⊎ (session.bound_user_id ≡ "")
      → (login_key clock k1 key st).1 ≡ lnurl_ok
      → IsAuthentic verify clock k1 sig key st (login_key clock k1 key st).0
  unfolding login_key
  login_key-IsAuthentic unbound done =
      elim (Result-cases (get_lightning_key_by_linking_key key st.keys)) [
        | inr (e, absent) ↦ absurd (let d = done in ground (arith, absent))
        | inl (lk, found) ↦
            let st' : LoginState = record st {
              keys = (update_lightning_key_last_used clock.used lk.id st.keys).0;
            } in
            let (signed, _) = claimed clock.claimed k1 lk.user_id key st' (ground (arith, found)) in
            rw (found, login_key)
              (record {
                session = session;
                live = live;
                signature = signature;
                user_id = lk.user_id;
                linking_key = key;
                owner = logged_in lk unbound found refl refl;
                signed = signed;
              })
      ]

-- A callback that the signer answers with OK has named a live challenge and has a valid signature of it
-- by the wallet key, and signs the challenge for the user to whom the key belongs: for a link that is
-- bound to an account that account, to which the key is linked from then on, and for any other challenge
-- the user the key was linked to.
pub handle_lnurl_auth_callback-IsAuthentic :
    (verify : String → String → String → Option Bool) (clock : CallbackClock)
    (new_id k1 sig key : String) (st : LoginState)
    → (handle_lnurl_auth_callback verify clock new_id k1 sig key st).1 ≡ lnurl_ok
    → IsAuthentic verify clock k1 sig key st
        (handle_lnurl_auth_callback verify clock new_id k1 sig key st).0
unfolding handle_lnurl_auth_callback
handle_lnurl_auth_callback-IsAuthentic verify clock new_id k1 sig key st done =
    elim (Bool-cases (str_eq k1 "" || str_eq sig "" || str_eq key "")) [
      | inl bare ↦ absurd (let d = done in ground (arith, bare))
      | inr given ↦ elim (Result-cases (get_lightning_challenge clock.got k1 st.challenges)) [
        | inr (e, absent) ↦ absurd (let d = done in ground (arith, given, absent))
        | inl (session, live) ↦ elim (Option-cases (verify k1 sig key)) [
          | inl malformed ↦ absurd (let d = done in ground (arith, given, live, malformed))
          | inr (false, bad) ↦ absurd (let d = done in ground (arith, given, live, bad))
          | inr (true, good) ↦
              elim (Bool-cases (session.is_link && not (str_eq session.bound_user_id ""))) [
                | inl link ↦
                    rw (given, live, good, link, handle_lnurl_auth_callback)
                      (link_key-IsAuthentic verify clock new_id k1 sig key st session live good
                        (ground (arith, link))
                        (ground (arith, link, eq_iff session.bound_user_id ""))
                        (ground (arith, given, live, good, link)))
                | inr login ↦
                    rw (given, live, good, login, handle_lnurl_auth_callback)
                      (login_key-IsAuthentic verify clock new_id k1 sig key st session live good
                        (ground (arith, login, eq_iff session.bound_user_id ""))
                        (ground (arith, given, live, good, login)))
              ]
        ]
      ]
    ]
