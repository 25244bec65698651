-- ===== src/Api/Recovery/Proven.antt =====
-- A password is reset only on a proof that the caller holds the account's identity key.
use cloistr_signer.Prelude.{
  ℕ, ◌+◌, ◌≤◌, String, Bool, true, false, none, some, List, ◌≡◌, ap, ◌∙◌, arith, eq_iff, Bool-cases,
  Option-cases, inl, inr, str_eq, ltb,
}
use Prim.Native.String.{len}
use cloistr_signer.Prelude.Dict.{insert}
use cloistr_signer.Storage.Types.{Time, User, Result-cases, ok}
use cloistr_signer.Storage.Keys.{list_keys}
use cloistr_signer.Storage.Users.{get_user, update_user}
use cloistr_signer.Storage.Recovery.{RecoveryChallenge, consume_recovery_challenge}
use cloistr_signer.Storage.Recovery.Once.{IsOpen, IsOpen-consumed, consumed-IsOpen}
use cloistr_signer.Signer.Types.{Event}
use cloistr_signer.Api.Proof.{
  RecoveryLibrary, recovery_challenge_ttl, recovery_auth_kind, carries_challenge, check_proof,
  verify_recovery_proof,
}
use cloistr_signer.Api.Identity.{resolve_signing_pubkey}
use cloistr_signer.Api.Recovery.{
  RecoveryState, recovery_disabled, recovered, RecoveryRequest, RecoveryClock, restore_key,
  reset_password, recover_account, handle_recovery_complete,
}
use cloistr_signer.Api.Recovery.Restored.{
  Sum-cases, restore_key-untouched, recover_account-challenges,
}

-- The signed event proves the pubkey: of the right kind, with the challenge, recent and signed.
pub record IsProof (lib : RecoveryLibrary) (now : Time) (signed_event challenge pubkey : String)
    : Type 0 where
  pub event : Event
  pub parsed : lib.parse_event signed_event ≡ some event
  pub by : event.pubkey ≡ pubkey
  pub kind : event.kind ≡ recovery_auth_kind
  pub bound : carries_challenge challenge event.tags ≡ true
  pub not_old : now ≤ lib.event_time event.created_at + recovery_challenge_ttl
  pub not_early : lib.event_time event.created_at ≤ now + recovery_challenge_ttl
  pub signature : lib.check_signature event ≡ true

verify_recovery_proof-IsProof :
    (lib : RecoveryLibrary) (now : Time) (signed_event challenge pubkey : String)
    → verify_recovery_proof lib now signed_event challenge ≡ some pubkey
    → IsProof lib now signed_event challenge pubkey
unfolding verify_recovery_proof check_proof
verify_recovery_proof-IsProof lib now signed_event challenge pubkey proof =
    elim (Option-cases (lib.parse_event signed_event)) [
      | inl malformed ↦ absurd (let p = proof in ground (arith, malformed))
      | inr (ev, parsed) ↦ record {
        event = ev;
        parsed = parsed;
        by = ground (arith);
        kind = ground (arith);
        bound = ground (arith);
        not_old = ground (arith);
        not_early = ground (arith);
        signature = ground (arith);
      }
    ]

-- What a reset password rests on and what it stores.
pub record IsRecovered (lib : RecoveryLibrary) (clock : RecoveryClock) (req : RecoveryRequest)
    (before after : RecoveryState) : Type 0 where
  pub challenge : RecoveryChallenge
  pub live : IsOpen clock.tested req.challenge before.challenges challenge
  -- which is used up from then on
  pub spent :
      after.challenges
      ≡ insert req.challenge (record challenge { used_at = some clock.marked }) before.challenges
  pub pubkey : String
  pub proof : IsProof lib clock.proved req.signed_event req.challenge pubkey
  pub identity : resolve_signing_pubkey challenge.user_id before.key_table ≡ some pubkey
  pub enabled : recovery_disabled challenge.user_id before.settings ≡ false
  pub long : 8 ≤ len req.new_password
  pub user : User
  pub account : get_user challenge.user_id before.users ≡ ok user
  pub hash : String
  pub hashed : lib.hash_password req.new_password ≡ some hash
  pub stored :
      after.users
      ≡ (update_user clock.updated
          (record user { password_hash = hash; failed_login_attempts = 0; locked_until = none })
          before.users).0

module _ (lib : RecoveryLibrary) (clock : RecoveryClock) (vault : Bool)
    (req : RecoveryRequest) where
  -- The new password, of an account that passed the tests.
  recover_account-stored :
      (user_id pubkey identity : String) (st : RecoveryState) (n : ℕ) (stranded : List String)
      (v : Bool) (user : User)
      → recovery_disabled user_id st.settings ≡ false
      → resolve_signing_pubkey user_id st.key_table ≡ some identity
      → str_eq identity pubkey ≡ true
      → get_user user_id st.users ≡ ok user
      → (recover_account lib clock vault req user_id pubkey st).1 ≡ recovered n stranded v
      → (hash : String) × (get_user user_id st.users ≡ ok user)
        × (lib.hash_password req.new_password ≡ some hash)
        × ((recover_account lib clock vault req user_id pubkey st).0.users
            ≡ (update_user clock.updated
                (record user {
                  password_hash = hash;
                  failed_login_attempts = 0;
                  locked_until = none;
                })
                st.users).0)
  unfolding recover_account reset_password
  recover_account-stored user_id pubkey identity st n stranded v user enabled known same account
        done =
      let keys = list_keys user_id st.key_table in
      let st' = (restore_key lib req keys pubkey st).0 in
      elim (Sum-cases (restore_key lib req keys pubkey st).1) [
        | inr (e, refusal) ↦
            absurd (let d = done in ground (arith, enabled, known, same, account, refusal))
        | inl (k, restored) ↦ elim (Option-cases (lib.hash_password req.new_password)) [
          | inl unhashed ↦
              absurd
                (let d = done in ground (arith, enabled, known, same, account, restored, unhashed))
          | inr (hash, hashed) ↦
              let reset = record user {
                password_hash = hash;
                failed_login_attempts = 0;
                locked_until = none;
              } in
              elim (Option-cases (update_user clock.updated reset st'.users).1) [
                | inr (e, failed) ↦ absurd (
                    let d = done in
                    ground (arith, enabled, known, same, account, restored, hashed, failed))
                | inl fine ↦ (
                  hash,
                  account,
                  hashed,
                  rw (enabled, recover_account)
                      (rw known (
                        rw (same, account)
                          (rw (restored, hashed)
                            (rw (fine, reset_password)
                              (ap (λ x. (update_user clock.updated reset x).0)
                                (ap (λ x. x.0) (restore_key-untouched lib req keys pubkey st))))))),
                )
              ]
        ]
      ]

  -- What the account's part has checked and stored, where it answers with success.
  recover_account-passed :
      (user_id pubkey : String) (st : RecoveryState) (n : ℕ) (stranded : List String) (v : Bool)
      → (recover_account lib clock vault req user_id pubkey st).1 ≡ recovered n stranded v
      → (resolve_signing_pubkey user_id st.key_table ≡ some pubkey)
        × (recovery_disabled user_id st.settings ≡ false)
        × ((user : User) × (hash : String) × (get_user user_id st.users ≡ ok user)
            × (lib.hash_password req.new_password ≡ some hash)
            × ((recover_account lib clock vault req user_id pubkey st).0.users
                ≡ (update_user clock.updated
                    (record user {
                      password_hash = hash;
                      failed_login_attempts = 0;
                      locked_until = none;
                    })
                    st.users).0))
  unfolding recover_account reset_password
  recover_account-passed user_id pubkey st n stranded v done =
      let keys = list_keys user_id st.key_table in
      elim (Bool-cases (recovery_disabled user_id st.settings)) [
        | inl off ↦ absurd (let d = done in ground (arith, off))
        | inr enabled ↦ elim (Option-cases (resolve_signing_pubkey user_id st.key_table)) [
          | inl unknown ↦ absurd (let d = done in ground (arith, enabled, unknown))
          | inr (identity, known) ↦ elim (Bool-cases (str_eq identity pubkey)) [
            | inr other ↦ absurd (let d = done in ground (arith, enabled, known, other))
            | inl same ↦ elim (Result-cases (get_user user_id st.users)) [
              | inr (e, absent) ↦
                  absurd (let d = done in ground (arith, enabled, known, same, absent))
              | inl (user, account) ↦
                  let (hash, got, hashed, stored) =
                    recover_account-stored user_id pubkey identity st n stranded v user enabled
                      known same account done in
                  (
                    known ∙ ap some ((eq_iff identity pubkey).0 same),
                    enabled,
                    (user, hash, got, hashed, stored),
                  )
            ]
          ]
        ]
      ]

  -- A recovery that answers with success used a live challenge up, with a valid proof for it by the
  -- identity key of the challenge's account, on which recovery is not disabled, and a password of at
  -- least 8 bytes; it stored the hash of that password and ended the account's lockout.
  pub handle_recovery_complete-IsRecovered :
      (st : RecoveryState) (n : ℕ) (stranded : List String) (v : Bool)
      → (handle_recovery_complete lib clock vault req st).1 ≡ recovered n stranded v
      → IsRecovered lib clock req st (handle_recovery_complete lib clock vault req st).0
  unfolding handle_recovery_complete
  handle_recovery_complete-IsRecovered st n stranded v done =
      let m =
        (consume_recovery_challenge clock.tested clock.marked req.challenge st.challenges).0 in
      elim (Bool-cases (ltb (len req.new_password) 8)) [
        | inl short ↦ absurd (let d = done in ground (arith, short))
        | inr long ↦
            elim (Result-cases
              (consume_recovery_challenge clock.tested clock.marked req.challenge
                st.challenges).1) [
                  | inr (e, dead) ↦ absurd (let d = done in ground (arith, long, dead))
                  | inl (c, used) ↦
                      elim (Option-cases
                        (verify_recovery_proof lib clock.proved req.signed_event req.challenge)) [
                          | inl bad ↦ absurd (let d = done in ground (arith, long, used, bad))
                          | inr (pubkey, proof) ↦
                              let st' : RecoveryState = record st { challenges = m } in
                              let (c0, live, is) =
                                consumed-IsOpen clock.tested clock.marked req.challenge
                                  st.challenges c used in
                              let same : c.user_id ≡ c0.user_id = ap (λ x. x.user_id) is in
                              let (identity, enabled, (user, hash, account, hashed, stored)) =
                                recover_account-passed c.user_id pubkey st' n stranded v
                                  (ground (arith, long, used, proof)) in
                              rw (long, handle_recovery_complete)
                                (rw (used, proof)
                                  (record {
                                    challenge = c0;
                                    live = live;
                                    pubkey = pubkey;
                                    proof =
                                        verify_recovery_proof-IsProof lib clock.proved
                                          req.signed_event req.challenge pubkey proof;
                                    identity = rw (← same) identity;
                                    enabled = rw (← same) enabled;
                                    long = ground (arith, long);
                                    user = user;
                                    account = rw (← same) account;
                                    hash = hash;
                                    hashed = hashed;
                                    stored = stored;
                                    spent =
                                        recover_account-challenges lib clock vault req c.user_id
                                          pubkey st'
                                        ∙ ap (λ x. x.0)
                                            (IsOpen-consumed clock.tested clock.marked req.challenge
                                              st.challenges c0 live);
                                  }))
                        ]
                ]
      ]
