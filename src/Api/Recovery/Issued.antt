-- ===== src/Api/Recovery/Issued.antt =====
-- What the first step of account recovery tells of an account, and what the second step adds.
use cloistr_signer.Prelude.{
  ◌≤◌, ◌+◌, ◌∙◌, String, Bool, Option, none, some, ◌≡◌, refl, arith, ap, sym, Option-cases,
  Bool-cases, inl, inr, str_eq,
}
use Prim.Native.String.{len}
use cloistr_signer.Prelude.Dict.{lookup, insert, lookup-insert_self}
use cloistr_signer.Storage.Types.{Time, User, UserTable, Error, Result, Result-cases, ok, err}
use cloistr_signer.Storage.Users.{get_user_by_username}
use cloistr_signer.Storage.Recovery.{
  RecoveryChallenge, RecoveryChallenges, create_recovery_challenge, consume_recovery_challenge,
}
use cloistr_signer.Storage.Recovery.Once.{IsOpen-consumed, used_up_refused}
use cloistr_signer.RateLimit.{Windows}
use cloistr_signer.Api.Proof.{RecoveryLibrary, verify_recovery_proof, recovery_challenge_ttl}
use cloistr_signer.Api.Recovery.{
  RecoveryState, RecoveryRequest, RecoveryClock, RecoveryReply, bad_challenge, bad_proof,
  handle_recovery_complete,
}
use cloistr_signer.Api.Recovery.Challenge.{
  ChallengeLibrary, ChallengeConfig, ChallengeRequest, ChallengeClock, work_error, issued,
  store_recovery_challenge, handle_recovery_challenge,
}

module _ (lib : ChallengeLibrary) (cfg : ChallengeConfig) (clock : ChallengeClock)
    (random : Option String) (req : ChallengeRequest) (m : Windows) where
  -- Whatever accounts and challenges are stored, `handleRecoveryChallenge` gives the same reply and
  -- counts the same in the limiter.
  pub handle_recovery_challenge-same :
      (users users' : UserTable) (cs cs' : RecoveryChallenges)
      → ((handle_recovery_challenge lib cfg clock random req users m cs).1
          ≡ (handle_recovery_challenge lib cfg clock random req users' m cs').1)
        × ((handle_recovery_challenge lib cfg clock random req users m cs).0.0
            ≡ (handle_recovery_challenge lib cfg clock random req users' m cs').0.0)
  unfolding handle_recovery_challenge
  handle_recovery_challenge-same users users' cs cs' =
      let username = lib.trim (lib.lower req.username) in
      elim (Bool-cases (str_eq username "")) [
        | inl h ↦ (ground (arith, h), ground (arith, h))
        | inr h ↦
            elim (Option-cases
              (work_error lib cfg.pow_difficulty clock.worked username req.pow_event)) [
                | inr (e, bad) ↦ (ground (arith, h, bad), ground (arith, h, bad))
                | inl fine ↦ elim (Option-cases random) [
                  | inl failed ↦ (ground (arith, h, fine, failed), ground (arith, h, fine, failed))
                  | inr (nonce, drawn) ↦
                      (ground (arith, h, fine, drawn), ground (arith, h, fine, drawn))
                ]
              ]
      ]

-- How a completed request without a good proof is refused.
abbrev pub refusal : Result User → RecoveryReply
refusal (ok _) = bad_proof
refusal (err _) = bad_challenge

-- The reply to a completed request without a good proof, by what the use of its challenge returned.
abbrev consumed_reply : Result RecoveryChallenge → RecoveryReply
consumed_reply (ok _) = bad_proof
consumed_reply (err _) = bad_challenge

unproven_reply :
    (lib : RecoveryLibrary) (clock : RecoveryClock) (vault_reset : Bool) (req : RecoveryRequest)
    (st : RecoveryState)
    → 8 ≤ len req.new_password
    → verify_recovery_proof lib clock.proved req.signed_event req.challenge ≡ none
    → (handle_recovery_complete lib clock vault_reset req st).1
      ≡ consumed_reply
          (consume_recovery_challenge clock.tested clock.marked req.challenge st.challenges).1
unfolding handle_recovery_complete
unproven_reply lib clock vault_reset req st long bad =
    elim (Result-cases
      (consume_recovery_challenge clock.tested clock.marked req.challenge st.challenges).1) [
        | inl (c, found) ↦ ground (arith, found, bad)
        | inr (e, found) ↦ ground (arith, found)
      ]

module _ (now tested marked : Time) (nonce username : String) (users : UserTable)
    (cs : RecoveryChallenges) where
  store_recovery_challenge-known :
      (user : User)
      → get_user_by_username username users ≡ ok user
      → tested ≤ now + recovery_challenge_ttl
      → consumed_reply
          (consume_recovery_challenge tested marked nonce
            (store_recovery_challenge now nonce username users cs)).1
        ≡ bad_proof
  unfolding store_recovery_challenge create_recovery_challenge
  store_recovery_challenge-known user known early =
      let c : RecoveryChallenge = record {
        id = nonce;
        user_id = user.id;
        expires_at = now + recovery_challenge_ttl;
        created_at = now;
        used_at = none;
      } in
      let stored : store_recovery_challenge now nonce username users cs ≡ insert nonce c cs =
        rw (known, store_recovery_challenge) refl in
      rw
        (
          stored,
          IsOpen-consumed tested marked nonce (insert nonce c cs) c
              (record { stored = lookup-insert_self nonce c cs; in_time = early; unused = refl }),
        )
        refl

  store_recovery_challenge-unknown :
      (e : Error)
      → get_user_by_username username users ≡ err e
      → lookup nonce cs ≡ none
      → consumed_reply
          (consume_recovery_challenge tested marked nonce
            (store_recovery_challenge now nonce username users cs)).1
        ≡ bad_challenge
  unfolding store_recovery_challenge
  store_recovery_challenge-unknown e unknown fresh =
      let stored : store_recovery_challenge now nonce username users cs ≡ cs =
        rw (unknown, store_recovery_challenge) refl in
      rw (stored, used_up_refused tested marked nonce cs (rw (fresh) refl)) refl

  consumed-store_recovery_challenge :
      lookup nonce cs ≡ none
      → tested ≤ now + recovery_challenge_ttl
      → consumed_reply
          (consume_recovery_challenge tested marked nonce
            (store_recovery_challenge now nonce username users cs)).1
        ≡ refusal (get_user_by_username username users)
  consumed-store_recovery_challenge fresh early =
      elim (Result-cases (get_user_by_username username users)) [
        | inr (e, unknown) ↦ store_recovery_challenge-unknown e unknown fresh ∙ (rw (unknown) refl)
        | inl (user, known) ↦ store_recovery_challenge-known user known early ∙ (rw (known) refl)
      ]

module _ (lib : ChallengeLibrary) (cfg : ChallengeConfig) (clock : ChallengeClock) (nonce : String)
    (req : ChallengeRequest) (users : UserTable) (m : Windows) where
  issued-stored :
      (cs : RecoveryChallenges) (t : Time)
      → (handle_recovery_challenge lib cfg clock (some nonce) req users m cs).1 ≡ issued nonce t
      → ((handle_recovery_challenge lib cfg clock (some nonce) req users m cs).0.1
          ≡ store_recovery_challenge clock.issued nonce
              (lib.trim (lib.lower req.username))
              users
              cs)
        × (t ≡ clock.issued + recovery_challenge_ttl)
  unfolding handle_recovery_challenge
  issued-stored cs t h =
      elim (Option-cases (
        work_error lib cfg.pow_difficulty clock.worked (lib.trim (lib.lower req.username))
          req.pow_event)) [
            | inr (e, bad) ↦ absurd (let g = h in ground (arith, bad))
            | inl fine ↦ (ground (arith, fine), ground (arith, fine))
          ]

  -- A completion of a fresh challenge that `handleRecoveryChallenge` issued, in time, with a long enough
  -- password and no good proof, is refused for its proof if the account is stored, and for its
  -- challenge if not.
  pub handle_recovery_complete-unproven :
      (cs : RecoveryChallenges) (t : Time)
      → (handle_recovery_challenge lib cfg clock (some nonce) req users m cs).1 ≡ issued nonce t
      → lookup nonce cs ≡ none
      → (recovery : RecoveryLibrary) (then_clock : RecoveryClock) (vault_reset : Bool)
        (signed_event password nsec : String) (st : RecoveryState)
      → 8 ≤ len password
      → then_clock.tested ≤ t
      → verify_recovery_proof recovery then_clock.proved signed_event nonce ≡ none
      → (handle_recovery_complete recovery then_clock vault_reset
          (record {
            challenge = nonce;
            signed_event = signed_event;
            new_password = password;
            nsec = nsec;
          })
          (record st {
            challenges = (handle_recovery_challenge lib cfg clock (some nonce) req users m cs).0.1;
          })).1
        ≡ refusal (get_user_by_username (lib.trim (lib.lower req.username)) users)
  unfolding handle_recovery_complete
  handle_recovery_complete-unproven cs t h fresh recovery then_clock vault_reset ev password nsec st
        long early bad =
      let (stored, expiry) = issued-stored cs t h in
      unproven_reply recovery then_clock vault_reset _ _ long bad
      ∙ ap
          (λ c.
            consumed_reply
              (consume_recovery_challenge then_clock.tested then_clock.marked nonce c).1)
          stored
      ∙ consumed-store_recovery_challenge clock.issued then_clock.tested then_clock.marked nonce
          (lib.trim (lib.lower req.username)) users cs fresh (rw (sym expiry) early)
