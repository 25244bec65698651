-- ===== src/Api/Recovery/Restored.antt =====
-- What the account's part of a recovery leaves as it was.
use cloistr_signer.Prelude.{
  ℕ, String, Bool, List, ◌≡◌, ap, ◌∙◌, none, refl, Bool-cases, Option-cases, inl, inr, ◌⊎◌, str_eq,
}
use cloistr_signer.Prelude.Dict.{Dict}
use cloistr_signer.Storage.Types.{Time, Key, User, UserTable, Result-cases}
use cloistr_signer.Storage.Users.{get_user, update_user}
use cloistr_signer.Storage.Recovery.{RecoveryChallenges}
use cloistr_signer.Storage.Keys.{list_keys, update_key_encryption}
use cloistr_signer.Api.Proof.{RecoveryLibrary}
use cloistr_signer.Api.Identity.{resolve_signing_pubkey, proves}
use cloistr_signer.Api.Recovery.{
  RecoveryState, RecoveryRequest, restore_key, rewrap_key_under_passphrase, register_key,
  key_with_pubkey, key_type_proxy, normalize_private_key, RecoveryClock, recovery_disabled,
  reset_password, recover_account,
}

-- What the restore does not touch.
abbrev pub untouched : RecoveryState → UserTable × RecoveryChallenges × Dict String
untouched st = (st.users, st.challenges, st.settings)

register_key-untouched :
    (target : Key) (priv : String) (st : RecoveryState)
    → untouched (register_key target priv st) ≡ untouched st
unfolding register_key
register_key-untouched target priv st = elim (Bool-cases (str_eq target.key_type key_type_proxy)) [
  | inl proxy ↦ rw (proxy, register_key) refl
  | inr own ↦ rw (own, register_key) refl
]

rewrap-untouched :
    (lib : RecoveryLibrary) (keys : List ℕ) (pubkey priv passphrase : String) (st : RecoveryState)
    → untouched (rewrap_key_under_passphrase lib keys pubkey priv passphrase st).0 ≡ untouched st
unfolding rewrap_key_under_passphrase
rewrap-untouched lib keys pubkey priv passphrase st =
    elim (Option-cases (key_with_pubkey st.key_table.cell pubkey keys)) [
      | inl absent ↦ rw (absent, rewrap_key_under_passphrase) refl
      | inr (target, found) ↦ elim (Option-cases (lib.encrypt passphrase priv)) [
        | inl failed ↦ rw (found, rewrap_key_under_passphrase) (rw failed refl)
        | inr (text, sealed) ↦
            let tbl = (update_key_encryption target.id text "passphrase" st.key_table).0 in
            elim (Option-cases (update_key_encryption target.id text "passphrase" st.key_table).1) [
              | inl fine ↦
                  rw (found, rewrap_key_under_passphrase)
                    (rw sealed (
                      rw fine (register_key-untouched target priv (record st { key_table = tbl }))))
              | inr (e, bad) ↦ rw (found, rewrap_key_under_passphrase) (rw sealed (rw bad refl))
            ]
      ]
    ]

pub Sum-cases {ℓ κ} :
    {A : Type ℓ} {B : Type κ} (x : A ⊎ B) → ((a : A) × (x ≡ inl a)) ⊎ ((b : B) × (x ≡ inr b))
Sum-cases (inl a) = inl (a, refl)
Sum-cases (inr b) = inr (b, refl)

pub restore_key-untouched :
    (lib : RecoveryLibrary) (req : RecoveryRequest) (keys : List ℕ) (pubkey : String)
    (st : RecoveryState)
    → untouched (restore_key lib req keys pubkey st).0 ≡ untouched st
unfolding restore_key
restore_key-untouched lib req keys pubkey st = elim (Bool-cases (str_eq (lib.trim req.nsec) "")) [
  | inl bare ↦ rw (bare, restore_key) refl
  | inr given ↦ elim (Option-cases (normalize_private_key lib req.nsec)) [
    | inl bad ↦ rw (given, restore_key) (rw bad refl)
    | inr (priv, good) ↦ elim (Option-cases (lib.public_key_of priv)) [
      | inl none_derived ↦ rw (given, restore_key) (rw (good, none_derived) refl)
      | inr (derived, is) ↦ elim (Bool-cases (str_eq derived pubkey)) [
        | inr other ↦ rw (given, restore_key) (rw (good, is) (rw other refl))
        | inl same ↦
            let law = rewrap-untouched lib keys pubkey priv req.new_password st in
            elim (Bool-cases
              (rewrap_key_under_passphrase lib keys pubkey priv req.new_password st).1) [
                | inl fine ↦ rw (given, restore_key) (rw (good, is) (rw same (rw fine law)))
                | inr failed ↦ rw (given, restore_key) (rw (good, is) (rw same (rw failed law)))
              ]
      ]
    ]
  ]
]

module _ (lib : RecoveryLibrary) (clock : RecoveryClock) (vault : Bool)
    (req : RecoveryRequest) where
  reset_password-challenges :
      (now : Time) (hash : String) (user : User) (keys : List ℕ) (pubkey : String) (n : ℕ)
      (st : RecoveryState)
      → (reset_password now hash vault user keys pubkey n st).0.challenges ≡ st.challenges
  unfolding reset_password
  reset_password-challenges now hash user keys pubkey n st =
      let reset = record user {
        password_hash = hash;
        failed_login_attempts = 0;
        locked_until = none;
      } in
      elim (Option-cases (update_user now reset st.users).1) [
        | inl fine ↦ rw (fine, reset_password) refl
        | inr (e, failed) ↦ rw (failed, reset_password) refl
      ]

  -- The account's part uses no challenge up.
  pub recover_account-challenges :
      (user_id pubkey : String) (st : RecoveryState)
      → (recover_account lib clock vault req user_id pubkey st).0.challenges ≡ st.challenges
  unfolding recover_account
  recover_account-challenges user_id pubkey st =
      let keys = list_keys user_id st.key_table in
      let st' = (restore_key lib req keys pubkey st).0 in
      let kept : st'.challenges ≡ st.challenges =
        ap (λ x. x.1) (restore_key-untouched lib req keys pubkey st) in
      elim (Bool-cases (recovery_disabled user_id st.settings)) [
        | inl off ↦ rw (off, recover_account) refl
        | inr enabled ↦
            elim (Bool-cases (proves (resolve_signing_pubkey user_id st.key_table) pubkey)) [
              | inr other ↦ rw (enabled, other, recover_account) refl
              | inl same ↦ elim (Result-cases (get_user user_id st.users)) [
                | inr (e, absent) ↦ rw (enabled, same, absent, recover_account) refl
                | inl (user, account) ↦ elim (Sum-cases (restore_key lib req keys pubkey st).1) [
                  | inr (e, refusal) ↦ rw (enabled, same, account, refusal, recover_account) kept
                  | inl (n, restored) ↦ elim (Option-cases (lib.hash_password req.new_password)) [
                    | inl unhashed ↦
                        rw (enabled, same, account, restored, unhashed, recover_account) kept
                    | inr (hash, hashed) ↦
                        rw (enabled, same, account, restored, hashed, recover_account)
                          (reset_password-challenges clock.updated hash user keys pubkey n st'
                            ∙ kept)
                  ]
                ]
              ]
            ]
      ]
