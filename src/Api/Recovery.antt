-- ===== src/Api/Recovery.antt =====
-- internal/api/recovery.go: the second step of account recovery, which resets a password on a proof that
-- the caller holds the account's identity key, and the opt-out. JSON, signatures, NIP-19, bcrypt and the cipher under a passphrase are parameters. Each reading of the
-- clock is an argument; logs are left out.
pub mod Challenge
pub mod Issued
pub mod Restored
pub mod Proven
use cloistr_signer.Prelude.{
  ℕ, ◌+◌, ◌*◌, String, Bool, true, false, not, ◌&&◌, ◌||◌, Option, none, some, List, [], ◌∷◌,
  if◌then◌else◌, ltb, ◌==◌, str_eq, ◌⊎◌, inl, inr,
}
use Prim.Native.String.{len, ◌++◌}
use text.Mathlib.Text.{starts_with}
use cloistr_signer.Prelude.Dict.{Dict, insert}
use cloistr_signer.Storage.Types.{Time, Key, KeyTable, Heap, User, UserTable, ok, err}
use cloistr_signer.Storage.Consents.{get_setting, set_setting}
use cloistr_signer.Storage.Keys.{list_keys, update_key_encryption}
use cloistr_signer.Storage.Users.{get_user, update_user}
use cloistr_signer.Storage.Recovery.{RecoveryChallenges, consume_recovery_challenge}
use cloistr_signer.Signer.Types.{Event}
use cloistr_signer.Api.Proof.{RecoveryLibrary, verify_recovery_proof}
use cloistr_signer.Api.Identity.{resolve_signing_pubkey, proves}

-- `keys` and `proxy_keys` are the signer's runtime maps.
pub record RecoveryState : Type 0 where
  pub challenges : RecoveryChallenges
  pub users : UserTable
  pub key_table : KeyTable
  pub settings : Dict String
  pub keys : Dict String
  pub proxy_keys : Dict String

unfoldable pub recovery_opt_out_key : String → String
recovery_opt_out_key user_id = "recovery_nsec_disabled:" ++ user_id

unfoldable pub recovery_disabled : String → Dict String → Bool
recovery_disabled user_id settings = elim (get_setting (recovery_opt_out_key user_id) settings) [
  | err _ ↦ false
  | ok v ↦ str_eq v "true"
]

-- `PUT` of `handleRecoverySettings`.
unfoldable pub set_recovery_enabled : String → Bool → Dict String → Dict String
set_recovery_enabled user_id enabled settings =
    set_setting (recovery_opt_out_key user_id) (if not enabled then "true" else "false") settings

unfoldable pub normalize_private_key : RecoveryLibrary → String → Option String
normalize_private_key lib text =
    let s = lib.trim text in
    if starts_with s "nsec1"
    then lib.decode_nsec s
    else if not (len s == 64)
    then none
    else if not (lib.is_hex s)
    then none
    else some s

unfoldable pub key_with_pubkey : Heap Key → String → List ℕ → Option Key
key_with_pubkey cell pubkey [] = none
key_with_pubkey cell pubkey (r ∷ keys) =
    let rest = key_with_pubkey cell pubkey keys in
    if str_eq (cell r).pubkey pubkey then some (cell r) else rest

abbrev pub key_type_proxy : String
key_type_proxy = "proxy"

-- `RegisterKey` and `RegisterProxyKey`: what they do to the runtime maps.
unfoldable pub register_key : Key → String → RecoveryState → RecoveryState
register_key target private_key st =
    if str_eq target.key_type key_type_proxy
    then record st {
      keys = insert target.pubkey private_key st.keys;
      proxy_keys = insert target.pubkey target.bunker_uri st.proxy_keys;
    }
    else record st { keys = insert target.pubkey private_key st.keys }

-- `false` is a returned error.
unfoldable pub rewrap_key_under_passphrase :
    RecoveryLibrary → List ℕ → String → String → String → RecoveryState → RecoveryState × Bool
rewrap_key_under_passphrase lib keys pubkey private_key passphrase st =
    elim (key_with_pubkey st.key_table.cell pubkey keys) [
      | none ↦ (st, false)
      | some target ↦ elim (lib.encrypt passphrase private_key) [
        | none ↦ (st, false)
        | some ciphertext ↦
            let (tbl, e) = update_key_encryption target.id ciphertext "passphrase" st.key_table in
            elim e [
              | some _ ↦ (st, false)
              | none ↦ (register_key target private_key (record st { key_table = tbl }), true)
            ]
      ]
    ]

-- Why a key was not restored.
pub data RestoreError : Type 0 where
  bad_nsec wrong_nsec not_restored : RestoreError

pub data RecoveryReply : Type 0 where
  refused : RestoreError → RecoveryReply
  recovered : ℕ → List String → Bool → RecoveryReply
  weak_password bad_challenge bad_proof disabled server_error : RecoveryReply

pub record RecoveryRequest : Type 0 where
  pub challenge : String
  pub signed_event : String
  pub new_password : String
  pub nsec : String

-- The clock in the use of the challenge (the test and the write), at the proof and in `UpdateUser`.
pub record RecoveryClock : Type 0 where
  pub tested : Time
  pub marked : Time
  pub proved : Time
  pub updated : Time

-- The restore of the proven key: how many keys it restored, or why the request ends.
unfoldable pub restore_key :
    RecoveryLibrary
    → RecoveryRequest
    → List ℕ
    → String
    → RecoveryState
    → RecoveryState × (ℕ ⊎ RestoreError)
restore_key lib req keys pubkey st =
    if str_eq (lib.trim req.nsec) ""
    then (st, inl 0)
    else elim (normalize_private_key lib req.nsec) [
      | none ↦ (st, inr bad_nsec)
      | some priv ↦ elim (lib.public_key_of priv) [
        | none ↦ (st, inr wrong_nsec)
        | some derived ↦
            let (st', fine) =
              rewrap_key_under_passphrase lib keys pubkey priv req.new_password st in
            if not (str_eq derived pubkey)
            then (st, inr wrong_nsec)
            else if fine
            then (st', inl 1)
            else (st', inr not_restored)
      ]
    ]

-- The pubkeys of the keys that are still sealed with the forgotten password.
unfoldable pub stranded_keys : Heap Key → String → ℕ → List ℕ → List String
stranded_keys cell pubkey restored [] = []
stranded_keys cell pubkey restored (r ∷ keys) =
    let rest = stranded_keys cell pubkey restored keys in
    if str_eq (cell r).pubkey pubkey && restored == 1
    then rest
    else if starts_with (cell r).encrypted_nsec "pbk:"
    then (cell r).pubkey ∷ rest
    else rest

-- The new password of `user`, a copy, and the end of a lockout. `vault_reset` is what
-- `resetVaultCredential` reports.
unfoldable pub reset_password :
    Time
    → String
    → Bool
    → User
    → List ℕ
    → String
    → ℕ
    → RecoveryState
    → RecoveryState × RecoveryReply
reset_password now hash vault_reset user keys pubkey restored st =
    let reset = record user {
      password_hash = hash;
      failed_login_attempts = 0;
      locked_until = none;
    } in
    let (users, e) = update_user now reset st.users in
    elim e [
      | some _ ↦ (st, server_error)
      | none ↦ (
        record st { users = users },
        recovered restored (stranded_keys st.key_table.cell pubkey restored keys) vault_reset,
      )
    ]

-- From the proof's pubkey on, for the account of the challenge.
unfoldable pub recover_account :
    RecoveryLibrary
    → RecoveryClock
    → Bool
    → RecoveryRequest
    → String
    → String
    → RecoveryState
    → RecoveryState × RecoveryReply
recover_account lib clock vault_reset req user_id pubkey st =
    let keys = list_keys user_id st.key_table in
    if recovery_disabled user_id st.settings
    then (st, disabled)
    else if not (proves (resolve_signing_pubkey user_id st.key_table) pubkey)
    then (st, bad_proof)
    else elim (get_user user_id st.users) [
      | err _ ↦ (st, server_error)
      | ok user ↦
          let (st', restored) = restore_key lib req keys pubkey st in
          elim restored [
            | inr e ↦ (st', refused e)
            | inl n ↦ elim (lib.hash_password req.new_password) [
              | none ↦ (st', server_error)
              | some hash ↦ reset_password clock.updated hash vault_reset user keys pubkey n st'
            ]
          ]
    ]

unfoldable pub handle_recovery_complete :
    RecoveryLibrary
    → RecoveryClock
    → Bool
    → RecoveryRequest
    → RecoveryState
    → RecoveryState × RecoveryReply
handle_recovery_complete lib clock vault_reset req st =
    if ltb (len req.new_password) 8
    then (st, weak_password)
    else let (m, found) =
        consume_recovery_challenge clock.tested clock.marked req.challenge st.challenges in
      let st' = record st { challenges = m } in
      elim found [
        | err _ ↦ (st', bad_challenge)
        | ok c ↦ elim (verify_recovery_proof lib clock.proved req.signed_event req.challenge) [
          | none ↦ (st', bad_proof)
          | some pubkey ↦ recover_account lib clock vault_reset req c.user_id pubkey st'
        ]
      ]
