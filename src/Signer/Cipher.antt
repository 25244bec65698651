-- ===== src/Signer/Cipher.antt =====
-- internal/signer/signer.go: the NIP-04 and NIP-44 handlers, and internal/signer/ecdh_tag.go up to
-- its elliptic-curve arithmetic.
use Prim.Native.String.{len, slice}
use cloistr_signer.Prelude.{String, ◌&&◌, ◌||◌, List, ◌∷◌, if◌then◌else◌, ◌==◌, str_eq}
use cloistr_signer.Storage.Types.{KeyTable}
use cloistr_signer.Signer.Types.{
  Library, Outcome, fail, ◌>>=◌, or_fail, missing_parameter, cipher_failed, disposable_nip04,
}
use cloistr_signer.Signer.Sign.{key_is_disposable}

-- A 33-byte SEC1 key in hex loses its prefix.
unfoldable pub normalize_pubkey : String → String
normalize_pubkey pubkey =
    if len pubkey == 66 && (str_eq (slice pubkey 0 2) "02" || str_eq (slice pubkey 0 2) "03")
    then slice pubkey 2 (len pubkey)
    else pubkey

module _ (lib : Library) where
  unfoldable pub handle_nip04_encrypt : KeyTable → String → String → List String → Outcome String
  handle_nip04_encrypt tbl target priv (peer ∷ text ∷ _) =
      if key_is_disposable tbl target then fail disposable_nip04 else do
        secret ← or_fail cipher_failed (lib.shared_secret peer priv)
        or_fail cipher_failed (lib.nip04_encrypt text secret)
  handle_nip04_encrypt tbl target priv _ = fail missing_parameter

  unfoldable pub handle_nip04_decrypt : String → List String → Outcome String
  handle_nip04_decrypt priv (peer ∷ text ∷ _) = do
    secret ← or_fail cipher_failed (lib.shared_secret peer priv)
    or_fail cipher_failed (lib.nip04_decrypt text secret)
  handle_nip04_decrypt priv _ = fail missing_parameter

  unfoldable pub handle_nip44_encrypt : String → List String → Outcome String
  handle_nip44_encrypt priv (peer ∷ text ∷ _) = do
    key ← or_fail cipher_failed (lib.conversation_key (normalize_pubkey peer) priv)
    or_fail cipher_failed (lib.nip44_encrypt text key)
  handle_nip44_encrypt priv _ = fail missing_parameter

  unfoldable pub handle_nip44_decrypt : String → List String → Outcome String
  handle_nip44_decrypt priv (peer ∷ text ∷ _) = do
    key ← or_fail cipher_failed (lib.conversation_key (normalize_pubkey peer) priv)
    or_fail cipher_failed (lib.nip44_decrypt text key)
  handle_nip44_decrypt priv _ = fail missing_parameter

  unfoldable pub handle_ecdh_tag : String → List String → Outcome String
  handle_ecdh_tag priv (peer ∷ window ∷ _) =
      or_fail cipher_failed (lib.ecdh_tag priv (normalize_pubkey peer) window)
  handle_ecdh_tag priv _ = fail missing_parameter
