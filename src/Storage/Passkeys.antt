-- ===== src/Storage/Passkeys.antt =====
-- internal/storage/storage.go: passkeys and WebAuthn ceremonies in `MemoryStorage`. Three maps share a
-- passkey's struct, always a new one of the caller, so they hold its place in the heap. A credential id
-- is a list of bytes.
pub mod Hex
use Prim.Native.Nat.{◌/◌, ◌%◌}
use Prim.Native.Char.{Char}
use Prim.Native.String.{char_at, [] as nil, ◌∷◌ as ◌◂◌}
use cloistr_signer.Prelude.{
  ℕ, ◌+◌, String, Bool, not, Option, none, some, List, [], ◌∷◌, map, if◌then◌else◌, str_eq,
}
use cloistr_signer.Prelude.Dict.{Dict, lookup, delete, insert}
use cloistr_signer.Storage.Types.{
  Time, Error, user_not_found, session_not_found, Result, ok, err, Heap, update,
}

pub record PasskeyCredential : Type 0 where
  pub id : String
  pub user_id : String
  pub credential_id : List ℕ
  pub public_key : List ℕ
  pub aaguid : List ℕ
  pub sign_count : ℕ
  pub transport : List String
  pub name : String
  pub created_at : Time
  pub last_used_at : Option Time

pub record PasskeyTable : Type 0 where
  pub cell : Heap PasskeyCredential
  pub next : ℕ
  pub credentials : Dict ℕ
  pub creds_by_cred_id : Dict ℕ
  pub creds_by_user : Dict (List ℕ)

unfoldable pub hex_digit : ℕ → Char
hex_digit i = char_at "0123456789abcdef" i

unfoldable pub cred_key : List ℕ → String
cred_key [] = nil
cred_key (c ∷ b) = hex_digit (c / 16) ◂ (hex_digit (c % 16) ◂ cred_key b)

-- A missing slice reads as an empty one.
unfoldable pub creds_of : String → Dict (List ℕ) → List ℕ
creds_of user_id by_user = elim (lookup user_id by_user) [ none ↦ [] | some held ↦ held ]

unfoldable pub append_ref : ℕ → List ℕ → List ℕ
append_ref r [] = r ∷ []
append_ref r (s ∷ refs) = s ∷ append_ref r refs

unfoldable pub create_passkey_credential : PasskeyCredential → PasskeyTable → PasskeyTable
create_passkey_credential cred tbl = record {
  cell = update tbl.cell tbl.next cred;
  next = tbl.next + 1;
  credentials = insert cred.id tbl.next tbl.credentials;
  creds_by_cred_id = insert (cred_key cred.credential_id) tbl.next tbl.creds_by_cred_id;
  creds_by_user =
      insert cred.user_id (append_ref tbl.next (creds_of cred.user_id tbl.creds_by_user))
        tbl.creds_by_user;
}

unfoldable pub get_passkey_credential_by_credential_id :
    List ℕ → PasskeyTable → Result PasskeyCredential
get_passkey_credential_by_credential_id credential_id tbl =
    elim (lookup (cred_key credential_id) tbl.creds_by_cred_id) [
      | none ↦ err user_not_found
      | some r ↦ ok (tbl.cell r)
    ]

unfoldable pub list_passkey_credentials : String → PasskeyTable → List PasskeyCredential
list_passkey_credentials user_id tbl = map tbl.cell (creds_of user_id tbl.creds_by_user)

unfoldable pub update_passkey_credential_usage :
    Time → List ℕ → ℕ → PasskeyTable → PasskeyTable × Option Error
update_passkey_credential_usage now credential_id sign_count tbl =
    elim (lookup (cred_key credential_id) tbl.creds_by_cred_id) [
      | none ↦ (tbl, some user_not_found)
      | some r ↦ (
        record tbl {
          cell =
              update tbl.cell r
                (record (tbl.cell r) { sign_count = sign_count; last_used_at = some now });
        },
        none,
      )
    ]

-- The loop that keeps the user's passkeys with another id.
unfoldable pub without_id : Heap PasskeyCredential → String → List ℕ → List ℕ
without_id cell id [] = []
without_id cell id (r ∷ refs) =
    let rest = without_id cell id refs in if not (str_eq (cell r).id id) then r ∷ rest else rest

unfoldable pub delete_passkey_credential : String → PasskeyTable → PasskeyTable
delete_passkey_credential id tbl = elim (lookup id tbl.credentials) [
  | none ↦ tbl
  | some r ↦
      let cred = tbl.cell r in
      record tbl {
        credentials = delete id tbl.credentials;
        creds_by_cred_id = delete (cred_key cred.credential_id) tbl.creds_by_cred_id;
        creds_by_user =
            insert cred.user_id (without_id tbl.cell id (creds_of cred.user_id tbl.creds_by_user))
              tbl.creds_by_user;
      }
]

pub record WebAuthnSession : Type 0 where
  pub id : String
  pub user_id : String
  pub data_gob : List ℕ
  pub expires_at : Time
  pub created_at : Time

unfoldable pub create_webauthn_session :
    WebAuthnSession → Dict WebAuthnSession → Dict WebAuthnSession
create_webauthn_session session m = insert session.id session m

unfoldable pub get_webauthn_session : String → Dict WebAuthnSession → Result WebAuthnSession
get_webauthn_session id m = elim (lookup id m) [
  | none ↦ err session_not_found
  | some session ↦ ok session
]

unfoldable pub delete_webauthn_session : String → Dict WebAuthnSession → Dict WebAuthnSession
delete_webauthn_session id m = delete id m
