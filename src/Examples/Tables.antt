-- ===== src/Examples/Tables.antt =====
-- FROST keys and passkeys.
use cloistr_signer.Prelude.{ℕ, true, none, List, [], ◌∷◌, ◌≡◌, refl, arith}
use cloistr_signer.Prelude.Dict.{lookup}
use cloistr_signer.Storage.Types.{err, frost_share_not_found}
use cloistr_signer.Storage.Frost.{
  FrostKey, FrostShare, FrostTable, delete_frost_key, list_frost_shares,
  get_frost_share_by_key_and_index, get_frost_share,
}
use cloistr_signer.Storage.Frost.Deleted.{delete_frost_key-get_frost_share}
use cloistr_signer.Storage.Passkeys.{cred_key}
use cloistr_signer.Storage.Passkeys.Hex.{decode_key, AllBytes, decode_key-cred_key}

abbrev a_frost_key : FrostKey
a_frost_key = record {
  id = "f1";
  name = "";
  pubkey = "p1";
  threshold = 2;
  total_shares = 3;
  group_public_key = [];
  verification_shares = [];
  created_at = 1;
  created_by = "";
  owner_id = "u1";
}

abbrev a_share : FrostShare
a_share = record {
  id = "s1";
  frost_key_id = "f1";
  share_index = 1;
  encrypted_share = [];
  holder_pubkey = "";
  holder_bunker_uri = "";
  is_local = true;
  public_share = [];
  created_at = 1;
}

abbrev frost_table : FrostTable
frost_table = record {
  frost_keys = ("f1", a_frost_key) ∷ [];
  frost_keys_by_pubkey = ("p1", a_frost_key) ∷ [];
  frost_shares = ("s1", a_share) ∷ [];
  frost_shares_by_key = ("f1", (1, a_share) ∷ []) ∷ [];
  frost_user_shares = [];
  frost_user_share_by_key = [];
}

frost_deleted : (delete_frost_key "f1" frost_table).1 ≡ none
unfolding delete_frost_key lookup
frost_deleted = refl

delete_frost_key-get_frost_share_example :
    (list_frost_shares "f1" (delete_frost_key "f1" frost_table).0 ≡ [])
    × (get_frost_share_by_key_and_index "f1" 1 (delete_frost_key "f1" frost_table).0
        ≡ err frost_share_not_found)
    × (get_frost_share "s1" (delete_frost_key "f1" frost_table).0
        ≡ get_frost_share "s1" frost_table)
delete_frost_key-get_frost_share_example =
    delete_frost_key-get_frost_share "f1" "s1" 1 frost_table frost_deleted

abbrev a_credential_id : List ℕ
a_credential_id = 0 ∷ 10 ∷ 255 ∷ []

credential_bytes : AllBytes a_credential_id
credential_bytes = ground (arith)

decode_key-cred_key_example : decode_key (cred_key a_credential_id) ≡ a_credential_id
decode_key-cred_key_example = decode_key-cred_key a_credential_id credential_bytes
