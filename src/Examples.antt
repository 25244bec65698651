-- ===== src/Examples.antt =====
-- Concrete keys, grants and secrets, and the theorems applied to them.
pub mod Accounts
pub mod Owning
pub mod Wallets
pub mod Guarding
pub mod Recovering
pub mod Relaying
pub mod Tables
pub mod Granting
pub mod Metering
pub mod Spending
pub mod Signing
use cloistr_signer.Prelude.{ℕ, String, Bool, true, false, Option, none, some, List, [], ◌∷◌}
use cloistr_signer.Storage.Types.{
  Key, Permission, KeyTable, Grants, BunkerSecret, Token, TokenTable, PolicyTable, PolicyRule,
}
use cloistr_signer.Storage.Secrets.{Secrets}
use cloistr_signer.Bunker.{Url}
use cloistr_signer.Signer.Handle.{new_permission}
use cloistr_signer.Signer.Types.{Event, Library, Request, Signer}

-- A key with the pubkey "k1".
abbrev pub a_key : Bool → Key
a_key single_grant = record {
  id = "id1";
  name = "main";
  pubkey = "k1";
  key_type = "user";
  encrypted_nsec = "";
  encryption_method = "";
  bunker_uri = "";
  upstream_pubkey = "";
  require_approval = false;
  disposable_mode = false;
  cover_traffic = false;
  tor_egress = false;
  relays = [];
  relay_mode = "";
  created_at = 1;
  created_by = "";
  owner_id = "";
  is_primary = true;
  single_grant = single_grant;
}

abbrev pub table : Bool → KeyTable
table single_grant = record {
  cell = λ _. a_key single_grant;
  keys = ("id1", 0) ∷ [];
  keys_by_pubkey = ("k1", 0) ∷ [];
  keys_by_name = ("main", 0) ∷ [];
}

-- A client's grant for "sign_event" on "k1".
abbrev pub a_grant : String → Permission
a_grant client = record (new_permission "k1" client ("sign_event" ∷ [])) { created_at = 5 }

abbrev pub an_expiring_grant : Permission
an_expiring_grant = record (a_grant "alice") { slot = "default"; expires_at = some 10 }

abbrev pub one_grant : Permission → Grants
one_grant perm = ("k1", (perm.user_pubkey, perm) ∷ []) ∷ []

abbrev pub a_secret : BunkerSecret
a_secret = record {
  id = "s1";
  key_pubkey = "k1";
  secret = "hush";
  expires_at = 100;
  created_at = 1;
  used_at = none;
}

abbrev pub one_secret : Secrets
one_secret = ("hush", a_secret) ∷ []

abbrev pub a_token : Token
a_token = record {
  id = "t1";
  policy_id = "";
  key_id = "k1";
  client_name = "app";
  created_by = "";
  expires_at = none;
  redeemed_at = none;
  redeemed_by = "";
  created_at = 1;
}

abbrev pub an_event : Event
an_event = record {
  id = "";
  pubkey = "";
  created_at = 7;
  kind = 1;
  tags = ("client" ∷ "app" ∷ []) ∷ [];
  content = "hello";
  sig = "";
}

-- Parses every text as the same event, and signs without a signature.
abbrev pub a_library : Library
a_library = record {
  url = record {
    parse_url = λ _. some (record { host = "k9"; query = λ _. [] });
    is_hex = λ _. true;
  };
  parse_event = λ _. some an_event;
  sign = λ _ event. some event;
  marshal_event = λ event. some event.content;
  marshal_batch = λ texts. some "batch";
  shared_secret = λ _ _. some "shared";
  nip04_encrypt = λ _ text. some text;
  nip04_decrypt = λ _ text. some text;
  conversation_key = λ _ _. some "shared";
  nip44_encrypt = λ _ text. some text;
  nip44_decrypt = λ _ text. some text;
  ecdh_tag = λ _ _ _. none;
  connected_relays = some "{}";
  frost_user_sign = λ _ _ _. none;
  frost_sign = λ _ _ _. none;
  upstream_request = λ _ _ _ _ _. none;
  upstream_pubkey = λ _ _ _. none;
  vault_token_for = λ _. "";
}

abbrev pub a_rule : PolicyRule
a_rule = record {
  id = "r1";
  policy_id = "p1";
  method = "*";
  allowed_kinds = [];
  max_usage = 1;
  current_usage = 0;
}

abbrev pub a_signer : Grants → Signer
a_signer grants = record {
  keys = ("k1", "priv") ∷ [];
  proxy_keys = [];
  frost_keys = [];
  has_frost_coordinator = false;
  require_approval = false;
  key_table = table false;
  grants = grants;
  policies = record { cell = λ _. a_rule; next = 0; policies = []; policy_rules = [] };
  secrets = one_secret;
  sessions = [];
}

abbrev pub a_request : String → Request
a_request method = record { id = "1"; method = method; params = "event" ∷ [] }
