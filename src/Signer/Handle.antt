-- ===== src/Signer/Handle.antt =====
-- internal/signer/signer.go: `handleRequest`, the policy check and the switch over the methods, with
-- the forwarding of a proxy key's requests. Metrics and the audit log are left out.
use cloistr_signer.Prelude.{
  String, Bool, false, ◌||◌, not, none, some, List, [], ◌∷◌, if◌then◌else◌, str_eq,
}
use cloistr_signer.Prelude.Dict.{lookup}
use cloistr_signer.Bunker
use cloistr_signer.Storage.Types.{Permission, KeyTable}
use cloistr_signer.Signer.Types.{
  Request, Library, Outcome, done, fail, ◌>>=◌, or_fail, Signer, missing_parameter, invalid_event,
  signing_failed, bad_bunker_uri, upstream_failed, no_frost_coordinator, not_supported,
}
use cloistr_signer.Signer.Sign.{handle_sign_event}
use cloistr_signer.Signer.Cipher.{
  handle_nip04_encrypt, handle_nip04_decrypt, handle_nip44_encrypt, handle_nip44_decrypt,
}

unfoldable pub should_proxy_method : String → Bool
should_proxy_method method =
    str_eq method "sign_event"
    || str_eq method "nip04_encrypt"
    || str_eq method "nip04_decrypt"
    || str_eq method "nip44_encrypt"
    || str_eq method "nip44_decrypt"

-- The permission that `handleInternalProxy` and `processRequest` make up: the named fields, and Go's
-- zero values elsewhere.
abbrev pub new_permission : String → String → List String → Permission
new_permission key_id user_pubkey methods = record {
  key_id = key_id;
  user_pubkey = user_pubkey;
  slot = "";
  methods = methods;
  allowed_kinds = [];
  expires_at = none;
  policy_id = "";
  require_approval = none;
  delegate_pubkey = "";
  app_name = "";
  app_url = "";
  app_image = "";
  custom_name = "";
  created_at = 0;
  last_used_at = none;
  revoked_at = none;
  revoked_by = "";
  sliding_expiry = false;
}

abbrev pub proxy_permission : String → String → String → Permission
proxy_permission upstream proxy client =
    record (new_permission upstream proxy (
      "sign_event" ∷ "nip04_encrypt" ∷ "nip04_decrypt" ∷ "nip44_encrypt" ∷ "nip44_decrypt"
      ∷ "cloistr_ecdh_tag" ∷ "get_public_key" ∷ [])) { delegate_pubkey = client }

module _ (lib : Library) where
  unfoldable pub handle_internal_proxy :
      KeyTable → String → String → String → Request → String → Outcome String
  handle_internal_proxy tbl upstream upstream_priv proxy req client =
      if str_eq req.method "sign_event"
      then handle_sign_event lib tbl upstream upstream_priv "" req.params
          (proxy_permission upstream proxy client)
      else if str_eq req.method "nip04_encrypt"
      then handle_nip04_encrypt lib tbl upstream upstream_priv req.params
      else if str_eq req.method "nip04_decrypt"
      then handle_nip04_decrypt lib upstream_priv req.params
      else if str_eq req.method "nip44_encrypt"
      then handle_nip44_encrypt lib upstream_priv req.params
      else if str_eq req.method "nip44_decrypt"
      then handle_nip44_decrypt lib upstream_priv req.params
      else if str_eq req.method "get_public_key"
      then done upstream
      else fail not_supported

  unfoldable pub handle_frost_sign_event : String → String → List String → Outcome String
  handle_frost_sign_event target frost_key_id [] = fail missing_parameter
  handle_frost_sign_event target frost_key_id (param ∷ _) = do
    event ← or_fail invalid_event (lib.parse_event param)
    or_fail signing_failed (lib.frost_sign target frost_key_id (record event { pubkey = target }))

  unfoldable pub handle_frost_proxy : Bool → String → String → Request → Outcome String
  handle_frost_proxy available upstream frost_key_id req =
      if not available
      then fail no_frost_coordinator
      else if str_eq req.method "sign_event"
      then handle_frost_sign_event upstream frost_key_id req.params
      else if str_eq req.method "get_public_key"
      then done upstream
      else fail not_supported

  unfoldable pub handle_proxy_request :
      Signer → String → String → String → Request → String → Outcome String
  handle_proxy_request s target priv bunker_uri req client =
      elim (Bunker.parse lib.url bunker_uri) [
        | none ↦ fail bad_bunker_uri
        | some uri ↦ elim (lookup uri.signer_pubkey s.keys) [
          | some upstream_priv ↦
              handle_internal_proxy s.key_table uri.signer_pubkey upstream_priv target req client
          | none ↦ elim (lookup uri.signer_pubkey s.frost_keys) [
            | some frost_key_id ↦
                handle_frost_proxy s.has_frost_coordinator uri.signer_pubkey frost_key_id req
            | none ↦
                or_fail upstream_failed
                  (lib.upstream_request bunker_uri priv target req.method req.params)
          ]
        ]
      ]

  unfoldable pub get_upstream_pubkey : Signer → String → String → String → Outcome String
  get_upstream_pubkey s target priv bunker_uri = elim (Bunker.parse lib.url bunker_uri) [
    | none ↦ fail bad_bunker_uri
    | some uri ↦ elim (lookup uri.signer_pubkey s.keys) [
      | some _ ↦ done uri.signer_pubkey
      | none ↦ elim (lookup uri.signer_pubkey s.frost_keys) [
        | some _ ↦ done uri.signer_pubkey
        | none ↦ or_fail upstream_failed (lib.upstream_pubkey bunker_uri priv target)
      ]
    ]
  ]
