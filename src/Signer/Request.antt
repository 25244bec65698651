-- ===== src/Signer/Request.antt =====
-- internal/signer/signer.go: `handleRequest` as a whole.
pub mod Proxy
pub mod Usage
use Prim.Native.String.{slice, ◌++◌}
use cloistr_signer.Prelude.{
  ◌+◌, ◌*◌, String, Bool, true, false, not, Option, none, some, if◌then◌else◌, str_eq,
}
use cloistr_signer.Prelude.Dict.{lookup}
use cloistr_signer.Storage.Types.{Time, Permission, Session}
use cloistr_signer.Storage.Policies.{increment_rule_usage}
use cloistr_signer.Storage.Requests.{create_session}
use cloistr_signer.Signer.Types.{
  Request, Library, Outcome, done, fail, or_fail, Signer, usage_limit_exceeded, relays_failed,
  unknown_method,
}
use cloistr_signer.Signer.Sign.{handle_sign_event, handle_batch_sign}
use cloistr_signer.Signer.Cipher.{
  handle_nip04_encrypt, handle_nip04_decrypt, handle_nip44_encrypt, handle_nip44_decrypt,
  handle_ecdh_tag,
}
use cloistr_signer.Signer.Authorize.{check_policy_usage}
use cloistr_signer.Signer.Handle.{should_proxy_method, handle_proxy_request, get_upstream_pubkey}

-- 24 hours, in nanoseconds.
abbrev pub session_ttl : Time
session_ttl = 24 * 3600 * 1000000000

module _ (lib : Library) where
  -- `t` and `u` are the readings of the clock for the two times of the session.
  unfoldable pub connect_session : Time → Time → String → String → Permission → Session
  connect_session t u target client perm = record {
    id = (slice target 0 8 ++ ":") ++ slice client 0 8;
    key_id = target;
    client_pubkey = client;
    permissions = perm.methods;
    created_at = t;
    expires_at = u + session_ttl;
    vault_token = lib.vault_token_for target;
  }

  -- The encryption methods of the `switch`, and its `default`.
  unfoldable pub answer_cipher : Signer → String → String → Request → Outcome String
  answer_cipher s target priv req =
      if str_eq req.method "nip04_encrypt"
      then handle_nip04_encrypt lib s.key_table target priv req.params
      else if str_eq req.method "nip04_decrypt"
      then handle_nip04_decrypt lib priv req.params
      else if str_eq req.method "nip44_encrypt"
      then handle_nip44_encrypt lib priv req.params
      else if str_eq req.method "nip44_decrypt"
      then handle_nip44_decrypt lib priv req.params
      else if str_eq req.method "cloistr_ecdh_tag"
      then handle_ecdh_tag lib priv req.params
      else fail unknown_method

  -- The `switch` but for "connect", the one method that writes to storage.
  unfoldable pub answer_method :
      Signer → Option String → String → String → String → Request → Permission → Outcome String
  answer_method s bunker_uri target priv client req perm =
      if str_eq req.method "ping"
      then done "pong"
      else if str_eq req.method "get_public_key"
      then elim bunker_uri [
        | some uri ↦ get_upstream_pubkey lib s target priv uri
        | none ↦ done target
      ]
      else if str_eq req.method "get_relays"
      then or_fail relays_failed lib.connected_relays
      else if str_eq req.method "sign_event"
      then handle_sign_event lib s.key_table target priv client req.params perm
      else if str_eq req.method "batch_sign"
      then handle_batch_sign lib s.key_table target priv req.params perm
      else answer_cipher s target priv req

  unfoldable pub switch_method :
      Time
      → Time
      → Option String
      → String
      → String
      → String
      → Request
      → Permission
      → Signer
      → Signer × Outcome String
  switch_method t u bunker_uri target priv client req perm s =
      if str_eq req.method "connect"
      then (
        record s { sessions = create_session (connect_session t u target client perm) s.sessions },
        done "ack",
      )
      else (s, answer_method s bunker_uri target priv client req perm)

  -- `handleRequest` past the policy check.
  unfoldable pub answer :
      Time
      → Time
      → String
      → String
      → String
      → Request
      → Permission
      → Signer
      → Signer × Outcome String
  answer t u target priv client req perm s = elim (lookup target s.proxy_keys) [
    | some uri ↦
        if should_proxy_method req.method
        then (s, handle_proxy_request lib s target priv uri req client)
        else switch_method t u (some uri) target priv client req perm s
    | none ↦ switch_method t u none target priv client req perm s
  ]

  -- The deferred `IncrementRuleUsage`, which runs however the method ends.
  unfoldable pub count_usage : String → Signer → Signer
  count_usage rule_id s =
      if str_eq rule_id ""
      then s
      else record s { policies = (increment_rule_usage rule_id s.policies).0 }

  -- `now` is the clock at the policy's expiry test.
  unfoldable pub handle_request :
      Time
      → Time
      → Time
      → String
      → String
      → String
      → Request
      → Permission
      → Signer
      → Signer × Outcome String
  handle_request now t u target priv client req perm s =
      if str_eq perm.policy_id ""
      then answer t u target priv client req perm s
      else let (allowed, rule_id) = check_policy_usage now s.policies perm.policy_id req.method in
        if not allowed
        then (s, fail usage_limit_exceeded)
        else let (s', outcome) = answer t u target priv client req perm s in
          (count_usage rule_id s', outcome)
