-- ===== src/Signer/Process.antt =====
-- internal/signer/signer.go: `decryptAndDispatch` from the lookup of the grant on, and
-- `processRequest`. The goroutine that notes the use of a grant runs before the reply here.
pub mod Authorised
use cloistr_signer.Prelude.{
  String, Bool, true, false, ◌&&◌, not, Option, none, some, List, [], ◌∷◌, if◌then◌else◌, str_eq,
}
use cloistr_signer.Prelude.Dict.{lookup, delete}
use cloistr_signer.Storage.Types.{Time, Permission, Result, ok, err, Error, permission_expired}
use cloistr_signer.Storage.Grants.{get_permission, set_permission, update_permission_last_used}
use cloistr_signer.Storage.Secrets.{validate_bunker_secret}
use cloistr_signer.Signer.Types.{
  Request, Library, Outcome, done, fail, Signer, Reply, result, error, method_not_allowed,
  grant_expired, unauthorized, failed,
}
use cloistr_signer.Signer.Authorize.{is_method_allowed, should_require_approval}
use cloistr_signer.Signer.Handle.{new_permission}
use cloistr_signer.Signer.Request.{handle_request}
use cloistr_signer.Signer.Approval.{WaitEvent, to_reply, handle_pending_approval}

-- The readings of the clock by one request: at the lookup of its grant; at the test and the mark of a
-- bunker secret; for the creation and the storing of the grant that a secret earns; at the policy's
-- expiry; for a session; at the note of the use.
pub record Clock : Type 0 where
  pub looked_up : Time
  pub tested : Time
  pub marked : Time
  pub created : Time
  pub stored : Time
  pub policy : Time
  pub session_from : Time
  pub session_to : Time
  pub used : Time

-- One request: who sends it to which of our keys, when, and what the environment does while it waits
-- for approval: the events that the wait receives, and the state at its end.
pub record Arrival : Type 0 where
  pub target : String
  pub priv : String
  pub client : String
  pub req : Request
  pub clock : Clock
  pub events : List WaitEvent
  pub resumed : Signer

abbrev pub second_param : List String → Option String
second_param (_ ∷ secret ∷ _) = if str_eq secret "" then none else some secret
second_param _ = none

-- The bunker secret that a "connect" offers.
abbrev pub offered_secret : Request → Option String
offered_secret req = if str_eq req.method "connect" then second_param req.params else none

-- `evictIfKeyDeleted`: what `UnregisterKey` removes from the runtime maps.
unfoldable pub unregister_key : String → Signer → Signer
unregister_key target s = record s {
  keys = delete target s.keys;
  proxy_keys = delete target s.proxy_keys;
  frost_keys = delete target s.frost_keys;
}

abbrev holds {ℓ} : {A : Type ℓ} → Option A → Bool
holds none = false
holds (some _) = true

unfoldable pub must_evict : String → Signer → Bool
must_evict target s =
    holds (lookup target s.keys) && not (holds (lookup target s.key_table.keys_by_pubkey))

abbrev is_expired_error : Error → Bool
is_expired_error permission_expired = true
is_expired_error _ = false

module _ (lib : Library) where
  unfoldable pub run_request : Arrival → Permission → Signer → Signer × Outcome String
  run_request a perm s =
      handle_request lib a.clock.policy a.clock.session_from a.clock.session_to a.target a.priv
        a.client a.req perm s

  -- `handleRequest`, and on success the note of the use.
  unfoldable pub serve : Arrival → Permission → Signer → Signer × Reply
  serve a perm s =
      let (s', outcome) = run_request a perm s in
      elim outcome [
        | fail e ↦ (s', error (failed e))
        | done text ↦ (
          record s' {
            grants = update_permission_last_used a.clock.used a.target a.client s'.grants;
          },
          result text,
        )
      ]

  unfoldable pub await_approval : Arrival → Option Permission → Signer × Reply
  await_approval a perm =
      handle_pending_approval lib a.clock.policy a.clock.session_from a.clock.session_to a.target
        a.priv a.client a.req perm a.events a.resumed

  -- `permErr == nil`
  unfoldable pub process_granted : Arrival → Permission → Signer → Signer × Reply
  process_granted a perm s =
      if not (is_method_allowed perm a.req.method)
      then (s, error method_not_allowed)
      else if should_require_approval s.key_table s.require_approval a.target (some perm)
      then await_approval a (some perm)
      else serve a perm s

  -- No grant and no valid secret.
  unfoldable pub process_unknown : Arrival → Signer → Signer × Reply
  process_unknown a s =
      if not (should_require_approval s.key_table s.require_approval a.target none)
      then (s, error unauthorized)
      else await_approval a none

  -- The grant that a valid secret earns. What `SetPermission` fills in is filled in here too, since
  -- it writes to its argument; its error is only logged.
  unfoldable pub admit_secret : Arrival → Signer → Signer × Reply
  admit_secret a s =
      let (g, perm, _) =
        set_permission s.key_table a.clock.created a.clock.stored
          (new_permission a.target a.client ("*" ∷ [])) true s.grants in
      serve a perm (record s { grants = g })

  unfoldable pub process_new : Arrival → Signer → Signer × Reply
  process_new a s = elim (offered_secret a.req) [
    | none ↦ process_unknown a s
    | some secret ↦
        let (secrets, verdict) =
          validate_bunker_secret a.clock.tested a.clock.marked a.target secret s.secrets in
        let s' : Signer = record s { secrets = secrets } in
        elim verdict [ ok _ ↦ admit_secret a s' | err _ ↦ process_unknown a s' ]
  ]

  unfoldable pub process_request : Arrival → Result Permission → Signer → Signer × Reply
  process_request a (ok perm) s = process_granted a perm s
  process_request a (err e) s =
      if is_expired_error e then (s, error grant_expired) else process_new a s

  -- `decryptAndDispatch` on a request that was decrypted and parsed; `none` sends nothing.
  unfoldable pub dispatch : Arrival → Signer → Signer × Option Reply
  dispatch a s =
      let found = get_permission a.clock.looked_up a.target a.client s.grants in
      let (s', reply) = process_request a found s in
      elim found [
        | ok _ ↦ (s', some reply)
        | err _ ↦
            if must_evict a.target s then (unregister_key a.target s, none) else (s', some reply)
      ]
