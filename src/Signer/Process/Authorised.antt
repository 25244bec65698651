-- ===== src/Signer/Process/Authorised.antt =====
-- Which requests are answered with a result: each way in is named, and there is no other.
use cloistr_signer.Prelude.{
  ℕ, String, true, false, Option, none, some, ◌≡◌, refl, arith, eq_iff, ◌≢◌, Bool-cases,
  Option-cases, inl, inr,
}
use cloistr_signer.Prelude.Dict.{lookup}
use cloistr_signer.Storage.Types.{Permission, Result, Result-cases, BunkerSecret}
use cloistr_signer.Storage.Grants.{get_permission}
use cloistr_signer.Storage.Grants.View.{grant}
use cloistr_signer.Storage.Grants.Access.{
  IsLive, Answer, live, lapsed, missing, get_permission-Answer, get_permission_lapsed,
}
use cloistr_signer.Storage.Secrets.{validate_bunker_secret}
use cloistr_signer.Storage.Secrets.Once.{IsOpen, accepted_IsOpen}
use cloistr_signer.Signer.Types.{Request, Library, Signer, result, error, grant_expired}
use cloistr_signer.Signer.Authorize.{is_method_allowed, should_require_approval, is_true}
use cloistr_signer.Signer.Authorize.Methods.{Permits, is_method_allowed_iff}
use cloistr_signer.Signer.Approval.Decided.{ApprovedBy, pending_result-ApprovedBy}
use cloistr_signer.Signer.Process.{
  Arrival, second_param, offered_secret, process_granted, process_unknown, process_new,
  process_request, await_approval, dispatch, must_evict,
}

-- The key, or else the configuration, asks for approval of clients without a grant.
pub data AsksNewClients (target : String) (s : Signer) : Type 0 where
  by_key :
      (r : ℕ)
      → lookup target s.key_table.keys_by_pubkey ≡ some r
      → (s.key_table.cell r).require_approval ≡ true
      → AsksNewClients target s
  by_config : s.require_approval ≡ true → AsksNewClients target s

pub data IsAuthorised (a : Arrival) (s : Signer) : Type 0 where
  -- a grant in force that covers the method and does not ask for approval of each request
  by_grant :
      (p : Permission)
      → grant s.grants a.target a.client ≡ some p
      → IsLive a.clock.looked_up p
      → Permits p.methods a.req.method
      → p.require_approval ≢ some true
      → IsAuthorised a s
  -- one that does, and the approval
  by_approval :
      (p : Permission)
      → grant s.grants a.target a.client ≡ some p
      → IsLive a.clock.looked_up p
      → Permits p.methods a.req.method
      → p.require_approval ≡ some true
      → ApprovedBy a.target a.client a.events
      → IsAuthorised a s
  -- no grant, and a "connect" with a secret that is good for the key
  by_secret :
      (secret : String) (bs : BunkerSecret)
      → grant s.grants a.target a.client ≡ none
      → a.req.method ≡ "connect"
      → second_param a.req.params ≡ some secret
      → IsOpen a.clock.tested a.target secret s.secrets bs
      → IsAuthorised a s
  -- no grant, new clients are asked about, and the approval
  by_admission :
      grant s.grants a.target a.client ≡ none
      → AsksNewClients a.target s
      → ApprovedBy a.target a.client a.events
      → IsAuthorised a s

should_require_approval-AsksNewClients :
    (target : String) (s : Signer)
    → should_require_approval s.key_table s.require_approval target none ≡ true
    → AsksNewClients target s
unfolding should_require_approval
should_require_approval-AsksNewClients target s h =
    elim (Option-cases (lookup target s.key_table.keys_by_pubkey)) [
      | inl absent ↦ by_config (ground (arith, absent))
      | inr (r, found) ↦ elim (Bool-cases (s.key_table.cell r).require_approval) [
        | inl yes' ↦ by_key r found yes'
        | inr no' ↦ by_config (ground (arith, found, no'))
      ]
    ]

offered_secret-some :
    (req : Request) (secret : String)
    → offered_secret req ≡ some secret
    → (req.method ≡ "connect") × (second_param req.params ≡ some secret)
offered_secret-some req secret h =
    (ground (arith, eq_iff req.method "connect"), ground (arith, eq_iff req.method "connect"))

module _ (lib : Library) where
  await_approval-ApprovedBy :
      (a : Arrival) (perm : Option Permission) (text : String)
      → (await_approval lib a perm).1 ≡ result text
      → ApprovedBy a.target a.client a.events
  unfolding await_approval
  await_approval-ApprovedBy a perm text h =
      pending_result-ApprovedBy lib a.clock.policy a.clock.session_from a.clock.session_to a.target
        a.priv a.client a.req perm a.events a.resumed text h

  granted-IsAuthorised :
      (a : Arrival) (s : Signer) (p : Permission) (text : String)
      → grant s.grants a.target a.client ≡ some p
      → IsLive a.clock.looked_up p
      → (process_granted lib a p s).1 ≡ result text
      → IsAuthorised a s
  unfolding process_granted should_require_approval
  granted-IsAuthorised a s p text found good h =
      elim (Bool-cases (is_method_allowed p a.req.method)) [
        | inr bad ↦ absurd (let h' = h in ground (arith, bad))
        | inl allowed ↦
            let permits = (is_method_allowed_iff p a.req.method).0 allowed in
            elim (Bool-cases (is_true p.require_approval)) [
              | inl asks ↦
                  by_approval p found good permits (ground (arith, asks))
                    (await_approval-ApprovedBy a (some p) text (ground (arith, allowed, asks)))
              | inr free ↦ by_grant p found good permits (ground (arith, free))
            ]
      ]

  unknown-IsAuthorised :
      (a : Arrival) (s s' : Signer) (text : String)
      → grant s.grants a.target a.client ≡ none
      → (should_require_approval s'.key_table s'.require_approval a.target none ≡ true
          → AsksNewClients a.target s)
      → (process_unknown lib a s').1 ≡ result text
      → IsAuthorised a s
  unfolding process_unknown
  unknown-IsAuthorised a s s' text absent asks h =
      elim (Bool-cases (should_require_approval s'.key_table s'.require_approval a.target none)) [
        | inr closed ↦ absurd (let h' = h in ground (arith, closed))
        | inl asked ↦
            by_admission absent (asks asked)
              (await_approval-ApprovedBy a none text (ground (arith, asked)))
      ]

  new-IsAuthorised :
      (a : Arrival) (s : Signer) (text : String)
      → grant s.grants a.target a.client ≡ none
      → (process_new lib a s).1 ≡ result text
      → IsAuthorised a s
  unfolding process_new
  new-IsAuthorised a s text absent h =
      let asks = should_require_approval-AsksNewClients a.target s in
      elim (Option-cases (offered_secret a.req)) [
        | inl bare ↦
            unknown-IsAuthorised a s s text absent asks (let h' = h in rw (bare, process_new) at h')
        | inr (secret, offered) ↦
            let v =
              validate_bunker_secret a.clock.tested a.clock.marked a.target secret s.secrets in
            elim (Result-cases v.1) [
              | inl (out, good) ↦
                  let (bs, valid, _) =
                    accepted_IsOpen a.clock.tested a.clock.marked a.target secret s.secrets out
                      good in
                  let (connect, second) = offered_secret-some a.req secret offered in
                  by_secret secret bs absent connect second valid
              | inr (e, bad) ↦
                  unknown-IsAuthorised a s (record s { secrets = v.0 }) text absent asks
                    (let h' = h in rw (offered, bad, process_new) at h')
            ]
      ]

  request-IsAuthorised :
      (a : Arrival) (s : Signer) (found : Result Permission) (text : String)
      → Answer a.clock.looked_up s.grants a.target a.client found
      → (process_request lib a found s).1 ≡ result text
      → IsAuthorised a s
  unfolding process_request
  request-IsAuthorised a s found text (live p stored good) h =
      granted-IsAuthorised a s p text stored good h
  request-IsAuthorised a s found text (lapsed p stored bad) h = absurd (cc)
  request-IsAuthorised a s found text (missing absent) h = new-IsAuthorised a s text absent h

dispatch_reply :
    (lib : Library) (a : Arrival) (s : Signer) (text : String)
    → (dispatch lib a s).1 ≡ some (result text)
    → (process_request lib a (get_permission a.clock.looked_up a.target a.client s.grants) s).1
      ≡ result text
unfolding dispatch
dispatch_reply lib a s text h =
    elim (Result-cases (get_permission a.clock.looked_up a.target a.client s.grants)) [
      | inl (p, e) ↦ ground (arith, e)
      | inr (x, e) ↦ ground (arith, e)
    ]

-- A request is answered with a result only if it is authorised: by a grant in force that covers the
-- method (with an approval, if the grant asks for it), by a bunker secret that is good for the key, or
-- by an approval of a client without a grant, where the key or the configuration asks for that.
pub dispatch_result-IsAuthorised :
    (lib : Library) (a : Arrival) (s : Signer) (text : String)
    → (dispatch lib a s).1 ≡ some (result text)
    → IsAuthorised a s
dispatch_result-IsAuthorised lib a s text h =
    request-IsAuthorised lib a s _ text
      (get_permission-Answer a.clock.looked_up s.grants a.target a.client)
      (dispatch_reply lib a s text h)

stored_key_stays :
    (target : String) (s : Signer) (r : ℕ)
    → lookup target s.key_table.keys_by_pubkey ≡ some r
    → must_evict target s ≡ false
unfolding must_evict
stored_key_stays target s r kept = ground (arith, kept)

-- A client whose stored grant is revoked or has expired is answered "grant expired", whatever it
-- asks, offers or waits for, and nothing changes, as long as the key is stored.
pub dispatch_lapsed :
    (lib : Library) (a : Arrival) (s : Signer) (p : Permission) (r : ℕ)
    → grant s.grants a.target a.client ≡ some p
    → ¬ IsLive a.clock.looked_up p
    → lookup a.target s.key_table.keys_by_pubkey ≡ some r
    → dispatch lib a s ≡ (s, some (error grant_expired))
unfolding dispatch process_request
dispatch_lapsed lib a s p r stored bad kept =
    let refused = get_permission_lapsed a.clock.looked_up s.grants a.target a.client p stored bad in
    rw (refused, dispatch) (rw (stored_key_stays a.target s r kept) (rw refused refl))
