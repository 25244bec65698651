-- ===== src/Signer/Approval.antt =====
-- internal/signer/signer.go: `waitForAuthorization` and `handlePendingApproval`. The pending request
-- is stored before the wait and deleted after it, so storage is as before; the notice to the
-- administrators is left out.
pub mod Decided
use cloistr_signer.Prelude.{String, Bool, true, false, Option, none, some, List, [], ◌∷◌}
use cloistr_signer.Storage.Types.{Time, Permission, Grants, Result, ok, err}
use cloistr_signer.Storage.Grants.{get_permission}
use cloistr_signer.Signer.Types.{
  Request, Library, Outcome, done, fail, Signer, Reply, result, error, authorization_timeout,
  request_denied, failed,
}
use cloistr_signer.Signer.Handle.{new_permission}
use cloistr_signer.Signer.Request.{handle_request}

-- What the `select` loop may receive: an administrator's answer on the channel, a tick of the poll
-- (the clock, and the grants stored then, by whatever replica), the deadline, a cancelled context.
pub data WaitEvent : Type 0 where
  answered : Bool → WaitEvent
  polled : Time → Grants → WaitEvent
  deadline cancelled : WaitEvent

-- `some` permission may be sent along with an approval; the last answer is an error.
pub data Decision : Type 0 where
  approved : Option Permission → Decision
  denied : Decision
  gave_up : Decision

-- `ApproveRequest` sends the permission that the pending request was made with. The deadline comes
-- at last, so a list that ends is one that reaches it.
unfoldable pub wait_for_authorization :
    String → String → Option Permission → List WaitEvent → Decision
wait_for_authorization target client perm [] = gave_up
wait_for_authorization target client perm (answered true ∷ _) = approved perm
wait_for_authorization target client perm (answered false ∷ _) = denied
wait_for_authorization target client perm (polled now g ∷ events) =
    let later = wait_for_authorization target client perm events in
    elim (get_permission now target client g) [ ok found ↦ approved (some found) | err _ ↦ later ]
wait_for_authorization target client perm (deadline ∷ _) = gave_up
wait_for_authorization target client perm (cancelled ∷ _) = gave_up

abbrev pub to_reply : Outcome String → Reply
to_reply (done text) = result text
to_reply (fail e) = error (failed e)

-- `permToUse`.
unfoldable pub permission_to_use :
    String → String → Request → Option Permission → Option Permission → Permission
permission_to_use target client req (some found) perm = found
permission_to_use target client req none (some perm) = perm
permission_to_use target client req none none = new_permission target client (req.method ∷ [])

module _ (lib : Library) where
  -- `s` is the signer's state when the wait is over.
  unfoldable pub handle_pending_approval :
      Time
      → Time
      → Time
      → String
      → String
      → String
      → Request
      → Option Permission
      → List WaitEvent
      → Signer
      → Signer × Reply
  handle_pending_approval now t u target priv client req perm events s =
      elim (wait_for_authorization target client perm events) [
        | gave_up ↦ (s, error authorization_timeout)
        | denied ↦ (s, error request_denied)
        | approved sent ↦
            let (s', outcome) =
              handle_request lib now t u target priv client req
                (permission_to_use target client req sent perm) s in
            (s', to_reply outcome)
      ]
