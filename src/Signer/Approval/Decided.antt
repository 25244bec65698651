-- ===== src/Signer/Approval/Decided.antt =====
-- What decides a wait for approval.
use cloistr_signer.Prelude.{
  String, true, false, Option, some, List, [], ◌∷◌, ◌≡◌, refl, ◌++◌, inl, inr, ◌⊎◌, ◌↔◌,
}
use cloistr_signer.Storage.Types.{
  Time, Permission, Grants, ok, err, Error, Result, Result-cases, permission_expired,
  not_authorized,
}
use cloistr_signer.Storage.Grants.{get_permission}
use cloistr_signer.Storage.Grants.View.{grant}
use cloistr_signer.Storage.Grants.Access.{
  IsLive, Answer, live, lapsed, missing, get_permission-Answer, get_permission_live,
}
use cloistr_signer.Signer.Types.{Library, Request, Signer, result}
use cloistr_signer.Signer.Approval.{
  WaitEvent, answered, polled, deadline, cancelled, Decision, approved, denied, gave_up,
  wait_for_authorization, handle_pending_approval, permission_to_use, to_reply,
}
use cloistr_signer.Signer.Request.{handle_request}

-- An administrator approves, or a poll finds a grant of the client, and every earlier poll found none.
pub data ApprovedBy (target client : String) : List WaitEvent → Type 0 where
  by_admin : {events : List WaitEvent} → ApprovedBy target client (answered true ∷ events)
  by_poll :
      {now : Time} {g : Grants} {events : List WaitEvent} (p : Permission)
      → get_permission now target client g ≡ ok p
      → ApprovedBy target client (polled now g ∷ events)
  after_poll :
      {now : Time} {g : Grants} {events : List WaitEvent} (e : Error)
      → get_permission now target client g ≡ err e
      → ApprovedBy target client events
      → ApprovedBy target client (polled now g ∷ events)

approved_sound :
    (target client : String) (perm : Option Permission) (events : List WaitEvent)
    (sent : Option Permission)
    → wait_for_authorization target client perm events ≡ approved sent
    → ApprovedBy target client events
unfolding wait_for_authorization
approved_sound target client perm [] sent h = absurd (cc)
approved_sound target client perm (answered true ∷ es) sent h = by_admin
approved_sound target client perm (answered false ∷ es) sent h = absurd (cc)
approved_sound target client perm (polled now g ∷ es) sent h =
    elim (Result-cases (get_permission now target client g)) [
      | inl (p, found) ↦ by_poll p found
      | inr (e, missed) ↦ after_poll e missed (
          approved_sound target client perm es sent
            (let h' = h in rw (missed, wait_for_authorization) at h'))
    ]
approved_sound target client perm (deadline ∷ es) sent h = absurd (cc)
approved_sound target client perm (cancelled ∷ es) sent h = absurd (cc)

approved_complete :
    {target client : String} {events : List WaitEvent} (perm : Option Permission)
    → ApprovedBy target client events
    → (sent : Option Permission) × (wait_for_authorization target client perm events
        ≡ approved sent)
unfolding wait_for_authorization
approved_complete perm by_admin = (perm, refl)
approved_complete perm (by_poll p found) = (some p, rw (found, wait_for_authorization))
approved_complete perm (after_poll e missed rest) =
    let (sent, is) = approved_complete perm rest in (sent, rw (missed, wait_for_authorization) is)

-- `waitForAuthorization` ends in an approval exactly if an administrator approves or a poll finds a
-- grant of the client, before anything else ends the wait.
pub wait_approved_iff :
    (target client : String) (perm : Option Permission) (events : List WaitEvent)
    → ((sent : Option Permission) × (wait_for_authorization target client perm events
          ≡ approved sent))
      ↔ ApprovedBy target client events
wait_approved_iff target client perm events =
    (λ (sent, is). approved_sound target client perm events sent is, approved_complete perm)

abbrev Decision-cases :
    (d : Decision)
    → ((sent : Option Permission) × (d ≡ approved sent)) ⊎ (d ≡ denied) ⊎ (d ≡ gave_up)
Decision-cases (approved sent) = inl (sent, refl)
Decision-cases denied = inr (inl refl)
Decision-cases gave_up = inr (inr refl)

-- A result comes out of a wait only by an approval.
pub pending_result-ApprovedBy :
    (lib : Library) (now t u : Time) (target priv client : String) (req : Request)
    (perm : Option Permission) (events : List WaitEvent) (s : Signer) (text : String)
    → (handle_pending_approval lib now t u target priv client req perm events s).1 ≡ result text
    → ApprovedBy target client events
unfolding handle_pending_approval
pending_result-ApprovedBy lib now t u target priv client req perm events s text h =
    elim (Decision-cases (wait_for_authorization target client perm events)) [
      | inl approval ↦ (wait_approved_iff target client perm events).0 approval
      | inr (inl no_) ↦
          absurd (let e = (let h' = h in rw (no_, handle_pending_approval) at h') in cc)
      | inr (inr none_) ↦
          absurd (let e = (let h' = h in rw (none_, handle_pending_approval) at h') in cc)
    ]

-- Polls that found no live grant of the client.
abbrev pub AllMissed : String → String → List WaitEvent → Type 0
AllMissed target client [] = Unit
AllMissed target client (polled now g ∷ events) =
    ((p : Permission) → grant g target client ≡ some p → ¬ IsLive now p)
    × AllMissed target client events
AllMissed target client (_ ∷ events) = ⊥

poll_missed :
    (now : Time) (target client : String) (g : Grants)
    → ((p : Permission) → grant g target client ≡ some p → ¬ IsLive now p)
    → (e : Error) × (get_permission now target client g ≡ err e)
poll_missed now target client g missed = by_answer (get_permission-Answer now g target client)
  where
    by_answer : {r : Result Permission} → Answer now g target client r → (e : Error) × (r ≡ err e)
    by_answer (live p stored good) = absurd (missed p stored good)
    by_answer (lapsed p stored bad) = (permission_expired, refl)
    by_answer (missing none_stored) = (not_authorized, refl)

wait_found :
    (target client : String) (perm : Option Permission) (earlier : List WaitEvent) (at : Time)
    (g : Grants) (events : List WaitEvent) (p : Permission)
    → AllMissed target client earlier
    → get_permission at target client g ≡ ok p
    → wait_for_authorization target client perm (earlier ++ polled at g ∷ events)
      ≡ approved (some p)
unfolding wait_for_authorization
wait_found target client perm [] at g events p missed found = rw (found, wait_for_authorization)
wait_found target client perm (polled now h ∷ earlier) at g events p (miss, missed) found =
    let (e, is) = poll_missed now target client h miss in
    rw (is, wait_for_authorization)
      (wait_found target client perm earlier at g events p missed found)
wait_found target client perm (answered _ ∷ earlier) at g events p missed found = absurd missed
wait_found target client perm (deadline ∷ earlier) at g events p missed found = absurd missed
wait_found target client perm (cancelled ∷ earlier) at g events p missed found = absurd missed

-- A request that waits is served by the first poll that finds a live grant of its client, under that
-- grant, after any number of polls that found none and whatever is answered after it. The grant may be
-- the one that asks for approval of each request.
pub poll_approves :
    (lib : Library) (now t u : Time) (target priv client : String) (req : Request)
    (perm : Option Permission) (earlier : List WaitEvent) (at : Time) (g : Grants)
    (events : List WaitEvent) (s : Signer) (p : Permission)
    → AllMissed target client earlier
    → grant g target client ≡ some p
    → IsLive at p
    → handle_pending_approval lib now t u target priv client req perm
        (earlier ++ polled at g ∷ events)
        s
      ≡ (let (s', outcome) = handle_request lib now t u target priv client req p s in
          (s', to_reply outcome))
unfolding handle_pending_approval permission_to_use
poll_approves lib now t u target priv client req perm earlier at g events s p missed stored good =
    rw (
      wait_found target client perm earlier at g events p missed
          (get_permission_live at g target client p stored good),
      handle_pending_approval,
    )
