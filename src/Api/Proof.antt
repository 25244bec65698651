-- ===== src/Api/Proof.antt =====
-- internal/api/recovery.go: `verifyRecoveryProof`, a signed event that shows that its signer holds a key.
-- JSON, signatures and the ciphers are parameters, and the clock is an argument.
use cloistr_signer.Prelude.{
  ℕ, ◌+◌, ◌*◌, String, Bool, false, not, ◌&&◌, ◌||◌, Option, none, some, List, [], ◌∷◌,
  if◌then◌else◌, ltb, ◌==◌, str_eq,
}
use cloistr_signer.Storage.Types.{Time}
use cloistr_signer.Signer.Types.{Event}

-- What the handler calls of packages that are not in the repository; `none` is a returned error.
-- `event_time` is the time of a Nostr timestamp.
pub record RecoveryLibrary : Type 0 where
  pub trim : String → String
  pub parse_event : String → Option Event
  pub event_time : ℕ → Time
  pub check_signature : Event → Bool
  pub decode_nsec : String → Option String
  pub is_hex : String → Bool
  pub public_key_of : String → Option String
  pub encrypt : String → String → Option String
  pub hash_password : String → Option String

-- 5 minutes.
abbrev pub recovery_challenge_ttl : Time
recovery_challenge_ttl = 5 * 60 * 1000000000

abbrev pub recovery_auth_kind : ℕ
recovery_auth_kind = 27235

unfoldable pub is_challenge_tag : String → List String → Bool
is_challenge_tag challenge (name ∷ value ∷ _) = str_eq name "challenge" && str_eq value challenge
is_challenge_tag challenge _ = false

unfoldable pub carries_challenge : String → List (List String) → Bool
carries_challenge challenge [] = false
carries_challenge challenge (tag ∷ tags) =
    is_challenge_tag challenge tag || carries_challenge challenge tags

-- The tests of `verifyRecoveryProof` on an event.
unfoldable pub check_proof : RecoveryLibrary → Time → String → Event → Option String
check_proof lib now challenge ev =
    let signed_at = lib.event_time ev.created_at in
    if not (ev.kind == recovery_auth_kind)
    then none
    else if not (carries_challenge challenge ev.tags)
    then none
    else if ltb (signed_at + recovery_challenge_ttl) now
        || ltb (now + recovery_challenge_ttl) signed_at
    then none
    else if not (lib.check_signature ev)
    then none
    else some ev.pubkey

unfoldable pub verify_recovery_proof : RecoveryLibrary → Time → String → String → Option String
verify_recovery_proof lib now signed_event challenge =
    if str_eq (lib.trim signed_event) "" then none else elim (lib.parse_event signed_event) [
      | none ↦ none
      | some ev ↦ check_proof lib now challenge ev
    ]
