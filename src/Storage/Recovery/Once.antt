-- ===== src/Storage/Recovery/Once.antt =====
-- A recovery challenge is consumed once, before it expires.
use cloistr_signer.Prelude.{
  String, Bool, true, false, Option, none, some, List, [], ◌∷◌, ◌≡◌, arith, Option-cases, inl, inr,
  str_eq, ltb, ◌≤◌, not, ap, refl,
}
use cloistr_signer.Prelude.Dict.{lookup, insert, lookup-insert, lookup-insert_self, lookup-retain}
use cloistr_signer.Storage.Types.{Time, challenge_not_found, ok, err}
use cloistr_signer.Storage.Recovery.{
  RecoveryChallenge, RecoveryChallenges, create_recovery_challenge, consume_recovery_challenge,
  delete_expired_recovery_challenges,
}

-- No unused challenge stands under the text.
abbrev pub used_up : Option RecoveryChallenge → Bool
used_up none = true
used_up (some c) = elim c.used_at [ none ↦ false | some _ ↦ true ]

-- What `ConsumeRecoveryChallenge` accepts: a stored challenge, unused, not past its expiry.
pub record IsOpen (now : Time) (id : String) (m : RecoveryChallenges) (c : RecoveryChallenge)
    : Type 0 where
  pub stored : lookup id m ≡ some c
  pub in_time : now ≤ c.expires_at
  pub unused : c.used_at ≡ none

module _ (now t : Time) (id : String) (m : RecoveryChallenges) where
  pub IsOpen-consumed :
      (c : RecoveryChallenge)
      → IsOpen now id m c
      → consume_recovery_challenge now t id m
        ≡ (insert id (record c { used_at = some t }) m, ok (record c { used_at = some t }))
  unfolding consume_recovery_challenge
  IsOpen-consumed c o =
      rw (o.stored, consume_recovery_challenge) (rw o.unused (ground (arith, o.in_time)))

  pub consumed-IsOpen :
      (out : RecoveryChallenge)
      → (consume_recovery_challenge now t id m).1 ≡ ok out
      → (c : RecoveryChallenge) × IsOpen now id m c × (out ≡ record c { used_at = some t })
  unfolding consume_recovery_challenge
  consumed-IsOpen out h = elim (Option-cases (lookup id m)) [
    | inl absent ↦ absurd (let e = h in ground (arith, absent))
    | inr (c, found) ↦ (
      c,
      record { stored = found; in_time = ground (arith, found); unused = ground (arith, found) },
      ground (arith, found),
    )
  ]

  pub used_up_refused :
      used_up (lookup id m) ≡ true
      → (consume_recovery_challenge now t id m).1 ≡ err challenge_not_found
  unfolding consume_recovery_challenge
  used_up_refused h = elim (Option-cases (lookup id m)) [
    | inl absent ↦ rw (absent, consume_recovery_challenge) refl
    | inr (c, found) ↦ ground (arith, found)
  ]

  consume-used_up :
      (j : String)
      → used_up (lookup j m) ≡ true
      → used_up (lookup j (consume_recovery_challenge now t id m).0) ≡ true
  unfolding consume_recovery_challenge
  consume-used_up j h = elim (Option-cases (lookup id m)) [
    | inl absent ↦ rw (absent, consume_recovery_challenge) h
    | inr (c, found) ↦ ground (arith, found, lookup-insert id j (record c { used_at = some t }) m)
  ]

  consumed-used_up :
      (out : RecoveryChallenge)
      → (consume_recovery_challenge now t id m).1 ≡ ok out
      → used_up (lookup id (consume_recovery_challenge now t id m).0) ≡ true
  unfolding consume_recovery_challenge
  consumed-used_up out h =
      let (c, o, _) = consumed-IsOpen out h in
      ground (
        arith,
        ap (λ x. x.0) (IsOpen-consumed c o),
        lookup-insert_self id (record c { used_at = some t }) m,
      )

pub data RecoveryCall : Type 0 where
  create : RecoveryChallenge → RecoveryCall
  consume : Time → Time → String → RecoveryCall
  clean : Time → RecoveryCall

unfoldable pub step : RecoveryCall → RecoveryChallenges → RecoveryChallenges
step (create c) m = create_recovery_challenge c m
step (consume now t id) m = (consume_recovery_challenge now t id m).0
step (clean now) m = (delete_expired_recovery_challenges now m).0

unfoldable pub run : List RecoveryCall → RecoveryChallenges → RecoveryChallenges
run [] m = m
run (c ∷ cs) m = run cs (step c m)

abbrev pub creates : String → RecoveryCall → Bool
creates id (create c) = str_eq c.id id
creates id _ = false

abbrev pub NoneCreates : String → List RecoveryCall → Type 0
NoneCreates id [] = Unit
NoneCreates id (c ∷ cs) = (creates id c ≡ false) × NoneCreates id cs

step-used_up :
    (c : RecoveryCall) (m : RecoveryChallenges) (id : String)
    → creates id c ≡ false
    → used_up (lookup id m) ≡ true
    → used_up (lookup id (step c m)) ≡ true
unfolding step create_recovery_challenge delete_expired_recovery_challenges
step-used_up (create c) m id other h = ground (arith, lookup-insert c.id id c m)
step-used_up (consume now t j) m id other h = consume-used_up now t j m id h
step-used_up (clean now) m id other h =
    ground (arith, lookup-retain (λ _ c. not (ltb c.expires_at now)) id m)

run-used_up :
    (cs : List RecoveryCall) (m : RecoveryChallenges) (id : String)
    → NoneCreates id cs
    → used_up (lookup id m) ≡ true
    → used_up (lookup id (run cs m)) ≡ true
unfolding run
run-used_up [] m id n h = h
run-used_up (c ∷ cs) m id n h = run-used_up cs (step c m) id n.1 (step-used_up c m id n.0 h)

-- Once a recovery challenge is consumed it is refused, at any time and after any other calls on
-- challenges, unless one of them stores a new challenge with the same text.
pub consume_recovery_challenge-run :
    (now t : Time) (id : String) (m : RecoveryChallenges) (out : RecoveryChallenge)
    (cs : List RecoveryCall) (now' t' : Time)
    → (consume_recovery_challenge now t id m).1 ≡ ok out
    → NoneCreates id cs
    → (consume_recovery_challenge now' t' id (run cs (consume_recovery_challenge now t id m).0)).1
      ≡ err challenge_not_found
consume_recovery_challenge-run now t id m out cs now' t' won n =
    let m' = (consume_recovery_challenge now t id m).0 in
    used_up_refused now' t' id (run cs m')
      (run-used_up cs m' id n (consumed-used_up now t id m out won))
