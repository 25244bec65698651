-- ===== src/Storage/Lightning/Once.antt =====
-- A session of a Lightning login logs in once.
use cloistr_signer.Prelude.{
  String, Bool, false, some, List, [], ◌∷◌, ◌≡◌, ◌≢◌, sym, ap, subst, ◌∙◌, arith, eq_iff,
  Bool-cases, inl, inr, str_eq, ltb,
}
use cloistr_signer.Prelude.Dict.{lookup, lookup-insert, lookup-delete, lookup-retain}
use cloistr_signer.Storage.Types.{Time, ok, err, lightning_challenge_not_found}
use cloistr_signer.Storage.Lightning.{
  LightningChallenge, Challenges, default_status, create_lightning_challenge,
  consume_lightning_challenge, clean_expired_lightning_challenges,
}
use cloistr_signer.Storage.Lightning.Phases.{
  IsTable, ChallengeCall, create, authenticate, consume, clean, step, run,
}
use cloistr_signer.Storage.Lightning.Calls.{
  default_status-session, authenticate-cases, consume-cases, step-IsTable, run-IsTable,
}

-- No stored challenge has the session.
abbrev pub NoSession : String → Challenges → Type 0
NoSession s m = (k : String) (c : LightningChallenge) → lookup k m ≡ some c → c.session_id ≢ s

-- At most one has it.
abbrev pub IsSole : String → Challenges → Type 0
IsSole s m =
    (j k : String) (c d : LightningChallenge)
    → lookup j m ≡ some c
    → lookup k m ≡ some d
    → c.session_id ≡ s
    → d.session_id ≡ s
    → j ≡ k

abbrev pub reopens : String → ChallengeCall → Bool
reopens s (create c) = str_eq c.session_id s
reopens s _ = false

abbrev pub NoneReopens : String → List ChallengeCall → Type 0
NoneReopens s [] = Unit
NoneReopens s (c ∷ cs) = (reopens s c ≡ false) × NoneReopens s cs

step-NoSession :
    (c : ChallengeCall) (m : Challenges) (s : String)
    → IsTable m
    → reopens s c ≡ false
    → NoSession s m
    → NoSession s (step c m)
unfolding step create_lightning_challenge clean_expired_lightning_challenges
step-NoSession (create x) m s w other none_has = λ k c at. elim (Bool-cases (str_eq x.k1 k)) [
  | inl new ↦
      let e : default_status x ≡ c =
        ground (arith, new, at, lookup-insert x.k1 k (default_status x) m) in
      let same = sym (default_status-session x) ∙ ap (λ y. y.session_id) e in
      λ is. ground (arith, other, same, is, eq_iff x.session_id s)
  | inr old ↦ none_has k c (ground (arith, old, at, lookup-insert x.k1 k (default_status x) m))
]
step-NoSession (authenticate now k1 user_id linking_key) m s w other none_has =
    elim (authenticate-cases now k1 user_id linking_key m w.distinct) [
      | inl same ↦ rw same none_has
      | inr (j, x, stored, is) ↦ rw is (λ k c at.
          let x' = record x {
            status = "authenticated";
            user_id = user_id;
            linking_key = linking_key;
          } in
          elim (Bool-cases (str_eq j k)) [
            | inl new ↦
                let e : x' ≡ c = ground (arith, new, at, lookup-insert j k x' m) in
                λ is_s. none_has j x stored (ap (λ y. y.session_id) e ∙ is_s)
            | inr old ↦ none_has k c (ground (arith, old, at, lookup-insert j k x' m))
          ])
    ]
step-NoSession (consume now t) m s w other none_has = elim (consume-cases now t m w.distinct) [
  | inl same ↦ subst (λ x. NoSession s x.0) (sym same) none_has
  | inr (j, x, _, _, _, _, is) ↦
      subst (λ y. NoSession s y.0) (sym is)
        (λ k c at. none_has k c (ground (arith, at, lookup-delete x.k1 k m)))
]
step-NoSession (clean now) m s w other none_has =
    λ k c at. none_has k c (ground (arith, at, lookup-retain (λ _ x. ltb now x.expires_at) k m))

run-NoSession :
    (cs : List ChallengeCall) (m : Challenges) (s : String)
    → IsTable m
    → NoneReopens s cs
    → NoSession s m
    → NoSession s (run cs m)
unfolding run
run-NoSession [] m s w others none_has = none_has
run-NoSession (c ∷ cs) m s w (other, others) none_has =
    run-NoSession cs (step c m) s (step-IsTable c m w) others
      (step-NoSession c m s w other none_has)

NoSession-refused :
    (now : Time) (s : String) (m : Challenges)
    → IsTable m
    → NoSession s m
    → (consume_lightning_challenge now s m).1 ≡ err lightning_challenge_not_found
NoSession-refused now s m w none_has = elim (consume-cases now s m w.distinct) [
  | inl is ↦ ap (λ x. x.1) is
  | inr (k, c, at, own, _, _, _) ↦ absurd (none_has k c at own)
]

consumed-NoSession :
    (now : Time) (s u : String) (m : Challenges)
    → IsTable m
    → IsSole s m
    → (consume_lightning_challenge now s m).1 ≡ ok u
    → NoSession s (consume_lightning_challenge now s m).0
consumed-NoSession now s u m w sole won = elim (consume-cases now s m w.distinct) [
  | inl refused ↦ absurd (let e = won in ground (arith, ap (λ x. x.1) refused))
  | inr (k, c, stored, own, _, _, is) ↦
      subst (λ y. NoSession s y.0) (sym is)
        (λ j d at same.
          let law = lookup-delete c.k1 j m in
          let old : lookup j m ≡ some d = ground (arith, at, law) in
          ground
            (arith, at, law, sole j k d c old stored same own, w.keyed k c stored, eq_iff c.k1 j))
]

-- A session logs in once: after a login that redeems its only challenge, every later login of the
-- session is refused, after any calls that create no challenge for it.
pub consume_lightning_challenge-run :
    (now : Time) (s u : String) (m : Challenges) (cs : List ChallengeCall) (later : Time)
    → IsTable m
    → IsSole s m
    → (consume_lightning_challenge now s m).1 ≡ ok u
    → NoneReopens s cs
    → (consume_lightning_challenge later s (run cs (consume_lightning_challenge now s m).0)).1
      ≡ err lightning_challenge_not_found
unfolding step
consume_lightning_challenge-run now s u m cs later w sole won others =
    let m' = (consume_lightning_challenge now s m).0 in
    let w' : IsTable m' = step-IsTable (consume now s) m w in
    NoSession-refused later s (run cs m') (run-IsTable cs m' w')
      (run-NoSession cs m' s w' others (consumed-NoSession now s u m w sole won))
