-- ===== src/Storage/Lightning/Moves.antt =====
-- The calls on Lightning challenges move each challenge along the edges of its state machine.
use cloistr_signer.Prelude.{
  ◌≤◌, ◌<◌, ◌≢◌, ◌⊎◌, ◌↔◌, String, Bool, true, false, ◌&&◌, none, some, ◌≡◌, refl, sym, ap, ◌∙◌,
  subst, arith, eq_iff, eq_refl, Bool-cases, Option-cases, inl, inr, str_eq, ltb,
}
use cloistr_signer.Prelude.Dict.{
  lookup, delete, insert, retain, lookup-insert, lookup-delete, lookup-retain,
}
use cloistr_signer.Storage.Types.{Time}
use cloistr_signer.Storage.Lightning.{
  LightningChallenge, Challenges, default_status, create_lightning_challenge,
  live_lightning_challenge, authenticate_lightning_challenge, consume_lightning_challenge,
  clean_expired_lightning_challenges,
}
use cloistr_signer.Storage.Lightning.Phases.{
  IsTable, live-found, ChallengeCall, create, authenticate, consume, clean, step, Phase, absent,
  waiting, signed, other, phase, phase_of, Signable, Redeemable, Lapsed, Move, open_new, open_other,
  not_opened, sign, not_signed, redeem, not_redeemed, rival, lapse, not_lapsed, opens_waiting,
  live-missed,
}

module _ (now : Time) (c : LightningChallenge) where
  Signable-pending :
      Signable now (phase_of (some c)) → (c.status ≡ "pending") × (now < c.expires_at)
  Signable-pending h = elim (Bool-cases (str_eq c.status "authenticated")) [
    | inl was ↦ absurd (let h' = h in rw was at h')
    | inr not_was ↦ elim (Bool-cases (str_eq c.status "pending")) [
      | inl waits ↦ ((eq_iff c.status "pending").0 waits, (let h' = h in rw (not_was, waits) at h'))
      | inr odd ↦ absurd (let h' = h in rw (not_was, odd) at h')
    ]
  ]

  Redeemable-authenticated :
      (s : String)
      → Redeemable now s (phase_of (some c))
      → (c.status ≡ "authenticated") × (c.session_id ≡ s) × (now < c.expires_at)
  Redeemable-authenticated s h = elim (Bool-cases (str_eq c.status "authenticated")) [
    | inl was ↦
        let (own, early) = (let h' = h in rw was at h') in
        ((eq_iff c.status "authenticated").0 was, own, early)
    | inr not_was ↦ elim (Bool-cases (str_eq c.status "pending")) [
      | inl waits ↦ absurd (let h' = h in rw (not_was, waits) at h')
      | inr odd ↦ absurd (let h' = h in rw (not_was, odd) at h')
    ]
  ]

  Lapsed-iff : Lapsed now (phase_of (some c)) ↔ (c.expires_at ≤ now)
  Lapsed-iff = elim (Bool-cases (str_eq c.status "authenticated")) [
    | inl was ↦ rw was (λ h. h, λ h. h)
    | inr not_was ↦ elim (Bool-cases (str_eq c.status "pending")) [
      | inl waits ↦ rw (not_was, waits) (λ h. h, λ h. h)
      | inr odd ↦ rw (not_was, odd) (λ h. h, λ h. h)
    ]
  ]

-- The phases of all challenges.
abbrev pub view : Challenges → String → Phase
view m k = phase k m

deleted : (k : String) (m : Challenges) → phase k (delete k m) ≡ absent
deleted k m = ground (arith, lookup-delete k k m, eq_refl k)

kept_besides : (k j : String) (m : Challenges) → k ≢ j → phase j (delete k m) ≡ phase j m
kept_besides k j m ne = ground (arith, lookup-delete k j m, eq_iff k j)

module _ (k1 : String) where
  -- A move between two phases, given as what they are.
  moved :
      {v v' : String → Phase} {p p' q q' : Phase} {c : ChallengeCall}
      → p' ≡ p
      → q' ≡ q
      → Move k1 v v' p c q
      → Move k1 v v' p' c q'
  moved {v} {v'} {p} {p'} {q} {q'} {c} from to m =
      subst (λ x. Move k1 v v' x c q') (sym from) (subst (λ x. Move k1 v v' p c x) (sym to) m)

  default_status-waiting :
      (c : LightningChallenge)
      → (c.status ≡ "") ⊎ (c.status ≡ "pending")
      → phase_of (some (default_status c)) ≡ waiting c.session_id c.expires_at
  unfolding default_status
  default_status-waiting c (inl bare) = rw bare refl
  default_status-waiting c (inr pending) = rw pending refl

  default_status-other :
      (c : LightningChallenge)
      → str_eq c.status "authenticated" ≡ false
      → str_eq c.status "" ≡ false
      → str_eq c.status "pending" ≡ false
      → phase_of (some (default_status c)) ≡ other c.session_id c.expires_at
  unfolding default_status
  default_status-other c fresh given odd = rw given (rw (fresh, odd) refl)

  open-Move :
      {v v' : String → Phase} {p : Phase} (c : LightningChallenge)
      → c.k1 ≡ k1
      → str_eq c.status "authenticated" ≡ false
      → Move k1 v v' p (create c) (phase_of (some (default_status c)))
  open-Move c own fresh = elim (Bool-cases (str_eq c.status "")) [
    | inl bare ↦
        let is = inl ((eq_iff c.status "").0 bare) in
        moved refl (default_status-waiting c is) (open_new own is)
    | inr given ↦ elim (Bool-cases (str_eq c.status "pending")) [
      | inl pending ↦
          let is = inr ((eq_iff c.status "pending").0 pending) in
          moved refl (default_status-waiting c is) (open_new own is)
      | inr odd ↦ moved refl (default_status-other c fresh given odd) (
          open_other own (ground (arith, given, eq_iff c.status ""))
            (ground (arith, odd, eq_iff c.status "pending")))
    ]
  ]

  create-Move :
      {v v' : String → Phase} (c : LightningChallenge) (m : Challenges)
      → str_eq c.status "authenticated" ≡ false
      → Move k1 v v' (phase k1 m) (create c) (phase k1 (create_lightning_challenge c m))
  unfolding create_lightning_challenge
  create-Move c m fresh =
      let law = lookup-insert c.k1 k1 (default_status c) m in
      elim (Bool-cases (str_eq c.k1 k1)) [
        | inl ours ↦
            let here : lookup k1 (insert c.k1 (default_status c) m) ≡ some (default_status c) =
              law ∙ rw ours refl in
            moved refl (ap phase_of here) (open-Move c ((eq_iff c.k1 k1).0 ours) fresh)
        | inr another ↦
            let kept : lookup k1 (insert c.k1 (default_status c) m) ≡ lookup k1 m =
              law ∙ rw another refl in
            moved refl (ap phase_of kept) (not_opened (ground (arith, another, eq_iff c.k1 k1)))
      ]

  authenticate-missed :
      (now : Time) (m : Challenges)
      → IsTable m
      → live_lightning_challenge now (λ c. str_eq c.k1 k1 && str_eq c.status "pending") m ≡ none
      → ¬ Signable now (phase k1 m)
  authenticate-missed now m w missed h = elim (Option-cases (lookup k1 m)) [
    | inl none_there ↦ absurd (let h' = h in rw none_there at h')
    | inr (c, at) ↦
        let (status, early) = Signable-pending now c (let h' = h in rw at at h') in
        let law = live-missed now _ m k1 c missed at in
        absurd (
          ground
            (arith, law, status, early, w.keyed k1 c at, eq_iff c.k1 k1, eq_iff c.status "pending"))
  ]

  authenticate-Move :
      {v v' : String → Phase} (now : Time) (k user_id linking_key : String) (m : Challenges)
      → IsTable m
      → Move k1 v v'
          (phase k1 m)
          (authenticate now k user_id linking_key)
          (phase k1 (authenticate_lightning_challenge now k user_id linking_key m).0)
  unfolding authenticate_lightning_challenge
  authenticate-Move now k user_id linking_key m w =
      let match : LightningChallenge → Bool = λ c. str_eq c.k1 k && str_eq c.status "pending" in
      elim (Option-cases (live_lightning_challenge now match m)) [
        | inl missed ↦
            rw (missed, authenticate_lightning_challenge)
              (not_signed (elim (Bool-cases (str_eq k k1)) [
                | inl ours ↦
                    let e = (eq_iff k k1).0 ours in
                    inr (authenticate-missed now m w (let h = missed in rw e at h))
                | inr another ↦ inl (ground (arith, another, eq_iff k k1))
              ]))
        | inr ((j, c), found) ↦
            let (at, meets, live) = live-found now match m j c w.distinct found in
            let own : j ≡ k = ground (arith, meets, eq_iff c.k1 k, w.keyed j c at) in
            let c' = record c {
              status = "authenticated";
              user_id = user_id;
              linking_key = linking_key;
            } in
            let law = lookup-insert j k1 c' m in
            rw (found, authenticate_lightning_challenge)
              (elim (Bool-cases (str_eq j k1)) [
                | inl ours ↦
                    let e = (eq_iff j k1).0 ours in
                    let pending : c.status ≡ "pending" =
                      ground (arith, meets, eq_iff c.status "pending") in
                    let is : phase_of (some c) ≡ waiting c.session_id c.expires_at =
                      rw pending refl in
                    let was : phase k1 m ≡ waiting c.session_id c.expires_at =
                      ap (λ i. phase_of (lookup i m)) (sym e) ∙ ap phase_of at ∙ is in
                    let here : lookup k1 (insert j c' m) ≡ some c' = law ∙ rw ours refl in
                    moved was (ap phase_of here) (sign (sym own ∙ e) live)
                | inr another ↦
                    let kept : lookup k1 (insert j c' m) ≡ lookup k1 m = law ∙ rw another refl in
                    moved refl (ap phase_of kept)
                      (not_signed (inl (ground (arith, another, own, eq_iff j k1))))
              ])
      ]

  consume-missed :
      (now : Time) (s : String) (m : Challenges)
      → live_lightning_challenge now
          (λ c. str_eq c.session_id s && str_eq c.status "authenticated")
          m
        ≡ none
      → ¬ Redeemable now s (phase k1 m)
  consume-missed now s m missed h = elim (Option-cases (lookup k1 m)) [
    | inl none_there ↦ absurd (let h' = h in rw none_there at h')
    | inr (c, at) ↦
        let (status, own, early) = Redeemable-authenticated now c s (let h' = h in rw at at h') in
        let law = live-missed now _ m k1 c missed at in
        absurd (
          ground (
            arith,
            law,
            status,
            own,
            early,
            eq_iff c.session_id s,
            eq_iff c.status "authenticated",
          ))
  ]

  consume-Move :
      (now : Time) (s : String) (m : Challenges)
      → IsTable m
      → Move k1
          (view m)
          (view (consume_lightning_challenge now s m).0)
          (phase k1 m)
          (consume now s)
          (phase k1 (consume_lightning_challenge now s m).0)
  unfolding consume_lightning_challenge
  consume-Move now s m w =
      let match : LightningChallenge → Bool =
        λ c. str_eq c.session_id s && str_eq c.status "authenticated" in
      elim (Option-cases (live_lightning_challenge now match m)) [
        | inl missed ↦
            rw (missed, consume_lightning_challenge) (not_redeemed (consume-missed now s m missed))
        | inr ((j, c), found) ↦
            let (at, meets, live) = live-found now match m j c w.distinct found in
            let there : lookup c.k1 m ≡ some c = ap (λ i. lookup i m) (w.keyed j c at) ∙ at in
            let is : phase_of (some c) ≡ signed s c.user_id c.expires_at =
              ground (arith, meets, eq_iff c.status "authenticated", eq_iff c.session_id s) in
            let was : phase c.k1 m ≡ signed s c.user_id c.expires_at = ap phase_of there ∙ is in
            let gone : phase c.k1 (delete c.k1 m) ≡ absent = deleted c.k1 m in
            rw (found, consume_lightning_challenge)
              (elim (Bool-cases (str_eq c.k1 k1)) [
                | inl ours ↦
                    let e = (eq_iff c.k1 k1).0 ours in
                    moved (ap (λ i. phase i m) (sym e) ∙ was)
                      (ap (λ i. phase i (delete c.k1 m)) (sym e) ∙ gone)
                      (redeem live (λ k ne. kept_besides c.k1 k m (λ e'. ne (sym e' ∙ e))))
                | inr another ↦
                    let ne : c.k1 ≢ k1 = ground (arith, another, eq_iff c.k1 k1) in
                    moved refl (kept_besides c.k1 k1 m ne)
                      (rival c.k1 ne (subst (Redeemable now s) (sym was) (refl, live)) gone)
              ])
      ]

  clean-Move :
      {v v' : String → Phase} (now : Time) (m : Challenges)
      → Move k1 v v' (phase k1 m) (clean now) (phase k1 (clean_expired_lightning_challenges now m))
  unfolding clean_expired_lightning_challenges
  clean-Move now m =
      let law = lookup-retain (λ _ c. ltb now c.expires_at) k1 m in
      elim (Option-cases (lookup k1 m)) [
        | inl none_there ↦
            moved refl (ground (arith, law, none_there))
              (not_lapsed (λ h. absurd (let h' = h in rw none_there at h')))
        | inr (c, at) ↦ elim (Bool-cases (ltb now c.expires_at)) [
          | inl live ↦
              let kept : phase k1 (retain (λ _ x. ltb now x.expires_at) m) ≡ phase k1 m =
                ground (arith, law, at, live) in
              moved refl kept (
                not_lapsed (λ h.
                  let past = (Lapsed-iff now c).0 (let h' = h in rw at at h') in
                  absurd (ground (arith, past, live))))
          | inr over ↦
              let gone : phase k1 (retain (λ _ x. ltb now x.expires_at) m) ≡ absent =
                ground (arith, law, at, over) in
              let past : c.expires_at ≤ now = ground (arith, over) in
              moved refl gone (lapse (rw at ((Lapsed-iff now c).1 past)))
        ]
      ]

  -- In a table with one challenge for each `k1`, its own, each call moves the challenge under `k1` along
  -- an edge that is open to it, and leaves it in its phase only if none is. It is opened when it is
  -- created, and `AuthenticateLightningChallenge` signs it exactly if it waits and is live. If it is
  -- signed for the session and live, `ConsumeLightningChallenge` redeems it, so that it is gone and no
  -- other has moved, or another one of the session in its place. It is cleaned exactly from its expiry
  -- on. New challenges are not created as signed.
  pub step-Move :
      (c : ChallengeCall) (m : Challenges)
      → IsTable m
      → opens_waiting c ≡ true
      → Move k1 (view m) (view (step c m)) (phase k1 m) c (phase k1 (step c m))
  unfolding step
  step-Move (create c) m w fresh = create-Move c m (ground (arith, fresh))
  step-Move (authenticate now k user_id linking_key) m w fresh =
      authenticate-Move now k user_id linking_key m w
  step-Move (consume now session_id) m w fresh = consume-Move now session_id m w
  step-Move (clean now) m w fresh = clean-Move now m
