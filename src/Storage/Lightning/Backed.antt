-- ===== src/Storage/Lightning/Backed.antt =====
-- A Lightning login is backed by a signed challenge of its session.
use cloistr_signer.Prelude.{
  String, Bool, true, false, ◌&&◌, ◌||◌, some, List, [], ◌∷◌, ◌≡◌, refl, ap, ◌∙◌, arith, eq_iff,
  inl, inr, ◌⊎◌, str_eq,
}
use cloistr_signer.Prelude.Dict.{lookup}
use cloistr_signer.Storage.Types.{Time, ok}
use cloistr_signer.Storage.Lightning.{LightningChallenge, Challenges, consume_lightning_challenge}
use cloistr_signer.Storage.Lightning.Phases.{
  IsTable, ChallengeCall, create, authenticate, step, run, Phase, waiting, signed, phase, Move,
  open_new, open_other, not_opened, sign, not_signed, redeem, not_redeemed, rival, lapse,
  not_lapsed, opens_waiting,
}
use cloistr_signer.Storage.Lightning.Moves.{step-Move}
use cloistr_signer.Storage.Lightning.Calls.{consume-cases, step-IsTable, run-IsTable, empty-IsTable}

-- The call creates a challenge under `k1` for the session; it signs the one under `k1` for the user.
abbrev pub opens_for : String → String → ChallengeCall → Bool
opens_for k1 s (create c) = str_eq c.k1 k1 && str_eq c.session_id s
opens_for k1 s _ = false

abbrev pub signs_for : String → String → ChallengeCall → Bool
signs_for k1 u (authenticate now k user_id linking_key) = str_eq k k1 && str_eq user_id u
signs_for k1 u _ = false

unfoldable pub any_call : (ChallengeCall → Bool) → List ChallengeCall → Bool
any_call test [] = false
any_call test (c ∷ cs) = test c || any_call test cs

-- Every new challenge waits for its signature.
abbrev pub AllOpenWaiting : List ChallengeCall → Type 0
AllOpenWaiting [] = Unit
AllOpenWaiting (c ∷ cs) = (opens_waiting c ≡ true) × AllOpenWaiting cs

module _ (k1 s u : String) where
  -- Where a waiting and a signed phase come from.
  waits-from :
      {v v' : String → Phase} {p q : Phase} {c : ChallengeCall} {e : Time}
      → Move k1 v v' p c q
      → q ≡ waiting s e
      → (p ≡ waiting s e) ⊎ (opens_for k1 s c ≡ true)
  waits-from (open_new {x} own fresh) is =
      inr (ground (arith, is, own, eq_iff x.k1 k1, eq_iff x.session_id s))
  waits-from (open_other own given odd) is = absurd (cc)
  waits-from (not_opened another) is = inl is
  waits-from (sign own live) is = absurd (cc)
  waits-from (not_signed closed) is = inl is
  waits-from (redeem live alone) is = absurd (cc)
  waits-from (not_redeemed closed) is = inl is
  waits-from (rival j ne closes gone) is = inl is
  waits-from (lapse over) is = absurd (cc)
  waits-from (not_lapsed live) is = inl is

  signed-from :
      {v v' : String → Phase} {p q : Phase} {c : ChallengeCall} {e : Time}
      → Move k1 v v' p c q
      → q ≡ signed s u e
      → (p ≡ signed s u e) ⊎ ((p ≡ waiting s e) × (signs_for k1 u c ≡ true))
  signed-from (open_new own fresh) is = absurd (cc)
  signed-from (open_other own given odd) is = absurd (cc)
  signed-from (not_opened another) is = inl is
  signed-from (sign {s = s'} {e = e'} {k} {user_id} own live) is =
      inr (ground (arith, is, own, eq_iff k k1, eq_iff user_id u))
  signed-from (not_signed closed) is = inl is
  signed-from (redeem live alone) is = absurd (cc)
  signed-from (not_redeemed closed) is = inl is
  signed-from (rival j ne closes gone) is = inl is
  signed-from (lapse over) is = absurd (cc)
  signed-from (not_lapsed live) is = inl is

  run-signed :
      (cs : List ChallengeCall) (m : Challenges) (e : Time)
      → IsTable m
      → AllOpenWaiting cs
      → phase k1 (run cs m) ≡ signed s u e
      → (phase k1 m ≡ signed s u e)
        ⊎ ((any_call (signs_for k1 u) cs ≡ true)
            × ((phase k1 m ≡ waiting s e) ⊎ (any_call (opens_for k1 s) cs ≡ true)))
  unfolding run any_call
  run-signed [] m e w all is = inl is
  run-signed (c ∷ cs) m e w (fresh, all) is =
      let move = step-Move k1 c m w fresh in
      elim (run-signed cs (step c m) e (step-IsTable c m w) all is) [
        | inl after ↦ elim (signed-from move after) [
          | inl before ↦ inl before
          | inr (waits, signs) ↦ inr (rw signs refl, inl waits)
        ]
        | inr (signs, inl after) ↦ elim (waits-from move after) [
          | inl before ↦ inr (ground (arith, signs), inl before)
          | inr opens ↦ inr (ground (arith, signs), inr (rw opens refl))
        ]
        | inr (signs, inr opens) ↦ inr (ground (arith, signs), inr (ground (arith, opens)))
      ]

signed_phase :
    (k s : String) (m : Challenges) (c : LightningChallenge)
    → lookup k m ≡ some c
    → c.session_id ≡ s
    → c.status ≡ "authenticated"
    → phase k m ≡ signed s c.user_id c.expires_at
signed_phase k s m c at own status = rw at (rw (own, status) refl)

-- A login that redeems a session's challenge, after any calls on an empty table, is for a user for
-- whom a call signed a challenge that was created for that session. New challenges are not created as
-- signed.
pub consume_lightning_challenge-backed :
    (cs : List ChallengeCall) (now : Time) (s u : String)
    → AllOpenWaiting cs
    → (consume_lightning_challenge now s (run cs [])).1 ≡ ok u
    → (k1 : String) × (any_call (opens_for k1 s) cs ≡ true) × (any_call (signs_for k1 u) cs ≡ true)
unfolding lookup
consume_lightning_challenge-backed cs now s u all won =
    let w : IsTable (run cs []) = run-IsTable cs [] empty-IsTable in
    elim (consume-cases now s (run cs []) w.distinct) [
      | inl refused ↦ absurd (let e = won in ground (arith, ap (λ x. x.1) refused))
      | inr (k, c, at, own, status, live, is) ↦
          let e : c.user_id ≡ u = ground (arith, ap (λ x. x.1) is, won) in
          let signed_here : phase k (run cs []) ≡ signed s u c.expires_at =
            signed_phase k s (run cs []) c at own status ∙ ap (λ x. signed s x c.expires_at) e in
          elim (run-signed k s u cs [] c.expires_at empty-IsTable all signed_here) [
            | inl before ↦ absurd (cc)
            | inr (signs, inl before) ↦ absurd (cc)
            | inr (signs, inr opens) ↦ (k, opens, signs)
          ]
    ]
