-- ===== src/Storage/Lightning/Phases.antt =====
-- An LNURL-auth challenge as a state machine: it waits, a wallet signs it, a login redeems it. The calls
-- on the table move each challenge along its edges.
use cloistr_signer.Prelude.{
  ◌≤◌, ◌<◌, String, Bool, true, false, not, ◌&&◌, Option, none, some, List, [], ◌∷◌, ◌≡◌, ◌≢◌, ◌⊎◌,
  sym, ap, ◌∙◌, arith, eq_iff, Bool-cases, inl, inr, str_eq, if◌then◌else◌, ltb,
}
use cloistr_signer.Prelude.Dict.{lookup}
use cloistr_signer.Prelude.Distinct.{IsDistinct}
use cloistr_signer.Storage.Types.{Time}
use cloistr_signer.Storage.Lightning.{
  LightningChallenge, Challenges, create_lightning_challenge, live_lightning_challenge,
  authenticate_lightning_challenge, consume_lightning_challenge, clean_expired_lightning_challenges,
}

-- One entry for each key, which is the challenge's own.
pub record IsTable (m : Challenges) : Type 0 where
  pub distinct : IsDistinct m
  pub keyed : (k : String) (c : LightningChallenge) → lookup k m ≡ some c → c.k1 ≡ k

abbrev an_entry : String → LightningChallenge → Option (String × LightningChallenge)
an_entry k c = some (k, c)

some_pair :
    (j k : String) (x c : LightningChallenge) → an_entry j x ≡ an_entry k c → (j ≡ k) × (x ≡ c)
some_pair j k x c e = (cc, cc)

-- What the range finds is stored, live and meets the test.
pub live-found :
    (now : Time) (match : LightningChallenge → Bool) (m : Challenges) (k : String)
    (c : LightningChallenge)
    → IsDistinct m
    → live_lightning_challenge now match m ≡ some (k, c)
    → (lookup k m ≡ some c) × (match c ≡ true) × (now < c.expires_at)
unfolding live_lightning_challenge lookup
live-found now match [] k c d found = absurd (cc)
live-found now match ((j, x) ∷ m) k c d found =
    elim (Bool-cases (match x && ltb now x.expires_at)) [
      | inl hit ↦
          let (e, e') = some_pair j k x c (let h = found in rw hit at h) in
          (
            ground (arith, e, e', eq_iff j k),
            ap match (sym e') ∙ (ground (arith, hit)),
            rw (← e') (ground (arith, hit)),
          )
      | inr miss ↦
          let (at, meets, live) = live-found now match m k c d.1 (let h = found in rw miss at h) in
          (ground (arith, at, d.0, eq_iff j k), meets, live)
    ]

-- A stored challenge that is live and meets the test is not missed.
pub live-missed :
    (now : Time) (match : LightningChallenge → Bool) (m : Challenges) (k : String)
    (c : LightningChallenge)
    → live_lightning_challenge now match m ≡ none
    → lookup k m ≡ some c
    → (match c && ltb now c.expires_at) ≡ false
unfolding live_lightning_challenge lookup
live-missed now match [] k c none_live found = absurd (cc)
live-missed now match ((j, x) ∷ m) k c none_live found =
    ground (arith, live-missed now match m k c, eq_iff j k)

pub data ChallengeCall : Type 0 where
  create : LightningChallenge → ChallengeCall
  authenticate : Time → String → String → String → ChallengeCall
  consume : Time → String → ChallengeCall
  clean : Time → ChallengeCall

unfoldable pub step : ChallengeCall → Challenges → Challenges
step (create c) m = create_lightning_challenge c m
step (authenticate now k1 user_id linking_key) m =
    (authenticate_lightning_challenge now k1 user_id linking_key m).0
step (consume now session_id) m = (consume_lightning_challenge now session_id m).0
step (clean now) m = clean_expired_lightning_challenges now m

unfoldable pub run : List ChallengeCall → Challenges → Challenges
run [] m = m
run (c ∷ cs) m = run cs (step c m)

-- What is stored under a `k1`: the session that polls it, the user it is signed for, its expiry. No call
-- reads the status of an `other` one.
pub data Phase : Type 0 where
  absent : Phase
  waiting other : String → Time → Phase
  signed : String → String → Time → Phase

abbrev pub phase_of : Option LightningChallenge → Phase
phase_of none = absent
phase_of (some c) =
    if str_eq c.status "authenticated"
    then signed c.session_id c.user_id c.expires_at
    else if str_eq c.status "pending"
    then waiting c.session_id c.expires_at
    else other c.session_id c.expires_at

abbrev pub phase : String → Challenges → Phase
phase k1 m = phase_of (lookup k1 m)

abbrev pub Signable : Time → Phase → Type 0
Signable now (waiting s e) = now < e
Signable now _ = ⊥

abbrev pub Redeemable : Time → String → Phase → Type 0
Redeemable now s (signed s' u e) = (s' ≡ s) × (now < e)
Redeemable now s _ = ⊥

abbrev pub Lapsed : Time → Phase → Type 0
Lapsed now absent = ⊥
Lapsed now (waiting s e) = e ≤ now
Lapsed now (other s e) = e ≤ now
Lapsed now (signed s u e) = e ≤ now

-- The edges for the challenge under `k1`, where `v` and `v'` are the phases of all challenges before and
-- after the call. A challenge stays in its phase only where no edge of the call is open to it, or
-- another challenge of the session is redeemed in its place.
pub data Move (k1 : String) (v v' : String → Phase) : Phase → ChallengeCall → Phase → Type 0 where
  open_new :
      {p : Phase} {x : LightningChallenge}
      → x.k1 ≡ k1
      → (x.status ≡ "") ⊎ (x.status ≡ "pending")
      → Move k1 v v' p (create x) (waiting x.session_id x.expires_at)
  open_other :
      {p : Phase} {x : LightningChallenge}
      → x.k1 ≡ k1
      → x.status ≢ ""
      → x.status ≢ "pending"
      → Move k1 v v' p (create x) (other x.session_id x.expires_at)
  not_opened : {p : Phase} {x : LightningChallenge} → x.k1 ≢ k1 → Move k1 v v' p (create x) p
  sign :
      {s : String} {e now : Time} {k user_id linking_key : String}
      → k ≡ k1
      → now < e
      → Move k1 v v' (waiting s e) (authenticate now k user_id linking_key) (signed s user_id e)
  not_signed :
      {p : Phase} {now : Time} {k user_id linking_key : String}
      → (k ≢ k1) ⊎ ¬ Signable now p
      → Move k1 v v' p (authenticate now k user_id linking_key) p
  redeem :
      {s u : String} {e now : Time}
      → now < e
      → ((j : String) → j ≢ k1 → v' j ≡ v j)
      → Move k1 v v' (signed s u e) (consume now s) absent
  not_redeemed :
      {p : Phase} {now : Time} {s : String}
      → ¬ Redeemable now s p
      → Move k1 v v' p (consume now s) p
  rival :
      {p : Phase} {now : Time} {s : String} (j : String)
      → j ≢ k1
      → Redeemable now s (v j)
      → v' j ≡ absent
      → Move k1 v v' p (consume now s) p
  lapse : {p : Phase} {now : Time} → Lapsed now p → Move k1 v v' p (clean now) absent
  not_lapsed : {p : Phase} {now : Time} → ¬ Lapsed now p → Move k1 v v' p (clean now) p

-- A new challenge is not signed yet.
abbrev pub opens_waiting : ChallengeCall → Bool
opens_waiting (create c) = not (str_eq c.status "authenticated")
opens_waiting _ = true
