-- ===== src/Storage/Lightning/Calls.antt =====
-- What the calls on Lightning challenges do, and the form of the table that they keep.
use cloistr_signer.Prelude.{
  ◌<◌, String, Bool, ◌&&◌, some, List, [], ◌∷◌, ◌≡◌, refl, sym, subst, arith, eq_iff, Option-cases,
  inl, inr, ◌⊎◌, str_eq, ltb,
}
use cloistr_signer.Prelude.Dict.{
  lookup, delete, insert, lookup-insert, lookup-delete, lookup-retain,
}
use cloistr_signer.Prelude.Distinct.{
  IsDistinct, insert-IsDistinct, delete-IsDistinct, retain-IsDistinct,
}
use cloistr_signer.Storage.Types.{Time, ok, err, lightning_challenge_not_found}
use cloistr_signer.Storage.Lightning.{
  LightningChallenge, Challenges, default_status, create_lightning_challenge,
  live_lightning_challenge, authenticate_lightning_challenge, consume_lightning_challenge,
  clean_expired_lightning_challenges,
}
use cloistr_signer.Storage.Lightning.Phases.{
  IsTable, live-found, ChallengeCall, create, authenticate, consume, clean, step, run,
}

insert-IsTable :
    (k : String) (c : LightningChallenge) (m : Challenges)
    → c.k1 ≡ k
    → IsTable m
    → IsTable (insert k c m)
insert-IsTable k c m own w = record {
  distinct = insert-IsDistinct k c m w.distinct;
  keyed = λ j x at. ground (arith, lookup-insert k j c m, at, w.keyed j x, own, eq_iff k j);
}

delete-IsTable : (k : String) (m : Challenges) → IsTable m → IsTable (delete k m)
delete-IsTable k m w = record {
  distinct = delete-IsDistinct k m w.distinct;
  keyed = λ j x at. ground (arith, lookup-delete k j m, at, w.keyed j x);
}

default_status-k1 : (c : LightningChallenge) → (default_status c).k1 ≡ c.k1
unfolding default_status
default_status-k1 c = ground arith

pub default_status-session : (c : LightningChallenge) → (default_status c).session_id ≡ c.session_id
unfolding default_status
default_status-session c = ground arith

pub authenticate-cases :
    (now : Time) (k1 user_id linking_key : String) (m : Challenges)
    → IsDistinct m
    → ((authenticate_lightning_challenge now k1 user_id linking_key m).0 ≡ m)
      ⊎ ((k : String) × (c : LightningChallenge) × (lookup k m ≡ some c)
          × ((authenticate_lightning_challenge now k1 user_id linking_key m).0
              ≡ insert k
                  (record c {
                    status = "authenticated";
                    user_id = user_id;
                    linking_key = linking_key;
                  })
                  m))
unfolding authenticate_lightning_challenge
authenticate-cases now k1 user_id linking_key m d =
    let match : LightningChallenge → Bool = λ c. str_eq c.k1 k1 && str_eq c.status "pending" in
    elim (Option-cases (live_lightning_challenge now match m)) [
      | inl missed ↦ inl (rw (missed, authenticate_lightning_challenge) refl)
      | inr ((k, c), found) ↦
          let (at, _, _) = live-found now match m k c d found in
          inr (k, c, at, rw (found, authenticate_lightning_challenge) refl)
    ]

pub consume-cases :
    (now : Time) (s : String) (m : Challenges)
    → IsDistinct m
    → (consume_lightning_challenge now s m ≡ (m, err lightning_challenge_not_found))
      ⊎ ((k : String) × (c : LightningChallenge) × (lookup k m ≡ some c)
          × (c.session_id ≡ s)
          × (c.status ≡ "authenticated")
          × (now < c.expires_at)
          × (consume_lightning_challenge now s m ≡ (delete c.k1 m, ok c.user_id)))
unfolding consume_lightning_challenge
consume-cases now s m d =
    let match : LightningChallenge → Bool =
      λ c. str_eq c.session_id s && str_eq c.status "authenticated" in
    elim (Option-cases (live_lightning_challenge now match m)) [
      | inl missed ↦ inl (rw (missed, consume_lightning_challenge) refl)
      | inr ((k, c), found) ↦
          let (at, meets, live) = live-found now match m k c d found in
          inr (
            k,
            c,
            at,
            ground (arith, meets, eq_iff c.session_id s),
            ground (arith, meets, eq_iff c.status "authenticated"),
            live,
            rw (found, consume_lightning_challenge) refl,
          )
    ]

pub step-IsTable : (c : ChallengeCall) (m : Challenges) → IsTable m → IsTable (step c m)
unfolding step create_lightning_challenge clean_expired_lightning_challenges
step-IsTable (create c) m w = insert-IsTable c.k1 (default_status c) m (default_status-k1 c) w
step-IsTable (authenticate now k1 user_id linking_key) m w =
    elim (authenticate-cases now k1 user_id linking_key m w.distinct) [
      | inl same ↦ rw same w
      | inr (k, c, at, is) ↦ rw is (insert-IsTable k _ m (w.keyed k c at) w)
    ]
step-IsTable (consume now s) m w = elim (consume-cases now s m w.distinct) [
  | inl same ↦ subst (λ x. IsTable x.0) (sym same) w
  | inr (k, c, _, _, _, _, is) ↦ subst (λ x. IsTable x.0) (sym is) (delete-IsTable c.k1 m w)
]
step-IsTable (clean now) m w = record {
  distinct = retain-IsDistinct (λ _ c. ltb now c.expires_at) m w.distinct;
  keyed =
      λ j x at. ground (arith, lookup-retain (λ _ c. ltb now c.expires_at) j m, at, w.keyed j x);
}

pub run-IsTable : (cs : List ChallengeCall) (m : Challenges) → IsTable m → IsTable (run cs m)
unfolding run
run-IsTable [] m w = w
run-IsTable (c ∷ cs) m w = run-IsTable cs (step c m) (step-IsTable c m w)

pub empty-IsTable : IsTable []
unfolding lookup
empty-IsTable = record { distinct = tt; keyed = λ k c at. absurd (cc) }
