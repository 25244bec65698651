-- ===== src/Storage/Tokens/Once.antt =====
-- A token is redeemed at most once.
use cloistr_signer.Prelude.{
  ℕ, ◌<◌, String, Bool, false, none, some, List, [], ◌∷◌, ◌≡◌, arith, eq_iff, Option-cases,
  Bool-cases, inl, inr, ◌⊎◌, ◌≢◌, str_eq,
}
use cloistr_signer.Prelude.Dict.{lookup, lookup-insert, lookup-delete}
use cloistr_signer.Storage.Types.{
  Time, Error, token_not_found, token_expired, token_redeemed, ok, err, Token, TokenTable, update,
}
use cloistr_signer.Storage.Tokens.{create_token, redeem_at, redeem_token, delete_token}
use cloistr_signer.Storage.Grants.{expired}

-- Every token is stored under its own id, at an allocated place.
pub record IsIndexed (tbl : TokenTable) : Type 0 where
  pub own_id : (id : String) (r : ℕ) → lookup id tbl.tokens ≡ some r → (tbl.cell r).id ≡ id
  pub allocated : (id : String) (r : ℕ) → lookup id tbl.tokens ≡ some r → r < tbl.next

pub data TokenCall : Type 0 where
  create : Token → TokenCall
  redeem : Time → Time → String → String → TokenCall
  remove : String → TokenCall

unfoldable pub step : TokenCall → TokenTable → TokenTable
step (create token) tbl = create_token token tbl
step (redeem now t id redeemer) tbl = (redeem_token now t id redeemer tbl).0
step (remove id) tbl = (delete_token id tbl).0

unfoldable pub run : List TokenCall → TokenTable → TokenTable
run [] tbl = tbl
run (c ∷ cs) tbl = run cs (step c tbl)

pub create_token-IsIndexed :
    (token : Token) (tbl : TokenTable) → IsIndexed tbl → IsIndexed (create_token token tbl)
unfolding create_token
create_token-IsIndexed token tbl w = record {
  own_id = λ id r found. ground (
    arith,
    lookup-insert token.id id tbl.next tbl.tokens,
    eq_iff token.id id,
    w.own_id id r,
    w.allocated id r,
    found,
  );
  allocated = λ id r found. ground (
    arith,
    lookup-insert token.id id tbl.next tbl.tokens,
    eq_iff token.id id,
    w.allocated id r,
    found,
  );
}

-- The table after a token is redeemed.
abbrev redeemed : Time → ℕ → String → TokenTable → TokenTable
redeemed t r u tbl = record tbl {
  cell = update tbl.cell r (record (tbl.cell r) { redeemed_at = some t; redeemed_by = u });
}

-- `RedeemToken` leaves the table and reports an error, or marks a stored token that was neither
-- redeemed nor expired.
pub redeem_token-cases :
    (now t : Time) (id u : String) (tbl : TokenTable)
    → ((e : Error) × (redeem_token now t id u tbl ≡ (tbl, err e)))
      ⊎ ((r : ℕ) × (lookup id tbl.tokens ≡ some r)
          × ((tbl.cell r).redeemed_at ≡ none)
          × (expired (tbl.cell r).expires_at now ≡ false)
          × (redeem_token now t id u tbl ≡ (redeemed t r u tbl, ok ((redeemed t r u tbl).cell r))))
unfolding redeem_token redeem_at
redeem_token-cases now t id u tbl = elim (Option-cases (lookup id tbl.tokens)) [
  | inl absent ↦ inl (token_not_found, rw (absent, redeem_token))
  | inr (r, found) ↦ elim (Option-cases (tbl.cell r).redeemed_at) [
    | inr (x, used) ↦ inl (token_redeemed, rw (found, redeem_token) (rw (used, redeem_at)))
    | inl unused ↦ elim (Bool-cases (expired (tbl.cell r).expires_at now)) [
      | inl late ↦ inl (token_expired, rw (found, redeem_token) (rw (unused, redeem_at) (rw late)))
      | inr good ↦ inr (
        r,
        found,
        unused,
        good,
        rw (found, redeem_token) (rw (unused, redeem_at) (rw good (ground arith))),
      )
    ]
  ]
]

redeemed-IsIndexed :
    (t : Time) (r : ℕ) (u : String) (tbl : TokenTable)
    → IsIndexed tbl
    → IsIndexed (redeemed t r u tbl)
redeemed-IsIndexed t r u tbl w = record {
  own_id = λ id s found. ground (arith, w.own_id id s found);
  allocated = w.allocated;
}

step-IsIndexed : (c : TokenCall) (tbl : TokenTable) → IsIndexed tbl → IsIndexed (step c tbl)
unfolding step delete_token
step-IsIndexed (create token) tbl w = create_token-IsIndexed token tbl w
step-IsIndexed (redeem now t id u) tbl w = elim (redeem_token-cases now t id u tbl) [
  | inl (e, refused) ↦ rw (refused, step) w
  | inr (r, found, unused, good, done) ↦ rw (done, step) (redeemed-IsIndexed t r u tbl w)
]
step-IsIndexed (remove id) tbl w = elim (Option-cases (lookup id tbl.tokens)) [
  | inl absent ↦ rw (absent, step, delete_token) w
  | inr (r, found) ↦
      rw (found, step, delete_token)
        (record {
          own_id = λ j s e. w.own_id j s (ground (arith, lookup-delete id j tbl.tokens));
          allocated = λ j s e. w.allocated j s (ground (arith, lookup-delete id j tbl.tokens));
        })
]

-- No token that may still be redeemed stands under the id.
abbrev pub IsSpent : String → TokenTable → Type 0
IsSpent id tbl = (r : ℕ) → lookup id tbl.tokens ≡ some r → (tbl.cell r).redeemed_at ≢ none

abbrev pub creates : String → TokenCall → Bool
creates id (create token) = str_eq token.id id
creates id _ = false

abbrev pub NoneCreates : String → List TokenCall → Type 0
NoneCreates id [] = Unit
NoneCreates id (c ∷ cs) = (creates id c ≡ false) × NoneCreates id cs

step-IsSpent :
    (id : String) (c : TokenCall) (tbl : TokenTable)
    → IsIndexed tbl
    → creates id c ≡ false
    → IsSpent id tbl
    → IsSpent id (step c tbl)
unfolding step delete_token create_token
step-IsSpent id (create token) tbl w other spent = λ r found.
    ground (arith, lookup-insert token.id id tbl.next tbl.tokens, w.allocated id r, spent r, found)
step-IsSpent id (redeem now t j u) tbl w other spent = elim (redeem_token-cases now t j u tbl) [
  | inl (e, refused) ↦ rw (refused, step) spent
  | inr (r, found, unused, good, done) ↦ rw (done, step) (λ s here. ground (arith, spent s here))
]
step-IsSpent id (remove j) tbl w other spent = elim (Option-cases (lookup j tbl.tokens)) [
  | inl absent ↦ rw (absent, step, delete_token) spent
  | inr (r, found) ↦
      rw (found, step, delete_token)
        (λ s here. spent s (ground (arith, lookup-delete j id tbl.tokens)))
]

run-IsSpent :
    (id : String) (cs : List TokenCall) (tbl : TokenTable)
    → IsIndexed tbl
    → NoneCreates id cs
    → IsSpent id tbl
    → IsSpent id (run cs tbl)
unfolding run
run-IsSpent id [] tbl w n spent = spent
run-IsSpent id (c ∷ cs) tbl w n spent =
    run-IsSpent id cs (step c tbl) (step-IsIndexed c tbl w) n.1 (step-IsSpent id c tbl w n.0 spent)

abbrev pub empty_table : Token → TokenTable
empty_table token = record { cell = λ _. token; next = 0; tokens = []; tokens_by_key = [] }

-- Token calls lead from a table in which each token stands under its own id, at an allocated place of
-- the heap, only to such tables.
pub run-IsIndexed :
    (cs : List TokenCall) (tbl : TokenTable) → IsIndexed tbl → IsIndexed (run cs tbl)
unfolding run
run-IsIndexed [] tbl w = w
run-IsIndexed (c ∷ cs) tbl w = run-IsIndexed cs (step c tbl) (step-IsIndexed c tbl w)

IsSpent-refused :
    (now t : Time) (id u : String) (tbl : TokenTable)
    → IsSpent id tbl
    → (e : Error) × (redeem_token now t id u tbl ≡ (tbl, err e))
IsSpent-refused now t id u tbl spent = elim (redeem_token-cases now t id u tbl) [
  | inl refused ↦ refused
  | inr (r, found, unused, good, done) ↦ absurd (spent r found unused)
]

redeemed-IsSpent :
    (now t : Time) (id u : String) (tbl : TokenTable) (token : Token)
    → (redeem_token now t id u tbl).1 ≡ ok token
    → IsSpent id (redeem_token now t id u tbl).0
redeemed-IsSpent now t id u tbl token won = elim (redeem_token-cases now t id u tbl) [
  | inl (e, refused) ↦ absurd (let h = (let h' = won in rw refused at h') in cc)
  | inr (r, found, unused, good, done) ↦ rw done (λ s here. ground arith)
]

step_redeem-IsIndexed :
    (now t : Time) (id u : String) (tbl : TokenTable)
    → IsIndexed tbl
    → IsIndexed (redeem_token now t id u tbl).0
unfolding step
step_redeem-IsIndexed now t id u tbl w = step-IsIndexed (redeem now t id u) tbl w

-- Once a token is redeemed, in a table in which each token stands under its own id, whoever redeems it
-- again, at any time and after any other token calls, gets an error and changes nothing, unless a
-- token is created under the same id.
pub redeem_token-run :
    (now t : Time) (id u : String) (tbl : TokenTable) (token : Token) (cs : List TokenCall)
    (now' t' : Time) (u' : String)
    → IsIndexed tbl
    → (redeem_token now t id u tbl).1 ≡ ok token
    → NoneCreates id cs
    → let after = run cs (redeem_token now t id u tbl).0 in
      (e : Error) × (redeem_token now' t' id u' after ≡ (after, err e))
redeem_token-run now t id u tbl token cs now' t' u' w won n =
    IsSpent-refused now' t' id u' (run cs (redeem_token now t id u tbl).0) (
      run-IsSpent id cs (redeem_token now t id u tbl).0 (step_redeem-IsIndexed now t id u tbl w) n
        (redeemed-IsSpent now t id u tbl token won))
