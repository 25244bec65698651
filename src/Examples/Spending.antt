-- ===== src/Examples/Spending.antt =====
-- Secrets and tokens that are used up.
use cloistr_signer.Prelude.{some, [], ◌∷◌, ◌≡◌, refl, ◌↔◌}
use cloistr_signer.Prelude.Dict.{lookup, insert}
use cloistr_signer.Storage.Types.{Error, ok, err, BunkerSecret, bunker_secret_invalid, TokenTable}
use cloistr_signer.Storage.Secrets.{validate_bunker_secret, validate_found}
use cloistr_signer.Storage.Secrets.Once
use cloistr_signer.Storage.Tokens.{redeem_token, redeem_at, create_token}
use cloistr_signer.Storage.Tokens.Once.{
  IsIndexed, empty_table, run, step, create, redeem, run-IsIndexed, redeem_token-run,
}
use cloistr_signer.Examples.{a_secret, one_secret, a_token}

accepted :
    (validate_bunker_secret 9 10 "k1" "hush" one_secret).1
    ≡ ok (record a_secret { used_at = some 10 })
unfolding validate_bunker_secret validate_found lookup
accepted = refl

validate_bunker_secret-run_example :
    (validate_bunker_secret 12 13 "k1" "hush" (
      Once.run
        (Once.SecretCall.clean 11 ∷ [])
        (validate_bunker_secret 9 10 "k1" "hush" one_secret).0)).1
    ≡ err bunker_secret_invalid
validate_bunker_secret-run_example =
    Once.validate_bunker_secret-run 9 10 "k1" "hush" one_secret
      (record a_secret { used_at = some 10 }) (Once.SecretCall.clean 11 ∷ []) 12 13 "k1" accepted
      (refl, tt)

validate_bunker_secret_iff_example :
    ((validate_bunker_secret 9 10 "k1" "hush" one_secret).1
      ≡ ok (record a_secret { used_at = some 10 }))
    ↔ ((bs : BunkerSecret) × Once.IsOpen 9 "k1" "hush" one_secret bs
        × (record a_secret { used_at = some 10 } ≡ record bs { used_at = some 10 }))
validate_bunker_secret_iff_example =
    Once.validate_bunker_secret_iff 9 10 "k1" "hush" one_secret
      (record a_secret { used_at = some 10 })

abbrev tokens : TokenTable
tokens = run (create a_token ∷ []) (empty_table a_token)

empty-IsIndexed : IsIndexed (empty_table a_token)
unfolding lookup
empty-IsIndexed = record {
  own_id = λ id r found. absurd (cc);
  allocated = λ id r found. absurd (cc);
}

tokens-IsIndexed : IsIndexed tokens
tokens-IsIndexed = run-IsIndexed (create a_token ∷ []) (empty_table a_token) empty-IsIndexed

redeemed_first :
    (redeem_token 5 6 "t1" "bob" tokens).1
    ≡ ok (record a_token { redeemed_at = some 6; redeemed_by = "bob" })
unfolding redeem_token redeem_at run step create_token lookup insert
redeemed_first = refl

redeem_token-run_example :
    (e : Error) × (redeem_token 8 9 "t1" "eve"
        (run (redeem 7 7 "t2" "eve" ∷ []) (redeem_token 5 6 "t1" "bob" tokens).0)
      ≡ (run (redeem 7 7 "t2" "eve" ∷ []) (redeem_token 5 6 "t1" "bob" tokens).0, err e))
redeem_token-run_example =
    redeem_token-run 5 6 "t1" "bob" tokens
      (record a_token { redeemed_at = some 6; redeemed_by = "bob" }) (redeem 7 7 "t2" "eve" ∷ []) 8
      9 "eve" tokens-IsIndexed redeemed_first (refl, tt)
