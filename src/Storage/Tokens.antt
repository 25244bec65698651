-- ===== src/Storage/Tokens.antt =====
-- internal/storage/storage.go: one-time access tokens in `MemoryStorage`.
pub mod Once
use cloistr_signer.Prelude.{
  ℕ, ◌+◌, String, Bool, true, false, Option, none, some, List, [], ◌∷◌, if◌then◌else◌, map,
}
use cloistr_signer.Prelude.Dict.{Dict, lookup, delete, insert, values}
use cloistr_signer.Storage.Types.{
  Time, Error, token_not_found, token_expired, token_redeemed, Result, ok, err, Token, TokenTable,
  update,
}
use cloistr_signer.Storage.Grants.{expired}

unfoldable pub tokens_of : String → TokenTable → Dict ℕ
tokens_of key_id tbl = elim (lookup key_id tbl.tokens_by_key) [ none ↦ [] | some held ↦ held ]

-- `CreateToken` of a new struct.
unfoldable pub create_token : Token → TokenTable → TokenTable
create_token token tbl = record tbl {
  cell = update tbl.cell tbl.next token;
  next = tbl.next + 1;
  tokens = insert token.id tbl.next tbl.tokens;
  tokens_by_key =
      insert token.key_id (insert token.id tbl.next (tokens_of token.key_id tbl)) tbl.tokens_by_key;
}

unfoldable pub get_token : String → TokenTable → Result Token
get_token id tbl = elim (lookup id tbl.tokens) [
  | none ↦ err token_not_found
  | some r ↦ ok (tbl.cell r)
]

unfoldable pub list_tokens : String → TokenTable → List Token
list_tokens key_id tbl = map tbl.cell (values (λ _ _. true) (tokens_of key_id tbl))

-- `RedeemToken` once the token is found; `now` is the clock at the test, `t` at the write.
unfoldable pub redeem_at : Time → Time → ℕ → String → TokenTable → TokenTable × Result Token
redeem_at now t r redeemer tbl =
    let token = tbl.cell r in
    elim token.redeemed_at [
      | some _ ↦ (tbl, err token_redeemed)
      | none ↦
          if expired token.expires_at now
          then (tbl, err token_expired)
          else let redeemed = record token { redeemed_at = some t; redeemed_by = redeemer } in
            (record tbl { cell = update tbl.cell r redeemed }, ok redeemed)
    ]

unfoldable pub redeem_token : Time → Time → String → String → TokenTable → TokenTable × Result Token
redeem_token now t id redeemer tbl = elim (lookup id tbl.tokens) [
  | none ↦ (tbl, err token_not_found)
  | some r ↦ redeem_at now t r redeemer tbl
]

-- The inner `delete` where the key has a map.
unfoldable pub drop_from_key : String → String → Dict (Dict ℕ) → Dict (Dict ℕ)
drop_from_key key_id id by_key = elim (lookup key_id by_key) [
  | none ↦ by_key
  | some held ↦ insert key_id (delete id held) by_key
]

unfoldable pub delete_token : String → TokenTable → TokenTable × Option Error
delete_token id tbl = elim (lookup id tbl.tokens) [
  | none ↦ (tbl, some token_not_found)
  | some r ↦ (
    record tbl {
      tokens = delete id tbl.tokens;
      tokens_by_key = drop_from_key (tbl.cell r).key_id id tbl.tokens_by_key;
    },
    none,
  )
]
