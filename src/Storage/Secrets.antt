-- ===== src/Storage/Secrets.antt =====
-- internal/storage/storage.go: single-use `bunker://` secrets in `MemoryStorage`. One map holds the
-- structs, so `m.bunkerSecrets` is a dictionary of values.
pub mod Once
use cloistr_signer.Prelude.{
  String, Bool, true, false, Option, none, some, ◌≡◌, if◌then◌else◌, ltb, not, str_eq, [], ◌∷◌,
}
use cloistr_signer.Prelude.Dict.{Dict, lookup, delete, insert, retain}
use cloistr_signer.Storage.Types.{Time, bunker_secret_invalid, Result, ok, err, BunkerSecret}

abbrev pub Secrets : Type 0
Secrets = Dict BunkerSecret

unfoldable pub create_bunker_secret : BunkerSecret → Secrets → Secrets
create_bunker_secret bs m = insert bs.secret bs m

-- `ValidateBunkerSecret` once the secret is found; `now` is the clock at the test, `t` at the write.
unfoldable pub validate_found :
    Time → Time → String → String → BunkerSecret → Secrets → Secrets × Result BunkerSecret
validate_found now t key_pubkey secret bs m =
    if not (str_eq bs.key_pubkey key_pubkey)
    then (m, err bunker_secret_invalid)
    else if ltb bs.expires_at now
    then (delete secret m, err bunker_secret_invalid)
    else elim bs.used_at [
      | some _ ↦ (m, err bunker_secret_invalid)
      | none ↦ let used = record bs { used_at = some t } in (insert secret used m, ok used)
    ]

unfoldable pub validate_bunker_secret :
    Time → Time → String → String → Secrets → Secrets × Result BunkerSecret
validate_bunker_secret now t key_pubkey secret m = elim (lookup secret m) [
  | none ↦ (m, err bunker_secret_invalid)
  | some bs ↦ validate_found now t key_pubkey secret bs m
]

-- The `range` stops at the first entry with the id.
unfoldable pub delete_bunker_secret : String → Secrets → Secrets
delete_bunker_secret id [] = []
delete_bunker_secret id ((secret, bs) ∷ m) =
    let rest = delete_bunker_secret id m in
    if str_eq bs.id id then delete secret ((secret, bs) ∷ m) else (secret, bs) ∷ rest

unfoldable pub clean_expired_bunker_secrets : Time → Secrets → Secrets
clean_expired_bunker_secrets now m = retain (λ _ bs. not (ltb bs.expires_at now)) m
