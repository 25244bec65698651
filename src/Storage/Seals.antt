-- ===== src/Storage/Seals.antt =====
-- internal/storage/session_seal.go: sealed keys of web sessions in `MemoryStorage`. One map holds the
-- structs, and callers get copies, so it is a dictionary of values. A sealed text is a list of bytes.
use cloistr_signer.Prelude.{
  ℕ, suc, String, Bool, true, false, ◌&&◌, not, none, some, List, [], ◌∷◌, if◌then◌else◌, ltb,
  str_eq,
}
use cloistr_signer.Prelude.Dict.{Dict, lookup, insert, retain, map_values, values}
use cloistr_signer.Storage.Types.{Time, SessionSeal}

abbrev pub Seals : Type 0
Seals = Dict SessionSeal

unfoldable pub count_seals : (SessionSeal → Bool) → Seals → ℕ
count_seals match [] = 0
count_seals match ((id, seal) ∷ m) =
    let rest = count_seals match m in if match seal then suc rest else rest

unfoldable pub drop_session_seals : (SessionSeal → Bool) → Seals → Seals × ℕ
drop_session_seals match m = (retain (λ _ seal. not (match seal)) m, count_seals match m)

unfoldable pub upsert_session_seal : SessionSeal → Seals → Seals
upsert_session_seal seal m =
    insert seal.id seal
      (drop_session_seals
        (λ old. str_eq old.session_id seal.session_id && str_eq old.key_id seal.key_id) m).0

unfoldable pub list_seals : Time → (SessionSeal → Bool) → Seals → List SessionSeal
list_seals now match m = values (λ _ seal. ltb now seal.expires_at && match seal) m

unfoldable pub list_live_session_seals : Time → Seals → List SessionSeal
list_live_session_seals now m = list_seals now (λ _. true) m

unfoldable pub list_session_seals_by_session : Time → String → Seals → List SessionSeal
list_session_seals_by_session now session_id m =
    list_seals now (λ seal. str_eq seal.session_id session_id) m

unfoldable pub list_session_seals_by_user : Time → String → Seals → List SessionSeal
list_session_seals_by_user now user_id m = list_seals now (λ seal. str_eq seal.user_id user_id) m

-- `false` is the error of a seal that is not found.
unfoldable pub update_session_seal_blob : String → List ℕ → Seals → Seals × Bool
update_session_seal_blob id sealed m = elim (lookup id m) [
  | none ↦ (m, false)
  | some seal ↦ (insert id (record seal { sealed = sealed }) m, true)
]

unfoldable pub delete_session_seals_by_session : String → Seals → Seals × ℕ
delete_session_seals_by_session session_id m =
    drop_session_seals (λ seal. str_eq seal.session_id session_id) m

unfoldable pub delete_session_seals_by_user : String → Seals → Seals × ℕ
delete_session_seals_by_user user_id m = drop_session_seals (λ seal. str_eq seal.user_id user_id) m

unfoldable pub extend_session_seals : String → Time → Seals → Seals × ℕ
extend_session_seals session_id expires_at m = (
  map_values
      (λ _ seal.
        if str_eq seal.session_id session_id then record seal { expires_at = expires_at } else seal)
      m,
  count_seals (λ seal. str_eq seal.session_id session_id) m,
)

unfoldable pub delete_expired_session_seals : Time → Seals → Seals × ℕ
delete_expired_session_seals now m = drop_session_seals (λ seal. not (ltb now seal.expires_at)) m
