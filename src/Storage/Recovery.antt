-- ===== src/Storage/Recovery.antt =====
-- internal/storage/storage.go: recovery challenges in `MemoryStorage`. One map holds the structs, and
-- callers get copies, so it is a dictionary of values. Each reading of the clock is an argument.
pub mod Once
use cloistr_signer.Prelude.{ℕ, String, Bool, not, Option, none, some, if◌then◌else◌, ltb}
use cloistr_signer.Prelude.Dict.{Dict, lookup, insert, retain, size}
use cloistr_signer.Storage.Types.{Time, challenge_not_found, Result, ok, err}

pub record RecoveryChallenge : Type 0 where
  pub id : String
  pub user_id : String
  pub expires_at : Time
  pub created_at : Time
  pub used_at : Option Time

abbrev pub RecoveryChallenges : Type 0
RecoveryChallenges = Dict RecoveryChallenge

unfoldable pub create_recovery_challenge :
    RecoveryChallenge → RecoveryChallenges → RecoveryChallenges
create_recovery_challenge c m = insert c.id c m

-- `now` is the clock at the test, `t` at the write.
unfoldable pub consume_recovery_challenge :
    Time → Time → String → RecoveryChallenges → RecoveryChallenges × Result RecoveryChallenge
consume_recovery_challenge now t id m = elim (lookup id m) [
  | none ↦ (m, err challenge_not_found)
  | some c ↦ elim c.used_at [
    | some _ ↦ (m, err challenge_not_found)
    | none ↦
        let used = record c { used_at = some t } in
        if ltb c.expires_at now then (m, err challenge_not_found) else (insert id used m, ok used)
  ]
]

unfoldable pub count_expired : Time → RecoveryChallenges → ℕ
count_expired now m = size (retain (λ _ c. ltb c.expires_at now) m)

unfoldable pub delete_expired_recovery_challenges :
    Time → RecoveryChallenges → RecoveryChallenges × ℕ
delete_expired_recovery_challenges now m =
    (retain (λ _ c. not (ltb c.expires_at now)) m, count_expired now m)
