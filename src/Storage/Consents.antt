-- ===== src/Storage/Consents.antt =====
-- internal/storage/storage.go: settings, app consents and retained deletions in `MemoryStorage`. One map
-- holds each struct, and no method writes to one that it has handed out, so the maps are dictionaries of
-- values.
use cloistr_signer.Prelude.{String, Bool, true, false, Option, none, some, List, []}
use Prim.Native.String.{◌++◌}
use cloistr_signer.Prelude.Dict.{Dict, lookup, delete, insert, values}
use cloistr_signer.Storage.Types.{
  Time, Error, setting_not_found, consent_not_found, Result, ok, err,
}
use cloistr_signer.Storage.Users.{holds}

unfoldable pub get_setting : String → Dict String → Result String
get_setting key settings = elim (lookup key settings) [
  | none ↦ err setting_not_found
  | some value ↦ ok value
]

unfoldable pub set_setting : String → String → Dict String → Dict String
set_setting key value settings = insert key value settings

pub record AppConsent : Type 0 where
  pub user_id : String
  pub app_id : String
  pub app_name : String
  pub approved_at : Time

abbrev pub Consents : Type 0
Consents = Dict (Dict AppConsent)

-- A missing map reads as an empty one.
unfoldable pub consents_of : String → Consents → Dict AppConsent
consents_of user_id m = elim (lookup user_id m) [ none ↦ [] | some by_app ↦ by_app ]

unfoldable pub record_app_consent : Time → String → String → String → Consents → Consents
record_app_consent now user_id app_id app_name m =
    let consent : AppConsent = record {
      user_id = user_id;
      app_id = app_id;
      app_name = app_name;
      approved_at = now;
    } in
    insert user_id (insert app_id consent (consents_of user_id m)) m

unfoldable pub has_app_consent : String → String → Consents → Bool
has_app_consent user_id app_id m = elim (lookup user_id m) [
  | none ↦ false
  | some by_app ↦ holds (lookup app_id by_app)
]

unfoldable pub list_app_consents : String → Consents → List AppConsent
list_app_consents user_id m = elim (lookup user_id m) [
  | none ↦ []
  | some by_app ↦ values (λ _ _. true) by_app
]

unfoldable pub revoke_app_consent : String → String → Consents → Consents × Option Error
revoke_app_consent user_id app_id m = elim (lookup user_id m) [
  | none ↦ (m, some consent_not_found)
  | some by_app ↦ elim (lookup app_id by_app) [
    | none ↦ (m, some consent_not_found)
    | some _ ↦ (insert user_id (delete app_id by_app) m, none)
  ]
]

unfoldable pub revoke_all_app_consents : String → Consents → Consents
revoke_all_app_consents user_id m = delete user_id m

pub record RetainedDeletion : Type 0 where
  pub user_id : String
  pub object : String
  pub reason : String
  pub first_failed_at : Time
  pub last_attempt_at : Time

unfoldable pub record_retained_deletion :
    Time → String → String → String → Dict RetainedDeletion → Dict RetainedDeletion
record_retained_deletion now user_id object reason m =
    let k = user_id ++ "|" ++ object in
    elim (lookup k m) [
      | some r ↦ insert k (record r { reason = reason; last_attempt_at = now }) m
      | none ↦
          insert k
            (record {
              user_id = user_id;
              object = object;
              reason = reason;
              first_failed_at = now;
              last_attempt_at = now;
            })
            m
    ]

unfoldable pub list_retained_deletions : Dict RetainedDeletion → List RetainedDeletion
list_retained_deletions m = values (λ _ _. true) m

unfoldable pub clear_retained_deletion :
    String → String → Dict RetainedDeletion → Dict RetainedDeletion
clear_retained_deletion user_id object m = delete (user_id ++ "|" ++ object) m
