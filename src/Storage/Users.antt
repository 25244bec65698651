-- ===== src/Storage/Users.antt =====
-- internal/storage/storage.go: users in `MemoryStorage`. A user is stored as a copy (`cloneUser`) that
-- three maps share, so they hold its place in the heap; callers get copies.
pub mod Fresh
pub mod Codes
use cloistr_signer.Prelude.{
  ℕ, ◌+◌, String, Bool, true, false, not, ◌&&◌, Option, none, some, List, [], ◌∷◌, map,
  if◌then◌else◌, str_eq,
}
use cloistr_signer.Prelude.Dict.{Dict, lookup, delete, insert, values}
use cloistr_signer.Storage.Types.{
  Time, Error, user_not_found, user_exists, Result, ok, err, User, UserTable, Heap, update,
}
use cloistr_signer.Storage.WebSessions.{WebTable, delete_user_sessions}
use cloistr_signer.Storage.Seals.{Seals, drop_session_seals}

abbrev pub holds {ℓ} : {A : Type ℓ} → Option A → Bool
holds none = false
holds (some _) = true

-- `if stored.Email != "" { m.usersByEmail[stored.Email] = stored }`
abbrev pub index_email : String → ℕ → Dict ℕ → Dict ℕ
index_email email r m = if str_eq email "" then m else insert email r m

unfoldable pub create_user : User → UserTable → UserTable × Option Error
create_user user tbl =
    if holds (lookup user.id tbl.users)
    then (tbl, some user_exists)
    else if holds (lookup user.username tbl.users_by_username)
    then (tbl, some user_exists)
    else if not (str_eq user.email "") && holds (lookup user.email tbl.users_by_email)
    then (tbl, some user_exists)
    else (
      record tbl {
        cell = update tbl.cell tbl.next user;
        next = tbl.next + 1;
        users = insert user.id tbl.next tbl.users;
        users_by_username = insert user.username tbl.next tbl.users_by_username;
        users_by_email = index_email user.email tbl.next tbl.users_by_email;
      },
      none,
    )

abbrev pub found_user : Heap User → Option ℕ → Result User
found_user cell none = err user_not_found
found_user cell (some r) = ok (cell r)

unfoldable pub get_user : String → UserTable → Result User
get_user id tbl = found_user tbl.cell (lookup id tbl.users)

unfoldable pub get_user_by_username : String → UserTable → Result User
get_user_by_username username tbl = found_user tbl.cell (lookup username tbl.users_by_username)

unfoldable pub get_user_by_email : String → UserTable → Result User
get_user_by_email email tbl = found_user tbl.cell (lookup email tbl.users_by_email)

abbrev first_user : List User → Result User
first_user [] = err user_not_found
first_user (user ∷ _) = ok user

-- The first user with the pubkey in the order of the range.
unfoldable pub get_user_by_pubkey : String → UserTable → Result User
get_user_by_pubkey pubkey tbl =
    first_user (map tbl.cell (values (λ _ r. str_eq (tbl.cell r).pubkey pubkey) tbl.users))

unfoldable pub list_users : UserTable → List User
list_users tbl = map tbl.cell (values (λ _ _. true) tbl.users)

-- The by-username map after an update from `old` to `new`, the copy at `r`.
abbrev pub reindex_username : String → String → ℕ → Dict ℕ → Dict ℕ
reindex_username old new r m = insert new r (if not (str_eq old new) then delete old m else m)

abbrev pub reindex_email : String → String → ℕ → Dict ℕ → Dict ℕ
reindex_email old new r m =
    index_email new r (if not (str_eq old new) && not (str_eq old "") then delete old m else m)

-- `now` is the clock at `user.UpdatedAt = time.Now()`.
unfoldable pub update_user : Time → User → UserTable → UserTable × Option Error
update_user now user tbl = elim (lookup user.id tbl.users) [
  | none ↦ (tbl, some user_not_found)
  | some r ↦
      let existing = tbl.cell r in
      (
        record tbl {
          cell = update tbl.cell tbl.next (record user { updated_at = now });
          next = tbl.next + 1;
          users = insert user.id tbl.next tbl.users;
          users_by_username =
              reindex_username existing.username user.username tbl.next tbl.users_by_username;
          users_by_email = reindex_email existing.email user.email tbl.next tbl.users_by_email;
        },
        none,
      )
]

-- The user's part of `DeleteUser`.
unfoldable pub drop_user : String → ℕ → UserTable → UserTable
drop_user id r tbl = record tbl {
  users = delete id tbl.users;
  users_by_username = delete (tbl.cell r).username tbl.users_by_username;
  users_by_email =
      if str_eq (tbl.cell r).email ""
      then tbl.users_by_email
      else delete (tbl.cell r).email tbl.users_by_email;
}

unfoldable pub delete_user :
    String → UserTable → WebTable → Seals → UserTable × WebTable × Seals × Option Error
delete_user id tbl web seals = elim (lookup id tbl.users) [
  | none ↦ (tbl, web, seals, some user_not_found)
  | some r ↦ (
    drop_user id r tbl,
    delete_user_sessions id web,
    (drop_session_seals (λ seal. str_eq seal.user_id id) seals).0,
    none,
  )
]

-- A write through the pointer of the user with the id.
unfoldable pub write_user : String → (User → User) → UserTable → UserTable × Option Error
write_user id f tbl = elim (lookup id tbl.users) [
  | none ↦ (tbl, some user_not_found)
  | some r ↦ (record tbl { cell = update tbl.cell r (f (tbl.cell r)) }, none)
]

unfoldable pub increment_failed_logins : Time → String → UserTable → UserTable × Option Error
increment_failed_logins now id tbl =
    write_user id
      (λ user. record user {
        failed_login_attempts = user.failed_login_attempts + 1;
        updated_at = now;
      })
      tbl

unfoldable pub reset_failed_logins : Time → String → UserTable → UserTable × Option Error
reset_failed_logins now id tbl =
    write_user id (λ user. record user { failed_login_attempts = 0; updated_at = now }) tbl

unfoldable pub lock_user : Time → String → Time → UserTable → UserTable × Option Error
lock_user now id until tbl =
    write_user id (λ user. record user { locked_until = some until; updated_at = now }) tbl

unfoldable pub unlock_user : Time → String → UserTable → UserTable × Option Error
unlock_user now id tbl =
    write_user id
      (λ user. record user { locked_until = none; failed_login_attempts = 0; updated_at = now }) tbl

-- The codes without the first that is equal to `code`; `none` if there is none.
unfoldable pub remove_code : String → List String → Option (List String)
remove_code code [] = none
remove_code code (c ∷ cs) =
    let rest : Option (List String) = elim (remove_code code cs) [
      | none ↦ none
      | some left ↦ some (c ∷ left)
    ] in
    if str_eq c code then some cs else rest

unfoldable pub consume_backup_code : Time → String → String → UserTable → UserTable × Result Bool
consume_backup_code now id code tbl = elim (lookup id tbl.users) [
  | none ↦ (tbl, err user_not_found)
  | some r ↦ elim (remove_code code (tbl.cell r).backup_codes) [
    | none ↦ (tbl, ok false)
    | some left ↦
        let user = tbl.cell r in
        (
          record tbl {
            cell = update tbl.cell r (record user {
              backup_codes = left;
              backup_codes_used = user.backup_codes_used + 1;
              updated_at = now;
            });
          },
          ok true,
        )
  ]
]
