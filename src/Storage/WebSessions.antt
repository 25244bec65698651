-- ===== src/Storage/WebSessions.antt =====
-- internal/storage/storage.go: sessions of web users in `MemoryStorage`, and `ExtendUserSession` of
-- internal/storage/session_seal.go. A session is shared by two maps, so both hold its place in the heap.
pub mod Owned
pub mod Logout
use cloistr_signer.Prelude.{
  ℕ, ◌+◌, String, Bool, true, Option, none, some, List, [], ◌∷◌, map, if◌then◌else◌, ltb,
}
use cloistr_signer.Prelude.Dict.{Dict, lookup, delete, insert, values}
use cloistr_signer.Storage.Types.{Time, Error, session_not_found, Result, ok, err, Heap, update}

pub record UserSession : Type 0 where
  pub id : String
  pub user_id : String
  pub token : String
  pub vault_token : String
  pub cosign_listener_pubkey : String
  pub user_agent : String
  pub ip_address : String
  pub remember_device : Bool
  pub last_activity : Option Time
  pub expires_at : Time
  pub created_at : Time

-- A session is always a new struct of the caller, so the heap is filled from `next`.
pub record WebTable : Type 0 where
  pub cell : Heap UserSession
  pub next : ℕ
  pub user_sessions : Dict ℕ
  pub user_sessions_by_user : Dict (Dict ℕ)

-- A missing map reads as an empty one.
unfoldable pub sessions_of : String → Dict (Dict ℕ) → Dict ℕ
sessions_of user_id by_user = elim (lookup user_id by_user) [ none ↦ [] | some held ↦ held ]

unfoldable pub create_user_session : UserSession → WebTable → WebTable
create_user_session session tbl = record tbl {
  cell = update tbl.cell tbl.next session;
  next = tbl.next + 1;
  user_sessions = insert session.id tbl.next tbl.user_sessions;
  user_sessions_by_user =
      insert session.user_id
        (insert session.id tbl.next (sessions_of session.user_id tbl.user_sessions_by_user))
        tbl.user_sessions_by_user;
}

unfoldable pub get_user_session : Time → String → WebTable → Result UserSession
get_user_session now id tbl = elim (lookup id tbl.user_sessions) [
  | none ↦ err session_not_found
  | some r ↦ if ltb (tbl.cell r).expires_at now then err session_not_found else ok (tbl.cell r)
]

unfoldable pub list_user_sessions : Time → String → WebTable → List UserSession
list_user_sessions now user_id tbl = map tbl.cell (
    values (λ _ r. ltb now (tbl.cell r).expires_at) (sessions_of user_id tbl.user_sessions_by_user))

-- A write through the pointer of the session with the id.
abbrev pub write_session : String → (UserSession → UserSession) → WebTable → WebTable × Option Error
write_session id f tbl = elim (lookup id tbl.user_sessions) [
  | none ↦ (tbl, some session_not_found)
  | some r ↦ (record tbl { cell = update tbl.cell r (f (tbl.cell r)) }, none)
]

unfoldable pub update_user_session_activity : Time → String → WebTable → WebTable × Option Error
update_user_session_activity now id tbl =
    write_session id (λ session. record session { last_activity = some now }) tbl

unfoldable pub update_user_session_vault_token :
    String → String → WebTable → WebTable × Option Error
update_user_session_vault_token id vault_token tbl =
    write_session id (λ session. record session { vault_token = vault_token }) tbl

unfoldable pub extend_user_session : Time → String → Time → WebTable → WebTable × Option Error
extend_user_session now id expires_at tbl = elim (lookup id tbl.user_sessions) [
  | none ↦ (tbl, some session_not_found)
  | some r ↦ if ltb (tbl.cell r).expires_at now then (tbl, some session_not_found) else (
    record tbl { cell = update tbl.cell r (record (tbl.cell r) { expires_at = expires_at }) },
    none,
  )
]

-- The inner `delete` where the user has a map.
unfoldable pub drop_from_user : String → String → Dict (Dict ℕ) → Dict (Dict ℕ)
drop_from_user user_id id by_user = elim (lookup user_id by_user) [
  | none ↦ by_user
  | some held ↦ insert user_id (delete id held) by_user
]

abbrev pub remove_session : String → ℕ → WebTable → WebTable
remove_session id r tbl = record tbl {
  user_sessions = delete id tbl.user_sessions;
  user_sessions_by_user = drop_from_user (tbl.cell r).user_id id tbl.user_sessions_by_user;
}

unfoldable pub delete_user_session : String → WebTable → WebTable
delete_user_session id tbl = elim (lookup id tbl.user_sessions) [
  | none ↦ tbl
  | some r ↦ remove_session id r tbl
]

-- The loop of `DeleteUserSessions` over the user's map.
unfoldable pub delete_each : Dict ℕ → Dict ℕ → Dict ℕ
delete_each [] sessions = sessions
delete_each ((id, r) ∷ held) sessions = delete_each held (delete id sessions)

unfoldable pub delete_user_sessions : String → WebTable → WebTable
delete_user_sessions user_id tbl = elim (lookup user_id tbl.user_sessions_by_user) [
  | none ↦ tbl
  | some held ↦ record tbl {
    user_sessions = delete_each held tbl.user_sessions;
    user_sessions_by_user = delete user_id tbl.user_sessions_by_user;
  }
]

-- The loop of `CleanExpiredUserSessions` over what `m.userSessions` held.
unfoldable pub clean_each : Time → Dict ℕ → WebTable → WebTable
clean_each now [] tbl = tbl
clean_each now ((id, r) ∷ entries) tbl =
    clean_each now entries
      (if ltb (tbl.cell r).expires_at now then remove_session id r tbl else tbl)

unfoldable pub clean_expired_user_sessions : Time → WebTable → WebTable
clean_expired_user_sessions now tbl = clean_each now tbl.user_sessions tbl
