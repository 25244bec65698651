-- ===== src/Storage/WebSessions/Logout.antt =====
-- Signing a user out everywhere leaves none of the user's sessions.
use cloistr_signer.Prelude.{
  ℕ, String, false, none, some, List, [], ◌∷◌, ◌≡◌, refl, sym, ap, ◌∙◌, arith, eq_iff, Bool-cases,
  Option-cases, inl, inr, ◌≢◌, ltb, str_eq,
}
use cloistr_signer.Prelude.Dict.{Dict, lookup, delete, lookup-delete}
use cloistr_signer.Storage.Types.{Time, ok}
use cloistr_signer.Storage.WebSessions.{
  UserSession, WebTable, sessions_of, create_user_session, get_user_session, write_session,
  update_user_session_activity, update_user_session_vault_token, extend_user_session,
  delete_user_session, delete_each, delete_user_sessions, clean_each, clean_expired_user_sessions,
}
use cloistr_signer.Storage.WebSessions.Owned.{
  IsOwned, sessions_of-delete, create_user_session-IsOwned, write-IsOwned, remove_session-IsOwned,
}

-- What the loop of `DeleteUserSessions` leaves was there and is not of the user's map.
delete_each_left :
    (held sessions : Dict ℕ) (id : String) (r : ℕ)
    → lookup id (delete_each held sessions) ≡ some r
    → (lookup id held ≡ none) × (lookup id sessions ≡ some r)
unfolding delete_each lookup
delete_each_left [] sessions id r h = (refl, h)
delete_each_left ((j, s) ∷ held) sessions id r h = ground (
  arith,
  delete_each_left held (delete j sessions) id r,
  lookup-delete j id sessions,
  eq_iff j id,
)

sessions_of_absent : (u : String) (m : Dict (Dict ℕ)) → lookup u m ≡ none → sessions_of u m ≡ []
unfolding sessions_of
sessions_of_absent u m absent = ground (arith, absent)

sessions_of_present :
    (u : String) (m : Dict (Dict ℕ)) (held : Dict ℕ)
    → lookup u m ≡ some held
    → sessions_of u m ≡ held
unfolding sessions_of
sessions_of_present u m held found = ground (arith, found)

not_of_user :
    (u v id : String) (r : ℕ) (m : Dict (Dict ℕ))
    → lookup id (sessions_of v m) ≡ some r
    → lookup id (sessions_of u m) ≡ none
    → str_eq u v ≡ false
not_of_user u v id r m found absent = ground (arith, eq_iff u v)

-- After `DeleteUserSessions` every session that is left is another user's.
left_other :
    (user_id : String) (tbl : WebTable) (id : String) (r : ℕ)
    → IsOwned tbl
    → lookup id (delete_user_sessions user_id tbl).user_sessions ≡ some r
    → (lookup id tbl.user_sessions ≡ some r)
      × (str_eq user_id (tbl.cell r).user_id ≡ false)
      × ((delete_user_sessions user_id tbl).cell ≡ tbl.cell)
unfolding delete_user_sessions
left_other user_id tbl id r w h = elim (Option-cases (lookup user_id tbl.user_sessions_by_user)) [
  | inl absent ↦
      let old : lookup id tbl.user_sessions ≡ some r =
        (let e = h in rw (absent, delete_user_sessions) at e) in
      let none_held : lookup id (sessions_of user_id tbl.user_sessions_by_user) ≡ none =
        rw (sessions_of_absent user_id tbl.user_sessions_by_user absent) (unfold lookup in refl) in
      (
        old,
        not_of_user user_id (tbl.cell r).user_id id r tbl.user_sessions_by_user (w.owned id r old)
            none_held,
        rw (absent, delete_user_sessions) refl,
      )
  | inr (held, found) ↦
      let left =
        delete_each_left held tbl.user_sessions id r
          (let e = h in rw (found, delete_user_sessions) at e) in
      let none_held : lookup id (sessions_of user_id tbl.user_sessions_by_user) ≡ none =
        rw (sessions_of_present user_id tbl.user_sessions_by_user held found) (left.0) in
      (
        left.1,
        not_of_user user_id (tbl.cell r).user_id id r tbl.user_sessions_by_user
            (w.owned id r left.1) none_held,
        rw (found, delete_user_sessions) refl,
      )
]

-- The tables that `DeleteUserSessions` leaves.
delete_user_sessions_left :
    (user_id v : String) (tbl : WebTable)
    → ((delete_user_sessions user_id tbl).next ≡ tbl.next)
      × (str_eq user_id v ≡ false
          → sessions_of v (delete_user_sessions user_id tbl).user_sessions_by_user
            ≡ sessions_of v tbl.user_sessions_by_user)
unfolding delete_user_sessions
delete_user_sessions_left user_id v tbl =
    elim (Option-cases (lookup user_id tbl.user_sessions_by_user)) [
      | inl absent ↦ rw (absent, delete_user_sessions) (refl, λ ne. refl)
      | inr (held, found) ↦
          rw (found, delete_user_sessions)
            (refl, λ ne. sessions_of-delete user_id v tbl.user_sessions_by_user ne)
    ]

delete_user_sessions-IsOwned :
    (user_id : String) (tbl : WebTable) → IsOwned tbl → IsOwned (delete_user_sessions user_id tbl)
delete_user_sessions-IsOwned user_id tbl w = record {
  owned = λ id r found.
      let (old, other, cells) = left_other user_id tbl id r w found in
      let owner = (tbl.cell r).user_id in
      let kept = (delete_user_sessions_left user_id owner tbl).1 other in
      ap
        (λ cell.
          lookup id
            (sessions_of (cell r).user_id (delete_user_sessions user_id tbl).user_sessions_by_user))
        cells
      ∙ ap (lookup id) kept
      ∙ w.owned id r old;
  allocated = λ id r found.
      let below = w.allocated id r (left_other user_id tbl id r w found).0 in
      let same = (delete_user_sessions_left user_id user_id tbl).0 in ground arith;
}

clean_each-IsOwned :
    (now : Time) (entries : Dict ℕ) (tbl : WebTable)
    → IsOwned tbl
    → IsOwned (clean_each now entries tbl)
unfolding clean_each
clean_each-IsOwned now [] tbl w = w
clean_each-IsOwned now ((id, r) ∷ entries) tbl w =
    clean_each-IsOwned now entries _ (elim (Bool-cases (ltb (tbl.cell r).expires_at now)) [
      | inl late ↦ rw late (remove_session-IsOwned id r tbl w)
      | inr good ↦ rw good w
    ])

-- The calls on web sessions. Each runs under `m.mu`.
pub data WebCall : Type 0 where
  create : UserSession → WebCall
  note_activity : Time → String → WebCall
  set_vault_token : String → String → WebCall
  extend : Time → String → Time → WebCall
  remove : String → WebCall
  remove_all : String → WebCall
  clean : Time → WebCall

unfoldable pub step : WebCall → WebTable → WebTable
step (create session) tbl = create_user_session session tbl
step (note_activity now id) tbl = (update_user_session_activity now id tbl).0
step (set_vault_token id vault_token) tbl = (update_user_session_vault_token id vault_token tbl).0
step (extend now id expires_at) tbl = (extend_user_session now id expires_at tbl).0
step (remove id) tbl = delete_user_session id tbl
step (remove_all user_id) tbl = delete_user_sessions user_id tbl
step (clean now) tbl = clean_expired_user_sessions now tbl

unfoldable pub run : List WebCall → WebTable → WebTable
run [] tbl = tbl
run (c ∷ cs) tbl = run cs (step c tbl)

write_session-IsOwned :
    (id : String) (f : UserSession → UserSession) (tbl : WebTable)
    → ((session : UserSession) → (f session).user_id ≡ session.user_id)
    → IsOwned tbl
    → IsOwned (write_session id f tbl).0
write_session-IsOwned id f tbl same w = elim (Option-cases (lookup id tbl.user_sessions)) [
  | inl absent ↦ rw (absent, write_session) w
  | inr (r, found) ↦
      rw (found, write_session) (write-IsOwned r (f (tbl.cell r)) tbl (same (tbl.cell r)) w)
]

step-IsOwned : (c : WebCall) (tbl : WebTable) → IsOwned tbl → IsOwned (step c tbl)
unfolding step update_user_session_activity update_user_session_vault_token extend_user_session
    delete_user_session clean_expired_user_sessions
step-IsOwned (create session) tbl w = create_user_session-IsOwned session tbl w
step-IsOwned (note_activity now id) tbl w =
    write_session-IsOwned id (λ session. record session { last_activity = some now }) tbl
      (λ session. refl) w
step-IsOwned (set_vault_token id token) tbl w =
    write_session-IsOwned id (λ session. record session { vault_token = token }) tbl
      (λ session. refl) w
step-IsOwned (extend now id expires_at) tbl w = elim (Option-cases (lookup id tbl.user_sessions)) [
  | inl absent ↦ rw (absent, step, extend_user_session) w
  | inr (r, found) ↦ elim (Bool-cases (ltb (tbl.cell r).expires_at now)) [
    | inl late ↦ rw (found, step, extend_user_session) (rw late w)
    | inr good ↦
        rw (found, step, extend_user_session)
          (rw good (write-IsOwned r (record (tbl.cell r) { expires_at = expires_at }) tbl refl w))
  ]
]
step-IsOwned (remove id) tbl w = elim (Option-cases (lookup id tbl.user_sessions)) [
  | inl absent ↦ rw (absent, step, delete_user_session) w
  | inr (r, found) ↦ rw (found, step, delete_user_session) (remove_session-IsOwned id r tbl w)
]
step-IsOwned (remove_all user_id) tbl w = delete_user_sessions-IsOwned user_id tbl w
step-IsOwned (clean now) tbl w = clean_each-IsOwned now tbl.user_sessions tbl w

-- After any calls on web sessions, every session stands in the map of its user, at an allocated place
-- of the heap, if that was so before.
run-IsOwned : (cs : List WebCall) (tbl : WebTable) → IsOwned tbl → IsOwned (run cs tbl)
unfolding run
run-IsOwned [] tbl w = w
run-IsOwned (c ∷ cs) tbl w = run-IsOwned cs (step c tbl) (step-IsOwned c tbl w)

get_user_session_found :
    (now : Time) (id : String) (tbl : WebTable) (session : UserSession)
    → get_user_session now id tbl ≡ ok session
    → (r : ℕ) × (lookup id tbl.user_sessions ≡ some r) × (tbl.cell r ≡ session)
unfolding get_user_session
get_user_session_found now id tbl session h = elim (Option-cases (lookup id tbl.user_sessions)) [
  | inl absent ↦ absurd (let e = h in ground (arith, absent))
  | inr (r, found) ↦ (r, found, ground (arith, found))
]

-- Right after `DeleteUserSessions`, no session that `GetUserSession` returns, under any id and at any
-- time, is the user's, whatever calls on sessions came before, starting from a table in which every
-- session stands in the map of its user.
pub delete_user_sessions-get_user_session :
    (cs : List WebCall) (tbl : WebTable) (user_id : String) (now : Time) (id : String)
    (session : UserSession)
    → IsOwned tbl
    → get_user_session now id (delete_user_sessions user_id (run cs tbl)) ≡ ok session
    → session.user_id ≢ user_id
delete_user_sessions-get_user_session cs tbl user_id now id session w h =
    let (r, found, is) =
      get_user_session_found now id (delete_user_sessions user_id (run cs tbl)) session h in
    let (old, other, cells) = left_other user_id (run cs tbl) id r (run-IsOwned cs tbl w) found in
    let same : ((run cs tbl).cell r).user_id ≡ session.user_id =
      ap (λ cell. (cell r).user_id) (sym cells) ∙ ap (λ s. s.user_id) is in
    λ mine. ground (arith, eq_iff user_id ((run cs tbl).cell r).user_id)
