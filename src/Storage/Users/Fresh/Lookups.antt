-- ===== src/Storage/Users/Fresh/Lookups.antt =====
-- Sequences of calls on users, and what lookups find after them. Each call runs under `m.mu`.
use cloistr_signer.Prelude.{
  ℕ, ◌+◌, String, Option, none, some, List, [], ◌∷◌, ◌≡◌, refl, sym, ap, ◌∙◌, arith, Option-cases,
  inl, inr,
}
use cloistr_signer.Prelude.Dict.{Dict, lookup}
use cloistr_signer.Storage.Types.{Time, User, UserTable, Heap, update, ok}
use cloistr_signer.Storage.Users.{
  create_user, get_user, get_user_by_username, get_user_by_email, update_user, write_user,
  increment_failed_logins, reset_failed_logins, lock_user, unlock_user, remove_code,
  consume_backup_code,
}
use cloistr_signer.Storage.Users.Fresh.{IsIndexedBy, write-same, write-IsIndexedBy}
use cloistr_signer.Storage.Users.{delete_user, found_user}
use cloistr_signer.Storage.WebSessions.{WebTable}
use cloistr_signer.Storage.Seals.{Seals}
use cloistr_signer.Storage.Users.Fresh.Calls.{
  IsFresh, create_user-IsFresh, update_user-IsFresh, drop_user-IsFresh,
}

pub data UserCall : Type 0 where
  create : User → UserCall
  change : Time → User → UserCall
  remove : String → WebTable → Seals → UserCall
  count_failure : Time → String → UserCall
  reset : Time → String → UserCall
  lock : Time → String → Time → UserCall
  unlock : Time → String → UserCall
  consume : Time → String → String → UserCall

-- The sessions and seals that a removal drops too do not matter to the users.
unfoldable pub step : UserCall → UserTable → UserTable
step (create user) tbl = (create_user user tbl).0
step (change now user) tbl = (update_user now user tbl).0
step (remove id web seals) tbl = (delete_user id tbl web seals).0
step (count_failure now id) tbl = (increment_failed_logins now id tbl).0
step (reset now id) tbl = (reset_failed_logins now id tbl).0
step (lock now id until) tbl = (lock_user now id until tbl).0
step (unlock now id) tbl = (unlock_user now id tbl).0
step (consume now id code) tbl = (consume_backup_code now id code tbl).0

unfoldable pub run : List UserCall → UserTable → UserTable
run [] tbl = tbl
run (c ∷ cs) tbl = run cs (step c tbl)

written-IsFresh :
    (r : ℕ) (user : User) (tbl : UserTable)
    → user.id ≡ (tbl.cell r).id
    → user.username ≡ (tbl.cell r).username
    → user.email ≡ (tbl.cell r).email
    → IsFresh tbl
    → IsFresh (record tbl { cell = update tbl.cell r user })
written-IsFresh r user tbl ei en ee w = record {
  stored = λ id s found.
      let (is, below) = w.stored id s found in
      (write-same (λ u. u.id) tbl.cell r s user ei ∙ is, below);
  by_username =
      write-IsIndexedBy (λ u. u.username) tbl.cell tbl.users tbl.users_by_username r user en ei
        w.by_username;
  by_email =
      write-IsIndexedBy (λ u. u.email) tbl.cell tbl.users tbl.users_by_email r user ee ei
        w.by_email;
  no_empty = w.no_empty;
}

write_user-IsFresh :
    (id : String) (f : User → User) (tbl : UserTable)
    → ((user : User)
        → ((f user).id ≡ user.id)
          × ((f user).username ≡ user.username)
          × ((f user).email ≡ user.email))
    → IsFresh tbl
    → IsFresh (write_user id f tbl).0
unfolding write_user
write_user-IsFresh id f tbl same w = elim (Option-cases (lookup id tbl.users)) [
  | inl absent ↦ rw (absent, write_user) w
  | inr (r, at) ↦
      let (ei, en, ee) = same (tbl.cell r) in
      rw (at, write_user) (written-IsFresh r (f (tbl.cell r)) tbl ei en ee w)
]

consume_backup_code-IsFresh :
    (now : Time) (id code : String) (tbl : UserTable)
    → IsFresh tbl
    → IsFresh (consume_backup_code now id code tbl).0
unfolding consume_backup_code
consume_backup_code-IsFresh now id code tbl w = elim (Option-cases (lookup id tbl.users)) [
  | inl absent ↦ rw (absent, consume_backup_code) w
  | inr (r, at) ↦ elim (Option-cases (remove_code code (tbl.cell r).backup_codes)) [
    | inl none_ ↦ rw (at, consume_backup_code) (rw none_ w)
    | inr (left, is) ↦
        rw (at, consume_backup_code) (rw is (written-IsFresh r _ tbl refl refl refl w))
  ]
]

step-IsFresh : (c : UserCall) (tbl : UserTable) → IsFresh tbl → IsFresh (step c tbl)
unfolding step increment_failed_logins reset_failed_logins lock_user unlock_user delete_user
step-IsFresh (create user) tbl w = create_user-IsFresh user tbl w
step-IsFresh (change now user) tbl w = update_user-IsFresh now user tbl w
step-IsFresh (remove id web seals) tbl w = elim (Option-cases (lookup id tbl.users)) [
  | inl absent ↦ rw (absent, step, delete_user) w
  | inr (r, at) ↦ rw (at, step, delete_user) (drop_user-IsFresh id r tbl w at)
]
step-IsFresh (count_failure now id) tbl w =
    write_user-IsFresh id
      (λ user. record user {
        failed_login_attempts = user.failed_login_attempts + 1;
        updated_at = now;
      })
      tbl (λ user. (refl, refl, refl)) w
step-IsFresh (reset now id) tbl w =
    write_user-IsFresh id (λ user. record user { failed_login_attempts = 0; updated_at = now }) tbl
      (λ user. (refl, refl, refl)) w
step-IsFresh (lock now id until) tbl w =
    write_user-IsFresh id (λ user. record user { locked_until = some until; updated_at = now }) tbl
      (λ user. (refl, refl, refl)) w
step-IsFresh (unlock now id) tbl w =
    write_user-IsFresh id
      (λ user. record user { locked_until = none; failed_login_attempts = 0; updated_at = now }) tbl
      (λ user. (refl, refl, refl)) w
step-IsFresh (consume now id code) tbl w = consume_backup_code-IsFresh now id code tbl w

run-IsFresh : (cs : List UserCall) (tbl : UserTable) → IsFresh tbl → IsFresh (run cs tbl)
unfolding run
run-IsFresh [] tbl w = w
run-IsFresh (c ∷ cs) tbl w = run-IsFresh cs (step c tbl) (step-IsFresh c tbl w)

found_user_ok :
    (cell : Heap User) (o : Option ℕ) (user : User)
    → found_user cell o ≡ ok user
    → (r : ℕ) × (o ≡ some r) × (cell r ≡ user)
found_user_ok cell none user h = absurd (cc)
found_user_ok cell (some r) user h = (r, refl, ground arith)

indexed_found :
    (attr : User → String) (cell : Heap User) (users index : Dict ℕ) (n : String) (user : User)
    → IsIndexedBy attr cell users index
    → found_user cell (lookup n index) ≡ ok user
    → (attr user ≡ n) × (found_user cell (lookup user.id users) ≡ ok user)
indexed_found attr cell users index n user indexed h =
    let (r, at, is) = found_user_ok cell (lookup n index) user h in
    let (named, stored) = indexed n r at in
    (
      ap attr (sym is) ∙ named,
      ap (λ u. found_user cell (lookup u.id users)) (sym is)
          ∙ ap (found_user cell) stored
          ∙ ap ok is,
    )

-- After any calls on users, from a table whose maps agree, a user that `GetUserByUsername` returns has
-- that name, and `GetUser` returns the same data by its id.
pub run-get_user_by_username :
    (cs : List UserCall) (tbl : UserTable) (n : String) (user : User)
    → IsFresh tbl
    → get_user_by_username n (run cs tbl) ≡ ok user
    → (user.username ≡ n) × (get_user user.id (run cs tbl) ≡ ok user)
unfolding get_user get_user_by_username
run-get_user_by_username cs tbl n user fresh h =
    let after = run cs tbl in
    indexed_found (λ u. u.username) after.cell after.users after.users_by_username n user
      (run-IsFresh cs tbl fresh).by_username h

-- After any calls on users, from a table whose maps agree, a user that `GetUserByEmail` returns has
-- that email, and `GetUser` returns the same data by its id.
run-get_user_by_email :
    (cs : List UserCall) (tbl : UserTable) (n : String) (user : User)
    → IsFresh tbl
    → get_user_by_email n (run cs tbl) ≡ ok user
    → (user.email ≡ n) × (get_user user.id (run cs tbl) ≡ ok user)
unfolding get_user get_user_by_email
run-get_user_by_email cs tbl n user fresh h =
    let after = run cs tbl in
    indexed_found (λ u. u.email) after.cell after.users after.users_by_email n user
      (run-IsFresh cs tbl fresh).by_email h
