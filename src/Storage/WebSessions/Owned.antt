-- ===== src/Storage/WebSessions/Owned.antt =====
-- Every web session stands in the map of its user: kept by creating, writing and removing one.
use cloistr_signer.Prelude.{
  ℕ, ◌<◌, String, true, false, some, ◌≡◌, refl, ap, ◌∙◌, arith, eq_iff, eq_refl, Bool-cases,
  Option-cases, inl, inr, if◌then◌else◌, str_eq, ◌==◌, ==_iff,
}
use cloistr_signer.Prelude.Dict.{
  Dict, lookup, delete, insert, lookup-insert, lookup-insert_self, lookup-delete,
}
use cloistr_signer.Storage.Types.{Heap, update}
use cloistr_signer.Storage.WebSessions.{
  UserSession, WebTable, sessions_of, create_user_session, drop_from_user, remove_session,
}

-- Every session stands in the map of its user, at an allocated place.
pub record IsOwned (tbl : WebTable) : Type 0 where
  pub owned :
      (id : String) (r : ℕ)
      → lookup id tbl.user_sessions ≡ some r
      → lookup id (sessions_of (tbl.cell r).user_id tbl.user_sessions_by_user) ≡ some r
  pub allocated : (id : String) (r : ℕ) → lookup id tbl.user_sessions ≡ some r → r < tbl.next

sessions_of-insert :
    (u v : String) (held : Dict ℕ) (m : Dict (Dict ℕ))
    → sessions_of v (insert u held m) ≡ (if str_eq u v then held else sessions_of v m)
unfolding sessions_of
sessions_of-insert u v held m = ground (arith, lookup-insert u v held m)

pub sessions_of-delete :
    (u v : String) (m : Dict (Dict ℕ))
    → str_eq u v ≡ false
    → sessions_of v (delete u m) ≡ sessions_of v m
unfolding sessions_of
sessions_of-delete u v m ne = ground (arith, lookup-delete u v m)

drop_from_user_lem :
    (u id v j : String) (m : Dict (Dict ℕ))
    → str_eq id j ≡ false
    → lookup j (sessions_of v (drop_from_user u id m)) ≡ lookup j (sessions_of v m)
unfolding drop_from_user sessions_of
drop_from_user_lem u id v j m ne = elim (Option-cases (lookup u m)) [
  | inl absent ↦ ground (arith, absent)
  | inr (held, found) ↦
      ground
        (arith, found, eq_iff u v, lookup-insert u v (delete id held) m, lookup-delete id j held)
]

-- A session added to the map of its user.
sessions_of-added :
    (u sid : String) (n : ℕ) (v id : String) (m : Dict (Dict ℕ))
    → str_eq sid id ≡ false
    → lookup id (sessions_of v (insert u (insert sid n (sessions_of u m)) m))
      ≡ lookup id (sessions_of v m)
sessions_of-added u sid n v id m ne = ground (
  arith,
  sessions_of-insert u v (insert sid n (sessions_of u m)) m,
  lookup-insert sid id n (sessions_of u m),
  eq_iff u v,
)

sessions_of-added_self :
    (u id : String) (n : ℕ) (m : Dict (Dict ℕ))
    → lookup id (sessions_of u (insert u (insert id n (sessions_of u m)) m)) ≡ some n
sessions_of-added_self u id n m = ground (
  arith,
  sessions_of-insert u u (insert id n (sessions_of u m)) m,
  lookup-insert_self id n (sessions_of u m),
  eq_refl u,
)

owner_same :
    (cell : Heap UserSession) (s r : ℕ) (session : UserSession)
    → session.user_id ≡ (cell s).user_id
    → (update cell s session r).user_id ≡ (cell r).user_id
owner_same cell s r session same = elim (Bool-cases (s == r)) [
  | inl here ↦ let e : s ≡ r = (==_iff s r).0 here in rw here (same ∙ ap (λ x. (cell x).user_id) e)
  | inr there ↦ rw there refl
]

created_owned :
    (session : UserSession) (tbl : WebTable) (id : String) (r : ℕ)
    → IsOwned tbl
    → lookup id (create_user_session session tbl).user_sessions ≡ some r
    → lookup id (
        sessions_of
          ((create_user_session session tbl).cell r).user_id
          (create_user_session session tbl).user_sessions_by_user)
      ≡ some r
unfolding create_user_session
created_owned session tbl id r w found =
    let by_user =
      insert session.user_id
        (insert session.id tbl.next (sessions_of session.user_id tbl.user_sessions_by_user))
        tbl.user_sessions_by_user in
    let law = lookup-insert session.id id tbl.next tbl.user_sessions in
    elim (Bool-cases (str_eq session.id id)) [
      | inl same ↦
          let ei : session.id ≡ id = (eq_iff session.id id).0 same in
          let er : tbl.next ≡ r = ground (arith, law, same, found) in
          let hit : (tbl.next == r) ≡ true = (==_iff tbl.next r).1 er in
          let new : (update tbl.cell tbl.next session r).user_id ≡ session.user_id = rw hit refl in
          ap (λ u. lookup id (sessions_of u by_user)) new
          ∙ rw (← ei)
              (sessions_of-added_self session.user_id session.id tbl.next tbl.user_sessions_by_user)
          ∙ ap some er
      | inr other ↦
          let old : lookup id tbl.user_sessions ≡ some r = ground (arith, law, other, found) in
          let below = w.allocated id r old in
          let miss : (tbl.next == r) ≡ false = ground arith in
          let kept : (update tbl.cell tbl.next session r).user_id ≡ (tbl.cell r).user_id =
            rw miss refl in
          ap (λ u. lookup id (sessions_of u by_user)) kept
          ∙ sessions_of-added session.user_id session.id tbl.next (tbl.cell r).user_id id
              tbl.user_sessions_by_user other
          ∙ w.owned id r old
    ]

pub create_user_session-IsOwned :
    (session : UserSession) (tbl : WebTable)
    → IsOwned tbl
    → IsOwned (create_user_session session tbl)
unfolding create_user_session
create_user_session-IsOwned session tbl w = record {
  owned = λ id r found. created_owned session tbl id r w found;
  allocated = λ id r found. ground (
    arith,
    lookup-insert session.id id tbl.next tbl.user_sessions,
    eq_iff session.id id,
    w.allocated id r,
    found,
  );
}

-- A write that leaves every session with its user.
pub write-IsOwned :
    (s : ℕ) (session : UserSession) (tbl : WebTable)
    → session.user_id ≡ (tbl.cell s).user_id
    → IsOwned tbl
    → IsOwned (record tbl { cell = update tbl.cell s session })
write-IsOwned s session tbl same w = record {
  owned = λ id r found.
      ap (λ u. lookup id (sessions_of u tbl.user_sessions_by_user))
        (owner_same tbl.cell s r session same)
      ∙ w.owned id r found;
  allocated = w.allocated;
}

pub remove_session-IsOwned :
    (id : String) (s : ℕ) (tbl : WebTable) → IsOwned tbl → IsOwned (remove_session id s tbl)
remove_session-IsOwned id s tbl w = record {
  owned = λ j r found.
      drop_from_user_lem (tbl.cell s).user_id id (tbl.cell r).user_id j tbl.user_sessions_by_user
        (ground (arith, lookup-delete id j tbl.user_sessions))
      ∙ w.owned j r (ground (arith, lookup-delete id j tbl.user_sessions));
  allocated = λ j r found. w.allocated j r (ground (arith, lookup-delete id j tbl.user_sessions));
}
