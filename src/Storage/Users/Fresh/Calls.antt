-- ===== src/Storage/Users/Fresh/Calls.antt =====
-- The calls on users keep the by-name and by-email maps in step with the by-id map.
use cloistr_signer.Prelude.{
  ℕ, ◌+◌, String, ◌&&◌, not, none, some, ◌≡◌, ap, ◌∙◌, arith, eq_iff, Bool-cases, Option-cases, inl,
  inr, ◌⊎◌, if◌then◌else◌, str_eq,
}
use cloistr_signer.Prelude.Dict.{Dict, lookup, delete, insert, lookup-insert, lookup-delete}
use cloistr_signer.Storage.Types.{Time, User, UserTable, Heap, update}
use cloistr_signer.Storage.Users.{
  create_user, reindex_username, reindex_email, index_email, update_user, drop_user, holds,
}
use cloistr_signer.Storage.Users.Fresh.{
  IsStored, IsIndexedBy, IsCleared, update_self, update_below, put-IsIndexedBy, drop-IsIndexedBy,
  IsCleared-by_delete,
}
use cloistr_signer.Storage.Users.Fresh.Reindex.{
  reindexed, reindexed_email, reindexed_empty, dropped_email,
}

pub record IsFresh (tbl : UserTable) : Type 0 where
  pub stored : IsStored tbl.cell tbl.next tbl.users
  pub by_username : IsIndexedBy (λ u. u.username) tbl.cell tbl.users tbl.users_by_username
  pub by_email : IsIndexedBy (λ u. u.email) tbl.cell tbl.users tbl.users_by_email
  pub no_empty : lookup "" tbl.users_by_email ≡ none

put-IsStored :
    (cell : Heap User) (next : ℕ) (users : Dict ℕ) (user : User)
    → IsStored cell next users
    → IsStored (update cell next user) (next + 1) (insert user.id next users)
put-IsStored cell next users user stored id r found =
    let law = lookup-insert user.id id next users in
    elim (Bool-cases (str_eq user.id id)) [
      | inl same ↦
          let new : next ≡ r = ground (arith, law, same, found) in
          let e : update cell next user r ≡ user = rw (← new) (update_self cell next user) in
          (ap (λ u. u.id) e ∙ (eq_iff user.id id).0 same, (ground arith))
      | inr other ↦
          let (is, below) = stored id r (ground (arith, law, other, found)) in
          (ap (λ u. u.id) (update_below cell next r user below) ∙ is, (ground arith))
    ]

inserted_entry :
    (new n : String) (next s : ℕ) (index : Dict ℕ)
    → lookup n (insert new next index) ≡ some s
    → ((s ≡ next) × (new ≡ n)) ⊎ (lookup n index ≡ some s)
inserted_entry new n next s index found = elim (Bool-cases (str_eq new n)) [
  | inl same ↦
      inl ((ground (arith, lookup-insert new n next index, same, found)), (eq_iff new n).0 same)
  | inr other ↦ inr (ground (arith, lookup-insert new n next index, other, found))
]

indexed_entry :
    (new n : String) (next s : ℕ) (index : Dict ℕ)
    → lookup n (index_email new next index) ≡ some s
    → ((s ≡ next) × (new ≡ n)) ⊎ (lookup n index ≡ some s)
indexed_entry new n next s index found = elim (Bool-cases (str_eq new "")) [
  | inl bare ↦ inr (let h = found in rw bare at h)
  | inr named ↦ inserted_entry new n next s index (let h = found in rw named at h)
]

-- A user with a new id takes no entry away.
new_entry :
    (attr : User → String) (tbl : UserTable) (index : Dict ℕ) (user : User) (n : String) (s : ℕ)
    → lookup user.id tbl.users ≡ none
    → ((s ≡ tbl.next) × (attr user ≡ n)) ⊎ (lookup n index ≡ some s)
    → ((s ≡ tbl.next) × (attr user ≡ n)) ⊎ IsCleared attr tbl.cell tbl.users index user.id n s
new_entry attr tbl index user n s new (inl added) = inl added
new_entry attr tbl index user n s new (inr old) = inr (old, λ r at. absurd (cc))

-- A user whose id, username and email are new.
created-IsFresh :
    (user : User) (tbl : UserTable)
    → IsFresh tbl
    → lookup user.id tbl.users ≡ none
    → IsFresh (record tbl {
      cell = update tbl.cell tbl.next user;
      next = tbl.next + 1;
      users = insert user.id tbl.next tbl.users;
      users_by_username = insert user.username tbl.next tbl.users_by_username;
      users_by_email = index_email user.email tbl.next tbl.users_by_email;
    })
created-IsFresh user tbl w new = record {
  stored = put-IsStored tbl.cell tbl.next tbl.users user w.stored;
  by_username =
      put-IsIndexedBy (λ u. u.username) tbl.cell tbl.next tbl.users tbl.users_by_username w.stored
        w.by_username user (insert user.username tbl.next tbl.users_by_username)
        (λ n s found.
          new_entry (λ u. u.username) tbl tbl.users_by_username user n s new
            (inserted_entry user.username n tbl.next s tbl.users_by_username found));
  by_email =
      put-IsIndexedBy (λ u. u.email) tbl.cell tbl.next tbl.users tbl.users_by_email w.stored
        w.by_email user (index_email user.email tbl.next tbl.users_by_email)
        (λ n s found.
          new_entry (λ u. u.email) tbl tbl.users_by_email user n s new
            (indexed_entry user.email n tbl.next s tbl.users_by_email found));
  no_empty = ground (
    arith,
    eq_iff user.email "",
    lookup-insert user.email "" tbl.next tbl.users_by_email,
    w.no_empty,
  );
}

updated-IsFresh :
    (now : Time) (user : User) (r : ℕ) (tbl : UserTable)
    → IsFresh tbl
    → lookup user.id tbl.users ≡ some r
    → IsFresh (record tbl {
      cell = update tbl.cell tbl.next (record user { updated_at = now });
      next = tbl.next + 1;
      users = insert user.id tbl.next tbl.users;
      users_by_username =
          reindex_username (tbl.cell r).username user.username tbl.next tbl.users_by_username;
      users_by_email = reindex_email (tbl.cell r).email user.email tbl.next tbl.users_by_email;
    })
updated-IsFresh now user r tbl w at = record {
  stored = put-IsStored tbl.cell tbl.next tbl.users (record user { updated_at = now }) w.stored;
  by_username =
      put-IsIndexedBy (λ u. u.username) tbl.cell tbl.next tbl.users tbl.users_by_username w.stored
        w.by_username (record user { updated_at = now })
        (reindex_username (tbl.cell r).username user.username tbl.next tbl.users_by_username)
        (λ n s found.
          reindexed (λ u. u.username) tbl.cell tbl.users tbl.users_by_username user.id r tbl.next at
            user.username n s found);
  by_email =
      put-IsIndexedBy (λ u. u.email) tbl.cell tbl.next tbl.users tbl.users_by_email w.stored
        w.by_email (record user { updated_at = now })
        (reindex_email (tbl.cell r).email user.email tbl.next tbl.users_by_email)
        (λ n s found.
          reindexed_email (λ u. u.email) tbl.cell tbl.users tbl.users_by_email user.id r tbl.next at
            user.email n s w.no_empty found);
  no_empty =
      reindexed_empty (λ u. u.email) tbl.cell tbl.users tbl.users_by_email user.id r tbl.next at
        user.email w.no_empty;
}

pub create_user-IsFresh :
    (user : User) (tbl : UserTable) → IsFresh tbl → IsFresh (create_user user tbl).0
unfolding create_user
create_user-IsFresh user tbl w = elim (Option-cases (lookup user.id tbl.users)) [
  | inr (r, taken) ↦ rw (taken, create_user) w
  | inl new ↦ elim (Bool-cases (holds (lookup user.username tbl.users_by_username))) [
    | inl taken ↦ rw (new, create_user) (rw taken w)
    | inr free ↦
        elim (Bool-cases
          (not (str_eq user.email "") && holds (lookup user.email tbl.users_by_email))) [
            | inl taken ↦ rw (new, create_user) (rw free (rw taken w))
            | inr unused ↦
                rw (new, create_user) (rw free (rw unused (created-IsFresh user tbl w new)))
          ]
  ]
]

pub update_user-IsFresh :
    (now : Time) (user : User) (tbl : UserTable)
    → IsFresh tbl
    → IsFresh (update_user now user tbl).0
unfolding update_user
update_user-IsFresh now user tbl w = elim (Option-cases (lookup user.id tbl.users)) [
  | inl absent ↦ rw (absent, update_user) w
  | inr (r, at) ↦ rw (at, update_user) (updated-IsFresh now user r tbl w at)
]

pub drop_user-IsFresh :
    (id : String) (r : ℕ) (tbl : UserTable)
    → IsFresh tbl
    → lookup id tbl.users ≡ some r
    → IsFresh (drop_user id r tbl)
unfolding drop_user
drop_user-IsFresh id r tbl w at = record {
  stored = λ j s found. w.stored j s (ground (arith, lookup-delete id j tbl.users));
  by_username =
      drop-IsIndexedBy (λ u. u.username) tbl.cell tbl.next tbl.users tbl.users_by_username w.stored
        w.by_username id (delete (tbl.cell r).username tbl.users_by_username)
        (λ n s found.
          IsCleared-by_delete (λ u. u.username) tbl.cell tbl.users tbl.users_by_username id n s r at
            found);
  by_email =
      drop-IsIndexedBy (λ u. u.email) tbl.cell tbl.next tbl.users tbl.users_by_email w.stored
        w.by_email id
        (if str_eq (tbl.cell r).email ""
          then tbl.users_by_email
          else delete (tbl.cell r).email tbl.users_by_email)
        (λ n s found.
          dropped_email (λ u. u.email) tbl.cell tbl.users tbl.users_by_email id r tbl.next at n s
            w.no_empty found);
  no_empty = ground (arith, lookup-delete (tbl.cell r).email "" tbl.users_by_email, w.no_empty);
}
