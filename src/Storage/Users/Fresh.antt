-- ===== src/Storage/Users/Fresh.antt =====
-- A lookup by name or email finds the user that a lookup by id finds.
pub mod Reindex
pub mod Calls
pub mod Lookups
use cloistr_signer.Prelude.{
  ℕ, ◌+◌, ◌<◌, String, Bool, true, false, ◌&&◌, not, Option, none, some, List, [], ◌∷◌, ◌≡◌, refl,
  sym, ap, ◌∙◌, arith, eq_iff, eq_refl, Bool-cases, Option-cases, inl, inr, ◌≢◌, ◌⊎◌, if◌then◌else◌,
  str_eq, ◌==◌, ==_iff,
}
use cloistr_signer.Prelude.Dict.{
  Dict, lookup, delete, insert, lookup-insert, lookup-insert_self, lookup-delete,
}
use cloistr_signer.Storage.Types.{Time, User, UserTable, Heap, update}

-- The by-id map holds each user under its id, at an allocated place.
abbrev pub IsStored : Heap User → ℕ → Dict ℕ → Type 0
IsStored cell next users =
    (id : String) (r : ℕ) → lookup id users ≡ some r → ((cell r).id ≡ id) × (r < next)

-- Each entry of an index is the stored user with that attribute.
abbrev pub IsIndexedBy : (User → String) → Heap User → Dict ℕ → Dict ℕ → Type 0
IsIndexedBy attr cell users index =
    (n : String) (s : ℕ)
    → lookup n index ≡ some s
    → (attr (cell s) ≡ n) × (lookup (cell s).id users ≡ some s)

-- What an index keeps when the user with the id is replaced or removed: no entry of that user.
abbrev pub IsCleared : (User → String) → Heap User → Dict ℕ → Dict ℕ → String → String → ℕ → Type 0
IsCleared attr cell users index id n s =
    (lookup n index ≡ some s) × ((r : ℕ) → lookup id users ≡ some r → attr (cell r) ≢ n)

pub update_self : (cell : Heap User) (r : ℕ) (user : User) → update cell r user r ≡ user
update_self cell r user = let hit : (r == r) ≡ true = (==_iff r r).1 refl in rw hit refl

pub update_below :
    (cell : Heap User) (next s : ℕ) (user : User) → s < next → update cell next user s ≡ cell s
update_below cell next s user below = let miss : (next == s) ≡ false = ground arith in rw miss refl

module _ (attr : User → String) (cell : Heap User) (next : ℕ) (users index : Dict ℕ)
    (stored : IsStored cell next users) (indexed : IsIndexedBy attr cell users index) where
  -- The index after a new copy of a user is stored.
  pub put-IsIndexedBy :
      (user : User) (index' : Dict ℕ)
      → ((n : String) (s : ℕ)
          → lookup n index' ≡ some s
          → ((s ≡ next) × (attr user ≡ n)) ⊎ IsCleared attr cell users index user.id n s)
      → IsIndexedBy attr (update cell next user) (insert user.id next users) index'
  put-IsIndexedBy user index' law n s found = elim (law n s found) [
    | inl (new, is) ↦
        let e : update cell next user s ≡ user = rw new (update_self cell next user) in
        (
          ap attr e ∙ is,
          ap (λ u. lookup u.id (insert user.id next users)) e
              ∙ lookup-insert_self user.id next users
              ∙ ap some (sym new),
        )
    | inr (old, cleared) ↦
        let (is, at) = indexed n s old in
        let e = update_below cell next s user (stored (cell s).id s at).1 in
        (
          ap attr e ∙ is,
          ap (λ u. lookup u.id (insert user.id next users)) e
              ∙ (elim (Bool-cases (str_eq user.id (cell s).id)) [
                | inl same ↦
                    let ei : user.id ≡ (cell s).id = (eq_iff user.id (cell s).id).0 same in
                    absurd (cleared s (ap (λ i. lookup i users) ei ∙ at) is)
                | inr other ↦ rw (lookup-insert user.id (cell s).id next users, other) at
              ]),
        )
  ]

  -- The index after a user is removed.
  pub drop-IsIndexedBy :
      (id : String) (index' : Dict ℕ)
      → ((n : String) (s : ℕ) → lookup n index' ≡ some s → IsCleared attr cell users index id n s)
      → IsIndexedBy attr cell (delete id users) index'
  drop-IsIndexedBy id index' law n s found =
      let (old, cleared) = law n s found in
      let (is, at) = indexed n s old in
      (
        is,
        elim (Bool-cases (str_eq id (cell s).id)) [
          | inl same ↦
              let ei : id ≡ (cell s).id = (eq_iff id (cell s).id).0 same in
              absurd (cleared s (ap (λ i. lookup i users) ei ∙ at) is)
          | inr other ↦ rw (lookup-delete id (cell s).id users, other) at
        ],
      )

-- A write through a pointer that leaves the ids and the attribute.
pub write-same :
    (attr : User → String) (cell : Heap User) (r s : ℕ) (user : User)
    → attr user ≡ attr (cell r)
    → attr (update cell r user s) ≡ attr (cell s)
write-same attr cell r s user same = elim (Bool-cases (r == s)) [
  | inl here ↦ let e : r ≡ s = (==_iff r s).0 here in rw here (same ∙ ap (λ x. attr (cell x)) e)
  | inr there ↦ rw there refl
]

pub write-IsIndexedBy :
    (attr : User → String) (cell : Heap User) (users index : Dict ℕ) (r : ℕ) (user : User)
    → attr user ≡ attr (cell r)
    → user.id ≡ (cell r).id
    → IsIndexedBy attr cell users index
    → IsIndexedBy attr (update cell r user) users index
write-IsIndexedBy attr cell users index r user same same_id indexed n s found =
    let (is, at) = indexed n s found in
    (
      write-same attr cell r s user same ∙ is,
      ap (λ i. lookup i users) (write-same (λ u. u.id) cell r s user same_id) ∙ at,
    )

-- The entries of the by-name and by-email maps once a user is replaced or removed.
pub IsCleared-by_delete :
    (attr : User → String) (cell : Heap User) (users index : Dict ℕ) (id n : String) (s r : ℕ)
    → lookup id users ≡ some r
    → lookup n (delete (attr (cell r)) index) ≡ some s
    → IsCleared attr cell users index id n s
IsCleared-by_delete attr cell users index id n s r at found = (
  ground (arith, lookup-delete (attr (cell r)) n index),
  λ r' at' is.
      let e : r ≡ r' = ground (arith, at, at') in
      ground (
        arith,
        lookup-delete (attr (cell r)) n index,
        eq_iff (attr (cell r)) n,
        ap (λ x. attr (cell x)) e ∙ is,
      ),
)
