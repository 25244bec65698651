-- ===== src/Storage/Users/Fresh/Reindex.antt =====
-- What an update of a user leaves in the by-name and by-email maps.
use cloistr_signer.Prelude.{
  ℕ, String, true, false, ◌&&◌, not, none, some, ◌≡◌, sym, ap, ◌∙◌, arith, eq_iff, Bool-cases, inl,
  inr, ◌≢◌, ◌⊎◌, if◌then◌else◌, str_eq,
}
use cloistr_signer.Prelude.Dict.{Dict, lookup, delete, lookup-insert, lookup-delete}
use cloistr_signer.Storage.Types.{User, Heap}
use cloistr_signer.Storage.Users.{reindex_username, reindex_email}
use cloistr_signer.Storage.Users.Fresh.{IsCleared, IsCleared-by_delete}

module _ (attr : User → String) (cell : Heap User) (users index : Dict ℕ) (id : String) (r next : ℕ)
    (at : lookup id users ≡ some r) where
  IsCleared-other :
      (n : String) (s : ℕ)
      → lookup n index ≡ some s
      → attr (cell r) ≢ n
      → IsCleared attr cell users index id n s
  IsCleared-other n s found ne = (
    found,
    λ r' at' is. let e : r ≡ r' = ground (arith, at, at') in ne (ap (λ x. attr (cell x)) e ∙ is),
  )

  pub reindexed :
      (new n : String) (s : ℕ)
      → lookup n (reindex_username (attr (cell r)) new next index) ≡ some s
      → ((s ≡ next) × (new ≡ n)) ⊎ IsCleared attr cell users index id n s
  reindexed new n s found =
      let inner =
        if not (str_eq (attr (cell r)) new) then delete (attr (cell r)) index else index in
      let law = lookup-insert new n next inner in
      elim (Bool-cases (str_eq new n)) [
        | inl same ↦ inl (ground (arith, law, same, found), (eq_iff new n).0 same)
        | inr other ↦
            let rest : lookup n inner ≡ some s = ground (arith, law, other, found) in
            elim (Bool-cases (str_eq (attr (cell r)) new)) [
              | inl kept ↦ inr (
                  IsCleared-other n s (let h = rest in rw kept at h)
                    (λ is. ground (arith, eq_iff (attr (cell r)) new, eq_iff new n)))
              | inr moved ↦ inr (
                  IsCleared-by_delete attr cell users index id n s r at
                    (let h = rest in rw moved at h))
            ]
      ]

  kept_email :
      (new n : String) (s : ℕ)
      → lookup "" index ≡ none
      → (str_eq new n ≡ false) ⊎ (str_eq new "" ≡ true)
      → lookup n (
          if not (str_eq (attr (cell r)) new) && not (str_eq (attr (cell r)) "")
          then delete (attr (cell r)) index
          else index)
        ≡ some s
      → IsCleared attr cell users index id n s
  kept_email new n s empty apart found = elim (Bool-cases (str_eq (attr (cell r)) "")) [
    | inl bare ↦
        let old : lookup n index ≡ some s = (let h = found in ground (arith, bare)) in
        IsCleared-other n s old (λ is.
          let e : n ≡ "" = sym is ∙ (eq_iff (attr (cell r)) "").0 bare in
          let hit : lookup "" index ≡ some s = rw (← e) old in cc)
    | inr named ↦ elim (Bool-cases (str_eq (attr (cell r)) new)) [
      | inl kept ↦ IsCleared-other n s (let h = found in rw kept at h) (λ is. ground (
        arith,
        eq_iff (attr (cell r)) new,
        eq_iff new n,
        eq_iff new "",
        eq_iff (attr (cell r)) "",
        apart,
      ))
      | inr moved ↦
          IsCleared-by_delete attr cell users index id n s r at
            (let h = found in rw (moved, named) at h)
    ]
  ]

  pub reindexed_email :
      (new n : String) (s : ℕ)
      → lookup "" index ≡ none
      → lookup n (reindex_email (attr (cell r)) new next index) ≡ some s
      → ((s ≡ next) × (new ≡ n)) ⊎ IsCleared attr cell users index id n s
  reindexed_email new n s empty found = elim (Bool-cases (str_eq new "")) [
    | inl bare ↦ inr (kept_email new n s empty (inr bare) (let h = found in rw bare at h))
    | inr named ↦ elim (Bool-cases (str_eq new n)) [
      | inl same ↦
          let law = lookup-insert new n next (
            if not (str_eq (attr (cell r)) new) && not (str_eq (attr (cell r)) "")
            then delete (attr (cell r)) index
            else index) in
          let e : some next ≡ some s = (rw same at (sym law)) ∙ (let h = found in rw named at h) in
          inl (cc, (eq_iff new n).0 same)
      | inr other ↦
          let law = lookup-insert new n next (
            if not (str_eq (attr (cell r)) new) && not (str_eq (attr (cell r)) "")
            then delete (attr (cell r)) index
            else index) in
          inr (
            kept_email new n s empty (inl other)
              ((rw other at (sym law)) ∙ (let h = found in rw named at h)))
    ]
  ]

  -- The empty email is in no index.
  pub reindexed_empty :
      (new : String)
      → lookup "" index ≡ none
      → lookup "" (reindex_email (attr (cell r)) new next index) ≡ none
  reindexed_empty new empty = ground (
    arith,
    eq_iff new "",
    lookup-insert new "" next (
        if not (str_eq (attr (cell r)) new) && not (str_eq (attr (cell r)) "")
        then delete (attr (cell r)) index
        else index),
    lookup-delete (attr (cell r)) "" index,
  )

  -- What the removal of the user leaves in the by-email map.
  pub dropped_email :
      (n : String) (s : ℕ)
      → lookup "" index ≡ none
      → lookup n (if str_eq (attr (cell r)) "" then index else delete (attr (cell r)) index)
        ≡ some s
      → IsCleared attr cell users index id n s
  dropped_email n s empty found = elim (Bool-cases (str_eq (attr (cell r)) "")) [
    | inl bare ↦
        let old : lookup n index ≡ some s = (let h = found in rw bare at h) in
        IsCleared-other n s old (λ is.
          let e : n ≡ "" = sym is ∙ (eq_iff (attr (cell r)) "").0 bare in
          let hit : lookup "" index ≡ some s = rw (← e) old in cc)
    | inr named ↦
        IsCleared-by_delete attr cell users index id n s r at (let h = found in rw named at h)
  ]
