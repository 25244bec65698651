-- ===== src/Storage/Users/Codes.antt =====
-- A backup code is accepted as often as it is stored.
use cloistr_signer.Prelude.{
  ℕ, suc, String, Bool, true, false, Option, none, some, List, [], ◌∷◌, ◌≡◌, refl, sym, ap, ◌∙◌,
  arith, least, Bool-cases, Option-cases, inl, inr, ◌⊎◌, if◌then◌else◌, str_eq, ◌==◌, ==_iff,
}
use cloistr_signer.Prelude.Dict.{lookup}
use cloistr_signer.Storage.Types.{Time, UserTable, Result, ok, err, user_not_found}
use cloistr_signer.Storage.Users.{remove_code, consume_backup_code}

abbrev pub occurrences : String → List String → ℕ
occurrences code [] = 0
occurrences code (c ∷ cs) =
    let rest = occurrences code cs in if str_eq c code then suc rest else rest

-- How often the code is stored for the user.
abbrev pub codes_at : String → UserTable → Option ℕ → ℕ
codes_at code tbl none = 0
codes_at code tbl (some r) = occurrences code (tbl.cell r).backup_codes

abbrev pub stored_codes : String → String → UserTable → ℕ
stored_codes id code tbl = codes_at code tbl (lookup id tbl.users)

remove_code-cases :
    (code : String) (cs : List String)
    → ((remove_code code cs ≡ none) × (occurrences code cs ≡ 0))
      ⊎ ((left : List String) × (remove_code code cs ≡ some left)
          × (occurrences code cs ≡ suc (occurrences code left)))
unfolding remove_code
remove_code-cases code [] = inl (refl, refl)
remove_code-cases code (c ∷ cs) = elim (Bool-cases (str_eq c code)) [
  | inl hit ↦ inr (cs, rw hit refl, rw hit refl)
  | inr miss ↦ elim (remove_code-cases code cs) [
    | inl (absent, zero) ↦ inl (rw (miss, absent) refl, rw miss zero)
    | inr (left, is, count) ↦ inr (c ∷ left, rw (miss, is) refl, rw miss count)
  ]
]

abbrev pub is_accepted : Result Bool → Bool
is_accepted (ok won) = won
is_accepted (err _) = false

-- How many callers win who all use the same code of one user, each at its time.
unfoldable pub accepted : String → String → List Time → UserTable → ℕ
accepted id code [] tbl = 0
accepted id code (now ∷ times) tbl =
    let (tbl', verdict) = consume_backup_code now id code tbl in
    let rest = accepted id code times tbl' in if is_accepted verdict then suc rest else rest

abbrev pub attempts : List Time → ℕ
attempts [] = 0
attempts (now ∷ times) = suc (attempts times)

module _ (now : Time) (id code : String) (tbl : UserTable) where
  consumed_absent :
      lookup id tbl.users ≡ none → consume_backup_code now id code tbl ≡ (tbl, err user_not_found)
  unfolding consume_backup_code
  consumed_absent absent = rw (absent, consume_backup_code)

  consumed_none :
      (r : ℕ)
      → lookup id tbl.users ≡ some r
      → remove_code code (tbl.cell r).backup_codes ≡ none
      → consume_backup_code now id code tbl ≡ (tbl, ok false)
  unfolding consume_backup_code
  consumed_none r at is = rw (at, consume_backup_code) (rw is refl)

  consumed_one :
      (r : ℕ) (left : List String)
      → lookup id tbl.users ≡ some r
      → remove_code code (tbl.cell r).backup_codes ≡ some left
      → (is_accepted (consume_backup_code now id code tbl).1 ≡ true)
        × (stored_codes id code (consume_backup_code now id code tbl).0 ≡ occurrences code left)
  unfolding consume_backup_code
  consumed_one r left at is =
      let hit : (r == r) ≡ true = (==_iff r r).1 refl in
      rw (at, consume_backup_code) (rw (is, at) (refl, rw hit refl))

  -- The call refuses and changes nothing if the code is not stored, or accepts and drops it once.
  consume_backup_code-cases :
      ((stored_codes id code tbl ≡ 0)
        × ((consume_backup_code now id code tbl).0 ≡ tbl)
        × (is_accepted (consume_backup_code now id code tbl).1 ≡ false))
      ⊎ ((stored_codes id code tbl
            ≡ suc (stored_codes id code (consume_backup_code now id code tbl).0))
          × (is_accepted (consume_backup_code now id code tbl).1 ≡ true))
  consume_backup_code-cases = elim (Option-cases (lookup id tbl.users)) [
    | inl absent ↦
        let e = consumed_absent absent in
        inl (rw absent refl, ap (λ x. x.0) e, ap (λ x. is_accepted x.1) e)
    | inr (r, at) ↦ elim (remove_code-cases code (tbl.cell r).backup_codes) [
      | inl (is, zero) ↦
          let e = consumed_none r at is in
          inl (rw at zero, ap (λ x. x.0) e, ap (λ x. is_accepted x.1) e)
      | inr (left, is, count) ↦
          let (won, after) = consumed_one r left at is in
          inr ((rw at count) ∙ ap suc (sym after), won)
    ]
  ]

-- Of any attempts to use one backup code of one user, one after the other at any times, the number
-- that is accepted is the smaller of two: the number of attempts, and how often the code is stored for
-- the user.
pub accepted-least :
    (id code : String) (times : List Time) (tbl : UserTable)
    → accepted id code times tbl ≡ least (attempts times) (stored_codes id code tbl)
unfolding accepted
accepted-least id code [] tbl = ground arith
accepted-least id code (now ∷ times) tbl =
    let h = accepted-least id code times (consume_backup_code now id code tbl).0 in
    elim (consume_backup_code-cases now id code tbl) [
      | inl (zero, same, lost) ↦
          let h' = (let g = h in rw same at g) in rw (lost, same) (ground (arith, h', zero))
      | inr (more, won) ↦ rw won (ground (arith, h, more))
    ]
