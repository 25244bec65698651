-- ===== src/Storage/Keys/Primary.antt =====
-- An owner has one identity key: what `SetPrimaryKey` leaves of the flags.
use cloistr_signer.Prelude.{
  ℕ, String, Bool, true, false, ◌||◌, none, some, [], ◌∷◌, ◌≡◌, refl, sym, ap, ◌∙◌, arith, eq_iff,
  Bool-cases, Option-cases, inl, inr, ◌⊎◌, ◌≢◌, str_eq, ◌==◌, ==_iff, if◌then◌else◌,
}
use cloistr_signer.Prelude.Dict.{Dict, lookup}
use cloistr_signer.Storage.Types.{Key, KeyTable, Heap, update}
use cloistr_signer.Storage.Keys.{mark_primary, mark_each, set_primary_key}

-- Some entry points to the struct.
abbrev pub has_ref : ℕ → Dict ℕ → Bool
has_ref r [] = false
has_ref r ((id, s) ∷ entries) = (s == r) || has_ref r entries

has_ref-lookup :
    (id : String) (r : ℕ) (entries : Dict ℕ) → lookup id entries ≡ some r → has_ref r entries ≡ true
unfolding lookup
has_ref-lookup id r [] found = absurd (cc)
has_ref-lookup id r ((j, s) ∷ entries) found =
    ground (arith, eq_iff j id, ==_iff s r, has_ref-lookup id r entries)

mark_primary-twice :
    (owner_id key_id : String) (k : Key)
    → mark_primary owner_id key_id (mark_primary owner_id key_id k) ≡ mark_primary owner_id key_id k
unfolding mark_primary
mark_primary-twice owner_id key_id k = elim (Bool-cases (str_eq k.owner_id owner_id)) [
  | inl theirs ↦ rw (theirs) (rw theirs refl)
  | inr other ↦ rw (other) (rw other refl)
]

written :
    (cell : Heap Key) (s r : ℕ) (k : Key → Key) → s ≡ r → update cell s (k (cell s)) r ≡ k (cell r)
written cell s r k e =
    let hit : (s == r) ≡ true = (==_iff s r).1 e in rw hit (ap (λ i. k (cell i)) e)

module _ (owner_id key_id : String) where
  abbrev pub mark : Key → Key
  mark = mark_primary owner_id key_id

  mark_each-other :
      (entries : Dict ℕ) (cell : Heap Key) (r : ℕ)
      → has_ref r entries ≡ false
      → mark_each owner_id key_id entries cell r ≡ cell r
  unfolding mark_each
  mark_each-other [] cell r missed = refl
  mark_each-other ((id, s) ∷ entries) cell r missed =
      let away : (s == r) ≡ false = ground (arith) in
      mark_each-other entries (update cell s (mark (cell s))) r (ground (arith)) ∙ rw away refl

  mark_each-marked :
      (entries : Dict ℕ) (cell : Heap Key) (r : ℕ)
      → has_ref r entries ≡ true
      → mark_each owner_id key_id entries cell r ≡ mark (cell r)
  unfolding mark_each
  mark_each-marked [] cell r reached = absurd (cc)
  mark_each-marked ((id, s) ∷ entries) cell r reached =
      let cell' : Heap Key = update cell s (mark (cell s)) in
      elim (Bool-cases (has_ref r entries)) [
        | inl again ↦ elim (Bool-cases (s == r)) [
          | inl here ↦
              let e : s ≡ r = (==_iff s r).0 here in
              mark_each-marked entries cell' r again
              ∙ ap mark (written cell s r mark e)
              ∙ mark_primary-twice owner_id key_id (cell r)
          | inr away ↦ mark_each-marked entries cell' r again ∙ ap mark (rw away refl)
        ]
        | inr once ↦
            let e : s ≡ r = ground (arith, reached, once, ==_iff s r) in
            mark_each-other entries cell' r once ∙ written cell s r mark e
      ]

  pub mark_each-cases :
      (entries : Dict ℕ) (cell : Heap Key) (r : ℕ)
      → mark_each owner_id key_id entries cell r
        ≡ (if has_ref r entries then mark (cell r) else cell r)
  mark_each-cases entries cell r = elim (Bool-cases (has_ref r entries)) [
    | inl reached ↦ mark_each-marked entries cell r reached ∙ rw reached refl
    | inr missed ↦ mark_each-other entries cell r missed ∙ rw missed refl
  ]

  refused :
      (tbl : KeyTable) (at : ℕ)
      → lookup key_id tbl.keys ≡ some at
      → str_eq (tbl.cell at).owner_id owner_id ≡ false
      → (set_primary_key owner_id key_id tbl).1 ≢ none
  unfolding set_primary_key
  refused tbl at found other = rw (found, set_primary_key) (rw other (λ e. cc))

  set_primary_key-cases :
      (tbl : KeyTable)
      → (set_primary_key owner_id key_id tbl).1 ≡ none
      → (at : ℕ) × (lookup key_id tbl.keys ≡ some at)
        × ((tbl.cell at).owner_id ≡ owner_id)
        × ((set_primary_key owner_id key_id tbl).0
            ≡ record tbl { cell = mark_each owner_id key_id tbl.keys tbl.cell })
  unfolding set_primary_key
  set_primary_key-cases tbl done = elim (Option-cases (lookup key_id tbl.keys)) [
    | inl absent ↦ absurd (let e = done in ground (arith, absent))
    | inr (at, found) ↦ elim (Bool-cases (str_eq (tbl.cell at).owner_id owner_id)) [
      | inr other ↦ absurd (refused tbl at found other done)
      | inl theirs ↦ (
        at,
        found,
        (eq_iff (tbl.cell at).owner_id owner_id).0 theirs,
        rw (found, set_primary_key) (rw theirs refl),
      )
    ]
  ]

-- Each struct stands under its own id.
abbrev pub IsKeyed : KeyTable → Type 0
IsKeyed tbl = (id : String) (r : ℕ) → lookup id tbl.keys ≡ some r → (tbl.cell r).id ≡ id

-- The owner holds the key, and it alone of the owner's keys is primary.
pub record IsSolePrimary (owner_id key_id : String) (tbl : KeyTable) : Type 0 where
  pub place : ℕ
  pub stored : lookup key_id tbl.keys ≡ some place
  pub owned : (tbl.cell place).owner_id ≡ owner_id
  pub primary : (tbl.cell place).is_primary ≡ true
  pub only :
      (id : String) (r : ℕ)
      → lookup id tbl.keys ≡ some r
      → (tbl.cell r).owner_id ≡ owner_id
      → (tbl.cell r).is_primary ≡ true
      → id ≡ key_id

module _ (owner_id key_id : String) (tbl : KeyTable) where
  abbrev marked : KeyTable
  marked = record tbl { cell = mark_each owner_id key_id tbl.keys tbl.cell }

  marked-stored :
      (id : String) (r : ℕ)
      → lookup id tbl.keys ≡ some r
      → marked.cell r ≡ mark_primary owner_id key_id (tbl.cell r)
  marked-stored id r found =
      mark_each-marked owner_id key_id tbl.keys tbl.cell r (has_ref-lookup id r tbl.keys found)

  mark_primary-owned :
      (k : Key)
      → k.owner_id ≡ owner_id
      → mark_primary owner_id key_id k ≡ record k { is_primary = str_eq k.id key_id }
  unfolding mark_primary
  mark_primary-owned k theirs = rw ((eq_iff k.owner_id owner_id).1 theirs) refl

  pub mark_primary-owner : (k : Key) → (mark_primary owner_id key_id k).owner_id ≡ k.owner_id
  unfolding mark_primary
  mark_primary-owner k = ground (arith)

  marked-IsSolePrimary :
      (at : ℕ)
      → IsKeyed tbl
      → lookup key_id tbl.keys ≡ some at
      → (tbl.cell at).owner_id ≡ owner_id
      → IsSolePrimary owner_id key_id marked
  marked-IsSolePrimary at keyed found theirs =
      let e = marked-stored key_id at found ∙ mark_primary-owned (tbl.cell at) theirs in
      record {
        place = at;
        stored = found;
        owned = ap (λ k. k.owner_id) e ∙ theirs;
        primary =
            ap (λ k. k.is_primary) e ∙ (eq_iff (tbl.cell at).id key_id).1 (keyed key_id at found);
        only = λ id r stored owned flag.
            let is = marked-stored id r stored in
            let owner =
              sym (mark_primary-owner (tbl.cell r)) ∙ ap (λ k. k.owner_id) (sym is) ∙ owned in
            let flagged =
              sym (ap (λ k. k.is_primary) (is ∙ mark_primary-owned (tbl.cell r) owner)) ∙ flag in
            sym (keyed id r stored) ∙ (eq_iff (tbl.cell r).id key_id).0 flagged;
      }

  -- After a successful `SetPrimaryKey`, in a table whose structs stand under their own ids, the owner
  -- holds the key and it alone of the owner's keys is primary; a struct is the owner's or has not
  -- changed.
  pub set_primary_key-IsSolePrimary :
      (r : ℕ)
      → IsKeyed tbl
      → (set_primary_key owner_id key_id tbl).1 ≡ none
      → IsSolePrimary owner_id key_id (set_primary_key owner_id key_id tbl).0
        × (((tbl.cell r).owner_id ≡ owner_id)
            ⊎ ((set_primary_key owner_id key_id tbl).0.cell r ≡ tbl.cell r))
  unfolding mark_primary
  set_primary_key-IsSolePrimary r keyed done =
      let (at, found, theirs, is) = set_primary_key-cases owner_id key_id tbl done in
      rw is (
        marked-IsSolePrimary at keyed found theirs,
        elim (Bool-cases (str_eq (tbl.cell r).owner_id owner_id)) [
          | inl same ↦ inl ((eq_iff (tbl.cell r).owner_id owner_id).0 same)
          | inr other ↦ inr (mark_each-cases owner_id key_id tbl.keys tbl.cell r ∙ (ground (arith)))
        ],
      )
