-- ===== src/Api/Keys/Identity.antt =====
-- The key that `SetPrimaryKey` names is the account's identity, with which a password is recovered.
use cloistr_signer.Prelude.{
  ℕ, String, Bool, true, false, none, some, List, [], ◌∷◌, ◌≡◌, ◌≢◌, refl, sym, ap, subst, ◌∙◌,
  arith, eq_iff, Bool-cases, inl, inr, str_eq, if◌then◌else◌,
}
use cloistr_signer.Prelude.Dict.{Dict, lookup, values}
use cloistr_signer.Prelude.Distinct.{IsDistinct}
use cloistr_signer.Storage.Types.{Key, KeyTable, Heap, ok}
use cloistr_signer.Storage.Keys.{get_key, list_keys, set_primary_key}
use cloistr_signer.Storage.Keys.Primary.{IsKeyed, IsSolePrimary, set_primary_key-IsSolePrimary}
use cloistr_signer.Storage.Keys.Indexed.Calls.{
  set_primary_key-places, mark_each-same, mark_primary-fields,
}
use cloistr_signer.Api.Identity.{first_primary, choose_pubkey, resolve_signing_pubkey}

if_true {ℓ} : {A : Type ℓ} (b : Bool) (x y : A) → b ≡ true → (if b then x else y) ≡ x
if_true b x y e = rw e refl

empty_primary : (cell : Heap Key) (k : Key) → first_primary cell [] ≢ some k
unfolding first_primary
empty_primary cell k e = cc

module _ (owner_id key_id : String) (cell : Heap Key) (r : ℕ) (owned : (cell r).owner_id ≡ owner_id)
    (primary : (cell r).is_primary ≡ true) where
  abbrev theirs : String → ℕ → Bool
  theirs _ s = str_eq (cell s).owner_id owner_id

  first_primary-sole :
      (entries : Dict ℕ)
      → IsDistinct entries
      → lookup key_id entries ≡ some r
      → ((id : String) (s : ℕ)
          → lookup id entries ≡ some s
          → (cell s).owner_id ≡ owner_id
          → (cell s).is_primary ≡ true
          → id ≡ key_id)
      → first_primary cell (values theirs entries) ≡ some (cell r)
  unfolding first_primary values lookup
  first_primary-sole [] d found only = absurd (cc)
  first_primary-sole ((j, s) ∷ entries) d found only = elim (Bool-cases (str_eq j key_id)) [
    | inl here ↦
        let e : s ≡ r = ground (arith, found, here) in
        let kept : str_eq (cell s).owner_id owner_id ≡ true =
          (eq_iff (cell s).owner_id owner_id).1 (ap (λ i. (cell i).owner_id) e ∙ owned) in
        let flag : (cell s).is_primary ≡ true = ap (λ i. (cell i).is_primary) e ∙ primary in
        rw kept (if_true (cell s).is_primary (some (cell s)) _ flag ∙ ap (λ i. some (cell i)) e)
    | inr other ↦
        let rest =
          first_primary-sole entries d.1 (ground (arith, found, other))
            (λ id t at. only id t (ground (arith, at, d.0, eq_iff j id))) in
        elim (Bool-cases (str_eq (cell s).owner_id owner_id)) [
          | inr away ↦ rw away rest
          | inl kept ↦ elim (Bool-cases (cell s).is_primary) [
            | inr plain ↦ rw kept (rw plain rest)
            | inl flag ↦ absurd (
                let e =
                  only j s (ground (arith, eq_iff j j)) ((eq_iff (cell s).owner_id owner_id).0 kept)
                    flag in
                let o = other in ground (arith, eq_iff j key_id))
          ]
        ]
  ]

chosen_primary :
    (cell : Heap Key) (keys : List ℕ) (k : Key)
    → first_primary cell keys ≡ some k
    → k.pubkey ≢ ""
    → choose_pubkey cell keys ≡ some k.pubkey
chosen_primary cell [] k first named = absurd (empty_primary cell k first)
chosen_primary cell (r ∷ keys) k first named =
    let other : str_eq k.pubkey "" ≡ false = ground (arith, eq_iff k.pubkey "") in
    rw (first, choose_pubkey) (rw other refl)

sole-resolve :
    (owner_id key_id : String) (tbl : KeyTable) (s : IsSolePrimary owner_id key_id tbl)
    → IsDistinct tbl.keys
    → (tbl.cell s.place).pubkey ≢ ""
    → resolve_signing_pubkey owner_id tbl ≡ some (tbl.cell s.place).pubkey
unfolding resolve_signing_pubkey list_keys
sole-resolve owner_id key_id tbl s d named =
    chosen_primary tbl.cell
      (values (theirs owner_id key_id tbl.cell s.place s.owned s.primary) tbl.keys)
      (tbl.cell s.place)
      (first_primary-sole owner_id key_id tbl.cell s.place s.owned s.primary tbl.keys d s.stored
        s.only)
      named

promoted-fields :
    (owner_id key_id : String) (tbl : KeyTable) (i : ℕ)
    → ((set_primary_key owner_id key_id tbl).0.keys ≡ tbl.keys)
      × (((set_primary_key owner_id key_id tbl).0.cell i).pubkey ≡ (tbl.cell i).pubkey)
promoted-fields owner_id key_id tbl i = elim (set_primary_key-places owner_id key_id tbl) [
  | inl same ↦ rw same (refl, refl)
  | inr is ↦
      let (_, same, _) = mark_primary-fields owner_id key_id (tbl.cell i) in
      rw is (refl, mark_each-same (λ k. k.pubkey) owner_id key_id tbl.keys tbl.cell i same)
]

-- After a successful `SetPrimaryKey` in a table whose structs stand under their own ids, where its key
-- has a pubkey, that pubkey is the account's identity, with which the account is recovered.
pub set_primary_key-resolve_signing_pubkey :
    (owner_id key_id : String) (tbl : KeyTable) (r : ℕ)
    → IsKeyed tbl
    → IsDistinct tbl.keys
    → get_key key_id tbl ≡ ok r
    → (tbl.cell r).pubkey ≢ ""
    → (set_primary_key owner_id key_id tbl).1 ≡ none
    → resolve_signing_pubkey owner_id (set_primary_key owner_id key_id tbl).0
      ≡ some (tbl.cell r).pubkey
unfolding get_key
set_primary_key-resolve_signing_pubkey owner_id key_id tbl r keyed d got named done =
    let tbl' = (set_primary_key owner_id key_id tbl).0 in
    let s = (set_primary_key-IsSolePrimary owner_id key_id tbl r keyed done).0 in
    let (same_keys, same) = promoted-fields owner_id key_id tbl s.place in
    let found : lookup key_id tbl.keys ≡ some r = ground (arith, got) in
    let e : s.place ≡ r = ground (arith, found, s.stored, ap (λ m. lookup key_id m) same_keys) in
    let same' = same ∙ ap (λ i. (tbl.cell i).pubkey) e in
    sole-resolve owner_id key_id tbl' s (subst (λ m. IsDistinct m) (sym same_keys) d)
      (λ bare. named (sym same' ∙ bare))
    ∙ ap some same'
