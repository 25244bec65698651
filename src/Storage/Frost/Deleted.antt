-- ===== src/Storage/Frost/Deleted.antt =====
-- What is left of a FROST key's shares after `DeleteFrostKey`.
use cloistr_signer.Prelude.{String, none, [], ◌≡◌, refl, arith, eq_refl, Option-cases, inl, inr}
use cloistr_signer.Prelude.Dict.{lookup, delete, lookup-delete}
use cloistr_signer.Storage.Types.{frost_share_not_found, err}
use cloistr_signer.Storage.Frost.{
  FrostTable, delete_frost_key, get_frost_share, get_frost_share_by_key_and_index,
  list_frost_shares, shares_of, shares_in,
}
use cloistr_signer.Prelude.{ℕ}

-- A successful `DeleteFrostKey` empties the list of the key's shares and none is found by its index, but
-- every share is still found by its id.
pub delete_frost_key-get_frost_share :
    (id share_id : String) (i : ℕ) (tbl : FrostTable)
    → (delete_frost_key id tbl).1 ≡ none
    → (list_frost_shares id (delete_frost_key id tbl).0 ≡ [])
      × (get_frost_share_by_key_and_index id i (delete_frost_key id tbl).0
          ≡ err frost_share_not_found)
      × (get_frost_share share_id (delete_frost_key id tbl).0 ≡ get_frost_share share_id tbl)
unfolding delete_frost_key list_frost_shares get_frost_share get_frost_share_by_key_and_index
    shares_of shares_in
delete_frost_key-get_frost_share id share_id i tbl done =
    elim (Option-cases (lookup id tbl.frost_keys)) [
      | inl absent ↦ absurd (let e = done in ground (arith, absent))
      | inr (key, found) ↦
          let gone : lookup id (delete id tbl.frost_shares_by_key) ≡ none =
            ground (arith, lookup-delete id id tbl.frost_shares_by_key, eq_refl id) in
          rw (found, delete_frost_key)
            (
              rw (gone, list_frost_shares, shares_of) refl,
              rw (gone, get_frost_share_by_key_and_index) refl,
              refl,
            )
    ]
