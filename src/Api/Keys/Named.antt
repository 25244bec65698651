-- ===== src/Api/Keys/Named.antt =====
-- What a rename does to the lookup by name.
use cloistr_signer.Prelude.{
  ℕ, String, some, ◌≡◌, refl, ap, ◌∙◌, arith, Bool-cases, inl, inr, str_eq,
}
use cloistr_signer.Prelude.Dict.{lookup}
use cloistr_signer.Storage.Types.{Key, KeyTable, Result-cases, ok, update, update_at}
use cloistr_signer.Storage.Keys.{get_key, get_key_by_name, update_key}
use cloistr_signer.Storage.Keys.Primary.{IsKeyed}
use cloistr_signer.Storage.Keys.Removed.{update_key-get_key_by_name}
use cloistr_signer.Api.Keys.{UpdateKeyRequest, apply_updates, save_updates, handle_update_key}

apply_updates-id : (req : UpdateKeyRequest) (k : Key) → (apply_updates req k).id ≡ k.id
unfolding apply_updates
apply_updates-id req k = refl

save_updates-table :
    (req : UpdateKeyRequest) (r : ℕ) (tbl : KeyTable)
    → (save_updates req r tbl).0
      ≡ (update_key r (record tbl { cell = update tbl.cell r (apply_updates req (tbl.cell r)) })).0
unfolding save_updates
save_updates-table req r tbl = ground (arith)

-- A change of a key by its owner, the change of its name included, leaves every lookup by name as it
-- was, where structs stand under their own ids.
pub handle_update_key-get_key_by_name :
    (user_id id : String) (req : UpdateKeyRequest) (tbl : KeyTable) (name : String)
    → IsKeyed tbl
    → get_key_by_name name (handle_update_key user_id id req tbl).0 ≡ get_key_by_name name tbl
unfolding handle_update_key get_key get_key_by_name
handle_update_key-get_key_by_name user_id id req tbl name keyed =
    elim (Result-cases (get_key id tbl)) [
      | inr (e, absent) ↦ rw (absent, handle_update_key) refl
      | inl (r, got) ↦ elim (Bool-cases (str_eq (tbl.cell r).owner_id user_id)) [
        | inr other ↦ rw (got, handle_update_key) (rw other refl)
        | inl theirs ↦
            let found : lookup id tbl.keys ≡ some r = ground (arith, got) in
            let written = record tbl {
              cell = update tbl.cell r (apply_updates req (tbl.cell r));
            } in
            let same : (written.cell r).id ≡ id =
              ap (λ k. k.id) (update_at tbl.cell r (apply_updates req (tbl.cell r)))
              ∙ apply_updates-id req (tbl.cell r)
              ∙ keyed id r found in
            let stored : get_key (written.cell r).id written ≡ ok r = rw (same) got in
            rw (got, handle_update_key)
              (rw theirs (
                ap (get_key_by_name name) (save_updates-table req r tbl)
                ∙ update_key-get_key_by_name r written name stored))
      ]
    ]
