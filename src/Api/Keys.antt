-- ===== src/Api/Keys.antt =====
-- internal/api/handler.go: the handlers that change, delete and promote a signed-in user's keys, on
-- `MemoryStorage`. `user_id` is the signed-in user's. A handler writes to the struct that `GetKey` returns,
-- which is the stored one.
pub mod Named
pub mod Identity
use cloistr_signer.Prelude.{ℕ, String, Bool, not, Option, none, some, List, if◌then◌else◌, str_eq}
use cloistr_signer.Storage.Types.{Error, Key, KeyTable, Grants, Result, ok, err, update}
use cloistr_signer.Storage.Keys.{get_key, update_key, delete_key, set_primary_key}
use cloistr_signer.Storage.Seals.{Seals}
use cloistr_signer.Api.Recovery.{key_type_proxy}

pub record UpdateKeyRequest : Type 0 where
  pub name : Option String
  pub require_approval : Option Bool
  pub disposable_mode : Option Bool
  pub cover_traffic : Option Bool
  pub tor_egress : Option Bool
  pub relays : Option (List String)

pub data KeyReply : Type 0 where
  key_reply : Key → KeyReply
  key_removed not_found failed is_proxy : KeyReply

-- `if req.Field != nil { key.Field = *req.Field }`
abbrev pub given {ℓ} : {A : Type ℓ} → Option A → A → A
given none old = old
given (some new) old = new

unfoldable pub apply_updates : UpdateKeyRequest → Key → Key
apply_updates req key = record key {
  name = given req.name key.name;
  require_approval = given req.require_approval key.require_approval;
  disposable_mode = given req.disposable_mode key.disposable_mode;
  cover_traffic = given req.cover_traffic key.cover_traffic;
  tor_egress = given req.tor_egress key.tor_egress;
  relays = given req.relays key.relays;
}

-- The writes to the stored struct, and `UpdateKey` of it.
unfoldable pub save_updates : UpdateKeyRequest → ℕ → KeyTable → KeyTable × KeyReply
save_updates req r tbl =
    let written = record tbl { cell = update tbl.cell r (apply_updates req (tbl.cell r)) } in
    let (saved, e) = update_key r written in
    elim e [ some _ ↦ (saved, failed) | none ↦ (saved, key_reply (saved.cell r)) ]

unfoldable pub handle_update_key :
    String → String → UpdateKeyRequest → KeyTable → KeyTable × KeyReply
handle_update_key user_id id req tbl = elim (get_key id tbl) [
  | err _ ↦ (tbl, not_found)
  | ok r ↦
      if not (str_eq (tbl.cell r).owner_id user_id)
      then (tbl, not_found)
      else save_updates req r tbl
]

unfoldable pub handle_delete_key :
    String → String → KeyTable → Grants → Seals → KeyTable × Grants × Seals × KeyReply
handle_delete_key user_id id tbl grants seals = elim (get_key id tbl) [
  | err _ ↦ (tbl, grants, seals, not_found)
  | ok r ↦
      let (tbl', grants', seals', e) = delete_key id tbl grants seals in
      if not (str_eq (tbl.cell r).owner_id user_id)
      then (tbl, grants, seals, not_found)
      else elim e [
        | some _ ↦ (tbl, grants, seals, failed)
        | none ↦ (tbl', grants', seals', key_removed)
      ]
]

-- Up to the success of `SetPrimaryKey`; what follows tells the platform of the new identity.
unfoldable pub handle_set_primary_key : String → String → KeyTable → KeyTable × KeyReply
handle_set_primary_key user_id id tbl = elim (get_key id tbl) [
  | err _ ↦ (tbl, not_found)
  | ok r ↦
      let (tbl', e) = set_primary_key user_id id tbl in
      if not (str_eq (tbl.cell r).owner_id user_id)
      then (tbl, not_found)
      else if str_eq (tbl.cell r).key_type key_type_proxy
      then (tbl, is_proxy)
      else elim e [ some _ ↦ (tbl, not_found) | none ↦ (tbl', key_reply (tbl'.cell r)) ]
]
