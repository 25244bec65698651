-- ===== src/Storage/Grants/Trace.antt =====
-- Sequences of permission calls on `MemoryStorage`. Each runs under `m.mu`, so any interleaving of
-- the callers is such a sequence. The key table does not change on the way.
use cloistr_signer.Prelude.{ℕ, String, Bool, false, Option, none, some, List, [], ◌∷◌}
use cloistr_signer.Prelude.Dict.{lookup}
use cloistr_signer.Storage.Types.{Time, Permission, KeyTable, Grants}
use cloistr_signer.Storage.Grants.{
  set_permission, delete_permission, update_permission_last_used, renew_permission,
  update_permission_name,
}

pub data GrantCall : Type 0 where
  -- the two readings of the clock, the permission, and whether live grants are displaced
  set : Time → Time → Permission → Bool → GrantCall
  remove : String → String → GrantCall
  note_use : Time → String → String → GrantCall
  renew : Time → String → String → Time → GrantCall
  rename : String → String → String → GrantCall

unfoldable pub step : KeyTable → GrantCall → Grants → Grants
step tbl (set t now perm displace_live) g = (set_permission tbl t now perm displace_live g).0
step tbl (remove k u) g = delete_permission k u g
step tbl (note_use now k u) g = update_permission_last_used now k u g
step tbl (renew now k u expires_at) g = (renew_permission now k u expires_at g).0
step tbl (rename k u custom_name) g = (update_permission_name k u custom_name g).0

unfoldable pub run : KeyTable → List GrantCall → Grants → Grants
run tbl [] g = g
run tbl (c ∷ cs) g = run tbl cs (step tbl c g)

abbrev pub cell_single : KeyTable → Option ℕ → Bool
cell_single tbl none = false
cell_single tbl (some r) = (tbl.cell r).single_grant

-- The key that a grant names is stored as a single-grant key.
abbrev pub is_single : KeyTable → String → Bool
is_single tbl key_id = cell_single tbl (lookup key_id tbl.keys_by_pubkey)
