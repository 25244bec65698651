-- ===== src/Examples/Owning.antt =====
-- Keys in storage and their owner's requests on them.
use cloistr_signer.Prelude.{
  String, true, none, some, List, [], ◌∷◌, ◌≡◌, ◌≢◌, refl, arith, eq_iff, ℕ,
}
use cloistr_signer.Prelude.Dict.{lookup}
use cloistr_signer.Prelude.Distinct.{IsDistinct}
use cloistr_signer.Storage.Types.{ok}
use cloistr_signer.Storage.Seals.{Seals}
use cloistr_signer.Storage.Grants.{get_permission}
use cloistr_signer.Storage.Keys.{get_key, get_key_by_name, delete_key, set_primary_key}
use cloistr_signer.Storage.Keys.Primary.{IsKeyed}
use cloistr_signer.Storage.Keys.Removed.{delete_key-get_permission}
use cloistr_signer.Storage.Keys.Indexed.{IsIndexed}
use cloistr_signer.Storage.Keys.Indexed.Calls.{KeyCall, change, promote, encrypt, run}
use cloistr_signer.Storage.Keys.Indexed.Single.{IsFlagged, AllKeep, run-IsFlagged}
use cloistr_signer.Api.Identity.{resolve_signing_pubkey}
use cloistr_signer.Api.Keys.{UpdateKeyRequest, handle_update_key}
use cloistr_signer.Api.Keys.Named.{handle_update_key-get_key_by_name}
use cloistr_signer.Api.Keys.Identity.{set_primary_key-resolve_signing_pubkey}
use cloistr_signer.Examples.{table, a_grant, one_grant}

table_keys : (id : String) (r : ℕ) → lookup id (table true).keys ≡ some r → "id1" ≡ id
unfolding lookup
table_keys id r found = ground (arith, eq_iff "id1" id)

table-IsKeyed : IsKeyed (table true)
table-IsKeyed id r found = table_keys id r found

table-IsIndexed : IsIndexed (table true)
unfolding lookup
table-IsIndexed = record {
  keyed = table-IsKeyed;
  sound = λ p r found. (ground (arith, eq_iff "k1" p), ground (arith, eq_iff "k1" p));
  complete = λ id r found. ground (arith, eq_iff "id1" id);
}

abbrev no_seals : Seals
no_seals = []

abbrev an_id : String
an_id = "id1"

abbrev a_pubkey : String
a_pubkey = "k1"

id_not_pubkey : an_id ≢ a_pubkey
id_not_pubkey e = cc

delete_key-get_permission_example :
    get_permission 7 "k1" "alice"
      (delete_key "id1" (table true) (one_grant (a_grant "alice")) no_seals).1
    ≡ get_permission 7 "k1" "alice" (one_grant (a_grant "alice"))
delete_key-get_permission_example =
    delete_key-get_permission "id1" (table true) (one_grant (a_grant "alice")) no_seals 7 "k1"
      "alice" id_not_pubkey

abbrev key_calls : List KeyCall
key_calls = change 0 ∷ encrypt "id1" "sealed" "vault" ∷ promote "" "id1" ∷ []

key_calls_keep : AllKeep "id1" key_calls (table true)
key_calls_keep = (refl, λ at e. refl, (refl, tt, (refl, tt, tt)))

table-IsFlagged : IsFlagged "k1" "id1" true (table true)
unfolding lookup
table-IsFlagged = record { place = 0; found = refl; has_id = refl; has_flag = refl }

run-IsFlagged_example : IsFlagged "k1" "id1" true (run key_calls (table true))
run-IsFlagged_example =
    run-IsFlagged "k1" "id1" true key_calls (table true) key_calls_keep table-IsIndexed
      table-IsFlagged

abbrev a_rename : UpdateKeyRequest
a_rename = record {
  name = some "work";
  require_approval = none;
  disposable_mode = none;
  cover_traffic = none;
  tor_egress = none;
  relays = none;
}

handle_update_key-get_key_by_name_example :
    get_key_by_name "work" (handle_update_key "" "id1" a_rename (table true)).0
    ≡ get_key_by_name "work" (table true)
handle_update_key-get_key_by_name_example =
    handle_update_key-get_key_by_name "" "id1" a_rename (table true) "work" table-IsKeyed

table-IsDistinct : IsDistinct (table true).keys
unfolding lookup
table-IsDistinct = (refl, tt)

key_found : get_key "id1" (table true) ≡ ok 0
unfolding get_key lookup
key_found = refl

promoted : (set_primary_key "" "id1" (table true)).1 ≡ none
unfolding set_primary_key lookup
promoted = refl

pubkey_not_empty : a_pubkey ≢ ""
pubkey_not_empty e = cc

set_primary_key-resolve_signing_pubkey_example :
    resolve_signing_pubkey "" (set_primary_key "" "id1" (table true)).0 ≡ some a_pubkey
set_primary_key-resolve_signing_pubkey_example =
    set_primary_key-resolve_signing_pubkey "" "id1" (table true) 0 table-IsKeyed table-IsDistinct
      key_found pubkey_not_empty promoted
