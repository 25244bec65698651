-- ===== src/Api/Identity.antt =====
-- internal/api/handler.go: `resolveSigningPubkey`, which names the account's identity key.
use cloistr_signer.Prelude.{
  ℕ, String, Bool, false, Option, none, some, List, [], ◌∷◌, if◌then◌else◌, str_eq,
}
use cloistr_signer.Storage.Types.{Key, KeyTable, Heap}
use cloistr_signer.Storage.Keys.{list_keys}

-- The first primary key of the range.
unfoldable pub first_primary : Heap Key → List ℕ → Option Key
first_primary cell [] = none
first_primary cell (r ∷ keys) =
    let rest = first_primary cell keys in if (cell r).is_primary then some (cell r) else rest

unfoldable pub last_key : Heap Key → ℕ → List ℕ → Key
last_key cell r [] = cell r
last_key cell r (s ∷ keys) = last_key cell s keys

abbrev pub pubkey_of : Key → Option String
pubkey_of chosen = if str_eq chosen.pubkey "" then none else some chosen.pubkey

abbrev pub choose_pubkey : Heap Key → List ℕ → Option String
choose_pubkey cell [] = none
choose_pubkey cell (r ∷ keys) = elim (first_primary cell (r ∷ keys)) [
  | none ↦ pubkey_of (last_key cell r keys)
  | some chosen ↦ pubkey_of chosen
]

unfoldable pub resolve_signing_pubkey : String → KeyTable → Option String
resolve_signing_pubkey user_id tbl = choose_pubkey tbl.cell (list_keys user_id tbl)

abbrev pub proves : Option String → String → Bool
proves none pubkey = false
proves (some identity) pubkey = str_eq identity pubkey
