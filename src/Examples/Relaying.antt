-- ===== src/Examples/Relaying.antt =====
-- Choices of relays.
use cloistr_signer.Prelude.{true, some, [], ◌∷◌, ◌≡◌, refl}
use cloistr_signer.Relays.{
  RelayLibrary, SelectionInput, is_valid_relay_url, trim_slashes, normalize_relay_url, contains,
  keep_relays, deduplicate_relays, candidate_relays, select_relays, new_selector,
}
use cloistr_signer.Relays.Selection.{IsSelection, select_relays-IsSelection}

-- Every text is the URL of a host.
abbrev any_host : RelayLibrary
any_host = record {
  parse_url = λ url. some (record { scheme = "wss"; host = url });
  relays_for_user = λ _. "wss://b/" ∷ "wss://a" ∷ [];
}

abbrev for_bob : SelectionInput
for_bob = record { key_relays = []; mode = ""; discovery_hint = "bob" }

two_selected :
    select_relays any_host (new_selector true ("wss://b" ∷ "wss://c" ∷ []) 2) for_bob
    ≡ ("wss://b/" ∷ "wss://a" ∷ [])
unfolding select_relays new_selector candidate_relays deduplicate_relays keep_relays contains
    normalize_relay_url is_valid_relay_url trim_slashes
two_selected = refl

all_selected :
    select_relays any_host (new_selector true ("wss://b" ∷ "wss://B" ∷ []) 0) for_bob
    ≡ ("wss://b/" ∷ "wss://a" ∷ "wss://B" ∷ [])
unfolding select_relays new_selector candidate_relays deduplicate_relays keep_relays contains
    normalize_relay_url is_valid_relay_url trim_slashes
all_selected = refl

select_relays-IsSelection_example :
    IsSelection any_host 2
      ("wss://b/" ∷ "wss://a" ∷ "wss://b" ∷ "wss://c" ∷ [])
      (select_relays any_host (new_selector true ("wss://b" ∷ "wss://c" ∷ []) 2) for_bob)
unfolding new_selector candidate_relays
select_relays-IsSelection_example =
    select_relays-IsSelection any_host true ("wss://b" ∷ "wss://c" ∷ []) 2 for_bob
