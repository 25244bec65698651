-- ===== src/Relays.antt =====
-- internal/discovery/selector.go: the choice of a key's relays, and `isValidRelayURL` of
-- internal/discovery/discovery.go. The URL parser and the discovery service are parameters.
pub mod Selection
use cloistr_signer.Prelude.{
  ℕ, ◌+◌, String, Bool, true, false, not, ◌&&◌, ◌||◌, Option, none, some, List, [], ◌∷◌, ◌++◌,
  if◌then◌else◌, leb, ltb, ◌==◌, str_eq,
}
use Prim.Native.Char.{code}
use Prim.Native.String.{[] as nil, ◌∷◌ as ◌◂◌}

-- What `net/url` makes of a text.
pub record RelayUrl : Type 0 where
  pub scheme : String
  pub host : String

-- `relays_for_user` is what the discovery service answers for a pubkey.
pub record RelayLibrary : Type 0 where
  pub parse_url : String → Option RelayUrl
  pub relays_for_user : String → List String

-- `discovering` says whether there is a discovery client and it is enabled.
pub record Selector : Type 0 where
  pub discovering : Bool
  pub fallback_relays : List String
  pub max_relays : ℕ

pub record SelectionInput : Type 0 where
  pub key_relays : List String
  pub mode : String
  pub discovery_hint : String

unfoldable pub new_selector : Bool → List String → ℕ → Selector
new_selector discovering fallback_relays max_relays = record {
  discovering = discovering;
  fallback_relays = fallback_relays;
  max_relays = if max_relays == 0 then 5 else max_relays;
}

unfoldable pub is_valid_relay_url : RelayLibrary → String → Bool
is_valid_relay_url lib url = if str_eq url "" then false else elim (lib.parse_url url) [
  | none ↦ false
  | some u ↦
      if not (str_eq u.scheme "ws") && not (str_eq u.scheme "wss")
      then false
      else not (str_eq u.host "")
]

-- Without the slashes at the end.
unfoldable pub trim_slashes : String → String
trim_slashes nil = nil
trim_slashes (c ◂ s) =
    let rest = trim_slashes s in if str_eq rest "" && code c == 47 then nil else c ◂ rest

unfoldable pub normalize_relay_url : RelayLibrary → String → String
normalize_relay_url lib url = if not (is_valid_relay_url lib url) then "" else trim_slashes url

unfoldable pub contains : String → List String → Bool
contains s [] = false
contains s (t ∷ ts) = str_eq t s || contains s ts

-- The loop of `deduplicateRelays`: the relays that it appends after `taken` of them, where the keys of the
-- map `seen` are listed.
unfoldable pub keep_relays : RelayLibrary → ℕ → ℕ → List String → List String → List String
keep_relays lib max taken seen [] = []
keep_relays lib max taken seen (relay ∷ relays) =
    let normalized = normalize_relay_url lib relay in
    let skipped = keep_relays lib max taken seen relays in
    let kept = keep_relays lib max (taken + 1) (normalized ∷ seen) relays in
    if str_eq normalized ""
    then skipped
    else if contains normalized seen
    then skipped
    else if leb max (taken + 1)
    then relay ∷ []
    else relay ∷ kept

unfoldable pub deduplicate_relays : RelayLibrary → ℕ → List String → List String
deduplicate_relays lib max relays = keep_relays lib max 0 [] relays

abbrev is_empty : List String → Bool
is_empty [] = true
is_empty (_ ∷ _) = false

-- What `SelectRelays` deduplicates: the key's own relays, or the discovered and the fallback ones.
unfoldable pub candidate_relays : RelayLibrary → Selector → SelectionInput → List String
candidate_relays lib selector input =
    let mode : String = if str_eq input.mode "" then "auto" else input.mode in
    if not (str_eq mode "discovery") && not (is_empty input.key_relays)
    then input.key_relays
    else (if not (str_eq mode "manual")
          && selector.discovering
          && not (str_eq input.discovery_hint "")
        then lib.relays_for_user input.discovery_hint
        else [])
      ++ selector.fallback_relays

unfoldable pub select_relays : RelayLibrary → Selector → SelectionInput → List String
select_relays lib selector input =
    deduplicate_relays lib selector.max_relays (candidate_relays lib selector input)
