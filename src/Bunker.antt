-- ===== src/Bunker.antt =====
-- internal/bunker/bunker.go: `bunker://` URIs, read with the URL parser and the hex decoder of the Go
-- library, which are parameters.
use Prim.Native.String.{len}
use cloistr_signer.Prelude.{
  String, Bool, Option, none, some, List, [], ◌∷◌, if◌then◌else◌, not, ◌==◌,
}
use text.Mathlib.Text.{starts_with}

pub record Uri : Type 0 where
  pub signer_pubkey : String
  pub relays : List String
  pub secret : String

-- What `net/url` makes of a text: its host, and the values of each key of its query.
pub record Url : Type 0 where
  pub host : String
  pub query : String → List String

pub record UrlLibrary : Type 0 where
  pub parse_url : String → Option Url
  pub is_hex : String → Bool

-- `url.Values.Get`: the first value of the key, or the empty text.
unfoldable pub first_value : List String → String
first_value [] = ""
first_value (v ∷ vs) = v

unfoldable pub parse : UrlLibrary → String → Option Uri
parse lib text = if not (starts_with text "bunker://") then none else elim (lib.parse_url text) [
  | none ↦ none
  | some url ↦
      if not (len url.host == 64)
      then none
      else if not (lib.is_hex url.host)
      then none
      else some (record {
        signer_pubkey = url.host;
        relays = url.query "relay";
        secret = first_value (url.query "secret");
      })
]
