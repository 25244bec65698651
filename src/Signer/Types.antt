-- ===== src/Signer/Types.antt =====
-- internal/signer/signer.go: requests, events, the signer's state, and what it calls that is not
-- modelled here: JSON, the nostr library's signatures and ciphers, FROST signing and the connection
-- to an upstream signer.
use cloistr_signer.Prelude.{ℕ, String, Bool, Option, List, ◌≡◌, refl, ◌⊎◌, inl, inr}
use cloistr_signer.Prelude.Dict.{Dict}
use cloistr_signer.Storage.Types.{KeyTable, Grants, PolicyTable, Session}
use cloistr_signer.Storage.Secrets.{Secrets}
use cloistr_signer.Bunker.{UrlLibrary}

pub record Request : Type 0 where
  pub id : String
  pub method : String
  pub params : List String

-- A nostr event, and a kind as a natural number.
pub record Event : Type 0 where
  pub id : String
  pub pubkey : String
  pub created_at : ℕ
  pub kind : ℕ
  pub tags : List (List String)
  pub content : String
  pub sig : String

-- `none` is a returned error. The private key, or the secret made from it, comes before the text.
pub record Library : Type 0 where
  pub url : UrlLibrary
  pub parse_event : String → Option Event
  pub sign : String → Event → Option Event
  pub marshal_event : Event → Option String
  pub marshal_batch : List String → Option String
  -- peer and private key to a shared secret (NIP-04) or a conversation key (NIP-44)
  pub shared_secret : String → String → Option String
  pub nip04_encrypt : String → String → Option String
  pub nip04_decrypt : String → String → Option String
  pub conversation_key : String → String → Option String
  pub nip44_encrypt : String → String → Option String
  pub nip44_decrypt : String → String → Option String
  -- `handleECDHTag` past its parameter count: private key, peer, window
  pub ecdh_tag : String → String → String → Option String
  -- the relay list of `handleGetRelays`
  pub connected_relays : Option String
  -- the FROST ceremonies: with the user's browser for a key, and by the coordinator
  pub frost_user_sign : String → String → Event → Option String
  pub frost_sign : String → String → Event → Option String
  -- connection to the upstream of a bunker URI by the private key and the pubkey of the proxy key: a
  -- request, and `get_public_key`
  pub upstream_request : String → String → String → String → List String → Option String
  pub upstream_pubkey : String → String → String → Option String
  -- `lookupVaultTokenForKey`
  pub vault_token_for : String → String

pub data HandleError : Type 0 where
  usage_limit_exceeded missing_parameter invalid_event disposable_refusal : HandleError
  signing_failed marshal_failed cipher_failed relays_failed : HandleError
  bad_bunker_uri upstream_failed no_frost_coordinator not_supported : HandleError
  unknown_method disposable_nip04 : HandleError
  kind_not_allowed : ℕ → HandleError

pub data Outcome {ℓ} (A : Type ℓ) : Type ℓ where
  done : A → Outcome A
  fail : HandleError → Outcome A

pub Outcome-cases {ℓ} :
    {A : Type ℓ} (x : Outcome A) → ((e : HandleError) × (x ≡ fail e)) ⊎ ((a : A) × (x ≡ done a))
Outcome-cases (done a) = inr (a, refl)
Outcome-cases (fail e) = inl (e, refl)

-- `ok a >>= f` of Go's `if err != nil { return "", err }`.
infixl 5 ◌>>=◌
abbrev pub ◌>>=◌ {ℓ κ} : {A : Type ℓ} {B : Type κ} → Outcome A → (A → Outcome B) → Outcome B
done a >>= f = f a
fail e >>= f = fail e

abbrev pub or_fail {ℓ} : {A : Type ℓ} → HandleError → Option A → Outcome A
or_fail e Option.none = fail e
or_fail e (Option.some a) = done a

-- The errors that a client is sent.
pub data Refusal : Type 0 where
  method_not_allowed grant_expired unauthorized : Refusal
  authorization_timeout request_denied : Refusal
  failed : HandleError → Refusal

pub data Reply : Type 0 where
  result : String → Reply
  error : Refusal → Reply

-- The fields of `Signer`, its configuration and its storage that a request reads or writes.
pub record Signer : Type 0 where
  pub keys : Dict String
  pub proxy_keys : Dict String
  pub frost_keys : Dict String
  pub has_frost_coordinator : Bool
  pub require_approval : Bool
  pub key_table : KeyTable
  pub grants : Grants
  pub policies : PolicyTable
  pub secrets : Secrets
  pub sessions : Dict Session
