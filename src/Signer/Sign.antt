-- ===== src/Signer/Sign.antt =====
-- internal/signer/signer.go: `handleSignEvent` and `handleBatchSign`. Delays and logs are left out.
pub mod Sound
use cloistr_signer.Prelude.{
  ℕ, String, Bool, true, false, ◌||◌, ◌&&◌, not, Option, none, some, List, [], ◌∷◌, if◌then◌else◌,
  ◌==◌, str_eq,
}
use cloistr_signer.Prelude.Dict.{lookup}
use cloistr_signer.Storage.Types.{Permission, KeyTable}
use cloistr_signer.Signer.Types.{
  Event, Library, Outcome, done, fail, ◌>>=◌, or_fail, missing_parameter, invalid_event,
  kind_not_allowed, disposable_refusal, signing_failed, marshal_failed,
}

abbrev pub key_type_frost_user : String
key_type_frost_user = "frost-user"

unfoldable pub contains_kind : ℕ → List ℕ → Bool
contains_kind kind [] = false
contains_kind kind (k ∷ ks) = k == kind || contains_kind kind ks

abbrev is_empty {ℓ} : {A : Type ℓ} → List A → Bool
is_empty [] = true
is_empty (_ ∷ _) = false

-- The test of `perm.AllowedKinds`: no kinds listed means all.
unfoldable pub kind_allowed : Permission → ℕ → Bool
unfolding contains_kind
kind_allowed perm kind = is_empty perm.allowed_kinds || contains_kind kind perm.allowed_kinds

-- The keys of `disposableKindRefusal`.
unfoldable pub disposable_blocked : ℕ → Bool
disposable_blocked kind = kind == 0 || kind == 3 || kind == 10002 || kind == 4

unfoldable pub key_is_disposable : KeyTable → String → Bool
key_is_disposable tbl target = elim (lookup target tbl.keys_by_pubkey) [
  | none ↦ false
  | some r ↦ (tbl.cell r).disposable_mode
]

unfoldable pub is_frost_user : KeyTable → String → Bool
is_frost_user tbl target = elim (lookup target tbl.keys_by_pubkey) [
  | none ↦ false
  | some r ↦ str_eq (tbl.cell r).key_type key_type_frost_user
]

abbrev pub is_client_tag : List String → Bool
is_client_tag [] = false
is_client_tag (name ∷ _) = str_eq name "client"

unfoldable pub strip_fingerprint_tags : List (List String) → List (List String)
strip_fingerprint_tags [] = []
strip_fingerprint_tags (tag ∷ tags) =
    let rest = strip_fingerprint_tags tags in if is_client_tag tag then rest else tag ∷ rest

-- What is left of the event once the checks on its kind and key are passed.
unfoldable pub screen_event : Permission → Bool → Event → Outcome Event
screen_event perm disposable event =
    if not (kind_allowed perm event.kind)
    then fail (kind_not_allowed event.kind)
    else if not disposable
    then done event
    else if disposable_blocked event.kind
    then fail disposable_refusal
    else done (record event { tags = strip_fingerprint_tags event.tags })

module _ (lib : Library) where
  -- `event.PubKey = targetPubkey`, `event.Sign`, `json.Marshal`.
  unfoldable pub sign_as : String → String → Event → Outcome String
  sign_as target priv event = do
    signed ← or_fail signing_failed (lib.sign priv (record event { pubkey = target }))
    or_fail marshal_failed (lib.marshal_event signed)

  unfoldable pub handle_sign_event :
      KeyTable → String → String → String → List String → Permission → Outcome String
  handle_sign_event tbl target priv client [] perm = fail missing_parameter
  handle_sign_event tbl target priv client (param ∷ _) perm = do
    event ← or_fail invalid_event (lib.parse_event param)
    screened ← screen_event perm (key_is_disposable tbl target) event
    if is_frost_user tbl target
        then or_fail signing_failed (lib.frost_user_sign target client screened)
        else sign_as target priv screened

  -- The loop of `handleBatchSign`.
  unfoldable pub sign_each :
      KeyTable → String → String → Permission → List String → Outcome (List String)
  sign_each tbl target priv perm [] = done []
  sign_each tbl target priv perm (param ∷ params) = do
    event ← or_fail invalid_event (lib.parse_event param)
    screened ← screen_event perm (key_is_disposable tbl target) event
    signed ← sign_as target priv screened
    rest ← sign_each tbl target priv perm params
    done (signed ∷ rest)

  unfoldable pub handle_batch_sign :
      KeyTable → String → String → List String → Permission → Outcome String
  handle_batch_sign tbl target priv [] perm = fail missing_parameter
  handle_batch_sign tbl target priv (p ∷ ps) perm = do
    signed ← sign_each tbl target priv perm (p ∷ ps)
    or_fail marshal_failed (lib.marshal_batch signed)
