-- ===== src/Storage/Types.antt =====
-- internal/storage/storage.go: errors, the stored structs and the state of `MemoryStorage`.
-- A pointer that two maps share is an index into a heap (`KeyTable`, `RuleTable`, `TokenTable`,
-- `UserTable`); a struct that one map holds is a value of that map. Times are nanoseconds since Go's
-- zero time, so 0 is the time for which `IsZero` holds; counters are not bounded.
use cloistr_signer.Prelude.{
  ◌≡◌, refl, ◌⊎◌, inl, inr, ℕ, String, Bool, Option, List, if◌then◌else◌, ◌==◌, ==_iff, true,
}
use cloistr_signer.Prelude.Dict.{Dict}

abbrev pub Time : Type 0
Time = ℕ

-- The sentinel errors that the operations modelled here return.
pub data Error : Type 0 where
  key_not_found key_exists not_authorized permission_expired session_not_found : Error
  policy_not_found token_not_found token_expired token_redeemed : Error
  request_not_found request_expired user_not_found user_exists : Error
  bunker_secret_invalid invalid_slot slot_occupied : Error
  setting_not_found consent_not_found challenge_not_found : Error
  lightning_key_not_found lightning_key_exists lightning_challenge_not_found : Error
  frost_key_not_found frost_key_exists frost_pubkey_exists : Error
  frost_share_not_found frost_share_exists frost_index_exists : Error
  frost_user_share_not_found frost_user_share_exists : Error

-- A Go pair `(value, error)`.
pub data Result {ℓ} (A : Type ℓ) : Type ℓ where
  ok : A → Result A
  err : Error → Result A

pub Result-cases {ℓ} :
    {A : Type ℓ} (r : Result A) → ((a : A) × (r ≡ ok a)) ⊎ ((e : Error) × (r ≡ err e))
Result-cases (ok a) = inl (a, refl)
Result-cases (err e) = inr (e, refl)

pub record Key : Type 0 where
  pub id : String
  pub name : String
  pub pubkey : String
  pub key_type : String
  pub encrypted_nsec : String
  pub encryption_method : String
  pub bunker_uri : String
  pub upstream_pubkey : String
  pub require_approval : Bool
  pub disposable_mode : Bool
  pub cover_traffic : Bool
  pub tor_egress : Bool
  pub relays : List String
  pub relay_mode : String
  pub created_at : Time
  pub created_by : String
  pub owner_id : String
  pub is_primary : Bool
  pub single_grant : Bool

pub record Permission : Type 0 where
  pub key_id : String
  pub user_pubkey : String
  pub slot : String
  pub methods : List String
  pub allowed_kinds : List ℕ
  pub expires_at : Option Time
  pub policy_id : String
  pub require_approval : Option Bool
  pub delegate_pubkey : String
  pub app_name : String
  pub app_url : String
  pub app_image : String
  pub custom_name : String
  pub created_at : Time
  pub last_used_at : Option Time
  pub revoked_at : Option Time
  pub revoked_by : String
  pub sliding_expiry : Bool

pub record Session : Type 0 where
  pub id : String
  pub key_id : String
  pub client_pubkey : String
  pub permissions : List String
  pub created_at : Time
  pub expires_at : Time
  pub vault_token : String

-- `rules` holds pointers into the rule table's heap.
pub record Policy : Type 0 where
  pub id : String
  pub name : String
  pub description : String
  pub rules : List ℕ
  pub expires_at : Option Time
  pub created_at : Time
  pub created_by : String

pub record PolicyRule : Type 0 where
  pub id : String
  pub policy_id : String
  pub method : String
  pub allowed_kinds : List ℕ
  pub max_usage : ℕ
  pub current_usage : ℕ

pub record Token : Type 0 where
  pub id : String
  pub policy_id : String
  pub key_id : String
  pub client_name : String
  pub created_by : String
  pub expires_at : Option Time
  pub redeemed_at : Option Time
  pub redeemed_by : String
  pub created_at : Time

-- `params` keeps the one entry that the signer stores, under "0".
pub record PendingRequest : Type 0 where
  pub id : String
  pub key_pubkey : String
  pub client_pubkey : String
  pub method : String
  pub params : Dict String
  pub event_kind : Option ℕ
  pub expires_at : Time
  pub created_at : Time

pub record User : Type 0 where
  pub id : String
  pub username : String
  pub email : String
  pub pubkey : String
  pub role : String
  pub password_hash : String
  pub mfa_secret : String
  pub mfa_enabled : Bool
  pub backup_codes : List String
  pub backup_codes_used : ℕ
  pub failed_login_attempts : ℕ
  pub locked_until : Option Time
  pub last_login_at : Option Time
  pub last_login_ip : String
  pub created_at : Time
  pub updated_at : Time

pub record SessionSeal : Type 0 where
  pub id : String
  pub user_id : String
  pub key_id : String
  pub pubkey : String
  pub session_id : String
  pub mode : String
  pub sliding : Bool
  pub sealed : List ℕ
  pub expires_at : Time
  pub created_at : Time

pub record BunkerSecret : Type 0 where
  pub id : String
  pub key_pubkey : String
  pub secret : String
  pub expires_at : Time
  pub created_at : Time
  pub used_at : Option Time

-- A heap of structs, and a write through a pointer.
abbrev pub Heap {ℓ} : Type ℓ → Type ℓ
Heap A = ℕ → A

abbrev pub update {ℓ} : {A : Type ℓ} → Heap A → ℕ → A → Heap A
update h r a i = if r == i then a else h i

pub update_at {ℓ} : {A : Type ℓ} (h : Heap A) (r : ℕ) (a : A) → update h r a r ≡ a
update_at h r a = let hit : (r == r) ≡ true = (==_iff r r).1 refl in rw hit refl

-- The methods on keys take the caller's pointers. The other tables' heaps are filled from `next`:
-- there a struct is always a new one, a literal of the caller or a copy by `cloneUser`.
pub record KeyTable : Type 0 where
  pub cell : Heap Key
  pub keys : Dict ℕ
  pub keys_by_pubkey : Dict ℕ
  pub keys_by_name : Dict ℕ

pub record PolicyTable : Type 0 where
  pub cell : Heap PolicyRule
  pub next : ℕ
  pub policies : Dict Policy
  pub policy_rules : Dict ℕ

pub record TokenTable : Type 0 where
  pub cell : Heap Token
  pub next : ℕ
  pub tokens : Dict ℕ
  pub tokens_by_key : Dict (Dict ℕ)

pub record UserTable : Type 0 where
  pub cell : Heap User
  pub next : ℕ
  pub users : Dict ℕ
  pub users_by_username : Dict ℕ
  pub users_by_email : Dict ℕ

abbrev pub Grants : Type 0
Grants = Dict (Dict Permission)
