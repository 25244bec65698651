-- ===== src/Storage/Lightning.antt =====
-- internal/storage/storage.go: Lightning keys and LNURL-auth challenges in `MemoryStorage`. Two maps
-- share a key's struct, always a new one of the caller, so they hold its place in the heap; one map
-- holds the challenges, and callers get copies, so it is a dictionary of values.
pub mod Phases
pub mod Moves
pub mod Calls
pub mod Backed
pub mod Once
use cloistr_signer.Prelude.{
  ℕ, ◌+◌, String, Bool, true, not, ◌&&◌, Option, none, some, List, [], ◌∷◌, map, if◌then◌else◌, ltb,
  str_eq,
}
use cloistr_signer.Prelude.Dict.{Dict, lookup, delete, insert, retain, values}
use cloistr_signer.Storage.Types.{
  Time, Error, lightning_key_not_found, lightning_key_exists, lightning_challenge_not_found, Result,
  ok, err, Heap, update,
}
use cloistr_signer.Storage.Users.{holds}

pub record LightningKey : Type 0 where
  pub id : String
  pub user_id : String
  pub linking_key : String
  pub name : String
  pub created_at : Time
  pub last_used_at : Option Time
  pub confirmed_at : Option Time

pub record LightningTable : Type 0 where
  pub cell : Heap LightningKey
  pub next : ℕ
  pub lightning_keys : Dict ℕ
  pub by_linking_key : Dict ℕ

unfoldable pub create_lightning_key : LightningKey → LightningTable → LightningTable × Option Error
create_lightning_key key tbl =
    if holds (lookup key.linking_key tbl.by_linking_key)
    then (tbl, some lightning_key_exists)
    else (
      record {
        cell = update tbl.cell tbl.next key;
        next = tbl.next + 1;
        lightning_keys = insert key.id tbl.next tbl.lightning_keys;
        by_linking_key = insert key.linking_key tbl.next tbl.by_linking_key;
      },
      none,
    )

unfoldable pub get_lightning_key_by_linking_key : String → LightningTable → Result LightningKey
get_lightning_key_by_linking_key linking_key tbl = elim (lookup linking_key tbl.by_linking_key) [
  | none ↦ err lightning_key_not_found
  | some r ↦ ok (tbl.cell r)
]

unfoldable pub list_lightning_keys : String → LightningTable → List LightningKey
list_lightning_keys user_id tbl =
    map tbl.cell (values (λ _ r. str_eq (tbl.cell r).user_id user_id) tbl.lightning_keys)

-- A write through the pointer of the key with the id.
unfoldable pub write_key :
    String → (LightningKey → LightningKey) → LightningTable → LightningTable × Option Error
write_key id f tbl = elim (lookup id tbl.lightning_keys) [
  | none ↦ (tbl, some lightning_key_not_found)
  | some r ↦ (record tbl { cell = update tbl.cell r (f (tbl.cell r)) }, none)
]

unfoldable pub update_lightning_key_last_used :
    Time → String → LightningTable → LightningTable × Option Error
update_lightning_key_last_used now id tbl =
    write_key id (λ key. record key { last_used_at = some now }) tbl

unfoldable pub delete_lightning_key : String → LightningTable → LightningTable × Option Error
delete_lightning_key id tbl = elim (lookup id tbl.lightning_keys) [
  | none ↦ (tbl, some lightning_key_not_found)
  | some r ↦ (
    record tbl {
      lightning_keys = delete id tbl.lightning_keys;
      by_linking_key = delete (tbl.cell r).linking_key tbl.by_linking_key;
    },
    none,
  )
]

abbrev pub first_time : Time → Option Time → Option Time
first_time now none = some now
first_time now (some t) = some t

unfoldable pub confirm_lightning_key :
    Time → String → LightningTable → LightningTable × Option Error
confirm_lightning_key now id tbl =
    write_key id (λ key. record key { confirmed_at = first_time now key.confirmed_at }) tbl

pub record LightningChallenge : Type 0 where
  pub k1 : String
  pub session_id : String
  pub status : String
  pub user_id : String
  pub bound_user_id : String
  pub is_link : Bool
  pub linking_key : String
  pub expires_at : Time
  pub created_at : Time

abbrev pub Challenges : Type 0
Challenges = Dict LightningChallenge

unfoldable pub default_status : LightningChallenge → LightningChallenge
default_status c = if str_eq c.status "" then record c { status = "pending" } else c

unfoldable pub create_lightning_challenge : LightningChallenge → Challenges → Challenges
create_lightning_challenge c m = insert c.k1 (default_status c) m

-- The first live entry of the range that matches, with its key in the map.
unfoldable pub live_lightning_challenge :
    Time → (LightningChallenge → Bool) → Challenges → Option (String × LightningChallenge)
live_lightning_challenge now match [] = none
live_lightning_challenge now match ((k, c) ∷ m) =
    let rest = live_lightning_challenge now match m in
    if match c && ltb now c.expires_at then some (k, c) else rest

abbrev pub found_challenge : Option (String × LightningChallenge) → Result LightningChallenge
found_challenge none = err lightning_challenge_not_found
found_challenge (some (_, c)) = ok c

unfoldable pub get_lightning_challenge : Time → String → Challenges → Result LightningChallenge
get_lightning_challenge now k1 m =
    found_challenge (live_lightning_challenge now (λ c. str_eq c.k1 k1) m)

unfoldable pub get_lightning_challenge_by_session :
    Time → String → Challenges → Result LightningChallenge
get_lightning_challenge_by_session now session_id m =
    found_challenge (live_lightning_challenge now (λ c. str_eq c.session_id session_id) m)

unfoldable pub authenticate_lightning_challenge :
    Time → String → String → String → Challenges → Challenges × Option Error
authenticate_lightning_challenge now k1 user_id linking_key m =
    elim (live_lightning_challenge now (λ c. str_eq c.k1 k1 && str_eq c.status "pending") m) [
      | none ↦ (m, some lightning_challenge_not_found)
      | some (k, c) ↦ (
        insert k
            (record c { status = "authenticated"; user_id = user_id; linking_key = linking_key }) m,
        none,
      )
    ]

unfoldable pub consume_lightning_challenge : Time → String → Challenges → Challenges × Result String
consume_lightning_challenge now session_id m =
    elim (live_lightning_challenge now
      (λ c. str_eq c.session_id session_id && str_eq c.status "authenticated") m) [
        | none ↦ (m, err lightning_challenge_not_found)
        | some (k, c) ↦ (delete c.k1 m, ok c.user_id)
      ]

unfoldable pub clean_expired_lightning_challenges : Time → Challenges → Challenges
clean_expired_lightning_challenges now m = retain (λ _ c. ltb now c.expires_at) m
