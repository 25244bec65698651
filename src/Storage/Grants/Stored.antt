-- ===== src/Storage/Grants/Stored.antt =====
-- What a successful `setPermission` stores, displaces and leaves alone.
use cloistr_signer.Prelude.{
  ℕ, ◌+◌, ==_iff, String, Bool, true, false, none, some, ◌≡◌, refl, ◌∙◌, ap, arith, eq_iff, eq_refl,
  Bool-cases, Option-cases, inl, inr, ◌≢◌, not, ◌&&◌,
}
use cloistr_signer.Prelude.Dict.{any_entry, map_option, lookup}
use cloistr_signer.Storage.Types.{Time, Permission, Key, KeyTable, Grants}
use cloistr_signer.Storage.Grants.{
  grants_of, set_permission, store_grant, displace, occupies, default_slot, stamp_created,
  default_sliding_expiry, validate_slot, slot_default, sliding_grant_ttl,
}
use cloistr_signer.Storage.Grants.View.{grant, grant-store_grant_user, grant-store_grant_single}
use cloistr_signer.Storage.Grants.Slots.{slot_of, stamp_created_kept, default_slot_kept}
use cloistr_signer.Storage.Grants.Trace.{is_single}

-- The caller's permission `q` as it is stored at `t`: every field is the caller's but the expiry, an
-- empty slot, which is the default one, and a missing time of creation, which is `t`.
abbrev pub SameTerms : Time → Permission → Permission → Type 0
SameTerms t p q =
    (p ≡ record q {
      slot = p.slot;
      created_at = p.created_at;
      expires_at = p.expires_at;
      sliding_expiry = p.sliding_expiry;
    })
    × (q.slot ≡ "" → p.slot ≡ slot_default)
    × (q.slot ≢ "" → p.slot ≡ q.slot)
    × (q.created_at ≡ 0 → p.created_at ≡ t)
    × (q.created_at ≢ 0 → p.created_at ≡ q.created_at)

abbrev pub SameExpiry : Permission → Permission → Type 0
SameExpiry p q = (p.expires_at ≡ q.expires_at) × (p.sliding_expiry ≡ q.sliding_expiry)

-- The expiry is the caller's; if there is none, a grant on a user key gets a sliding one.
abbrev pub ExpiryTerms : Bool → Time → Permission → Permission → Type 0
ExpiryTerms one now p q =
    (one ≡ true → SameExpiry p q)
    × (q.expires_at ≢ none → SameExpiry p q)
    × (one ≡ false
        → q.expires_at ≡ none
        → (p.expires_at ≡ some (now + sliding_grant_ttl)) × (p.sliding_expiry ≡ true))

abbrev pub HasExpiry : Permission → Type 0
HasExpiry p = (x : Time) × (p.expires_at ≡ some x)

default_sliding_expiry-HasExpiry :
    (p : Permission) (now : Time) → HasExpiry (default_sliding_expiry p now)
unfolding default_sliding_expiry
default_sliding_expiry-HasExpiry p now = elim (Option-cases p.expires_at) [
  | inl e ↦ rw e (_, refl)
  | inr (x, e) ↦ (x, ground (arith, e))
]

stored_terms :
    (t now : Time) (p : Permission)
    → SameTerms t (stamp_created t (default_slot p)) p
      × SameTerms t (default_sliding_expiry (stamp_created t (default_slot p)) now) p
unfolding stamp_created default_slot default_sliding_expiry
stored_terms t now p = ground (arith, eq_iff p.slot "", ==_iff p.created_at 0)

stored_expiry_single :
    (one : Bool) (t now : Time) (p : Permission)
    → one ≡ true
    → ExpiryTerms one now (stamp_created t (default_slot p)) p
unfolding stamp_created default_slot
stored_expiry_single one t now p is = (
  λ _. (ground (arith), ground (arith)),
  λ _. (ground (arith), ground (arith)),
  λ many _. absurd (cc),
)

stored_expiry_user :
    (one : Bool) (t now : Time) (p : Permission)
    → one ≡ false
    → ExpiryTerms one now (default_sliding_expiry (stamp_created t (default_slot p)) now) p
unfolding stamp_created default_slot default_sliding_expiry
stored_expiry_user one t now p is = (
  λ single. absurd (cc),
  λ given. (ground (arith), ground (arith)),
  λ _ missing. (ground (arith, missing), ground (arith, missing)),
)

-- The outcome of a store that succeeds, at every client of every key.
record Stores (key : Key) (now : Time) (x : Permission) (live : Bool) (g : Grants) (k u : String)
    : Type 0 where
  own : grant (store_grant key now x live g).0 k u ≡ some (store_grant key now x live g).1
  user : key.single_grant ≡ false → (store_grant key now x live g).1 ≡ default_sliding_expiry x now
  single : key.single_grant ≡ true → (store_grant key now x live g).1 ≡ x
  elsewhere : (j v : String) → j ≢ k → grant (store_grant key now x live g).0 j v ≡ grant g j v
  beside :
      (v : String)
      → v ≢ u
      → key.single_grant ≡ false
      → grant (store_grant key now x live g).0 k v ≡ grant g k v
  displaced :
      (v : String)
      → v ≢ u
      → key.single_grant ≡ true
      → grant (store_grant key now x live g).0 k v ≡ map_option (displace x now v) (grant g k v)

module _ (key : Key) (now : Time) (x : Permission) (live : Bool) (g : Grants) where
  store_grant_user_value :
      key.single_grant ≡ false → (store_grant key now x live g).1 ≡ default_sliding_expiry x now
  unfolding store_grant
  store_grant_user_value many = rw many

  store_grant_single_value : key.single_grant ≡ true → (store_grant key now x live g).1 ≡ x
  unfolding store_grant
  store_grant_single_value one = ground (arith, one)

  store_grant_free :
      key.single_grant ≡ true
      → (store_grant key now x live g).2 ≡ none
      → (not live && any_entry (occupies x now) (grants_of x.key_id g)) ≡ false
  unfolding store_grant
  store_grant_free one done = ground (arith, one)

  store_grant-Stores_user :
      key.single_grant ≡ false → Stores key now x live g x.key_id x.user_pubkey
  store_grant-Stores_user many =
      let law = λ (j v : String). grant-store_grant_user key now x live g j v many in
      record {
        own =
            rw (store_grant_user_value many)
              (ground (arith, law x.key_id x.user_pubkey, eq_refl x.key_id, eq_refl x.user_pubkey));
        user = λ e. store_grant_user_value many;
        single = λ e. absurd (cc);
        elsewhere = λ j v ne. ground (arith, law j v, eq_iff x.key_id j);
        beside = λ v ne e. ground (arith, law x.key_id v, eq_refl x.key_id, eq_iff x.user_pubkey v);
        displaced = λ v ne e. absurd (cc);
      }

  store_grant-Stores_single :
      key.single_grant ≡ true
      → (store_grant key now x live g).2 ≡ none
      → Stores key now x live g x.key_id x.user_pubkey
  store_grant-Stores_single one done =
      let free = store_grant_free one done in
      let law = λ (j v : String). grant-store_grant_single key now x live g j v one free in
      record {
        own =
            rw (store_grant_single_value one)
              (ground (arith, law x.key_id x.user_pubkey, eq_refl x.key_id, eq_refl x.user_pubkey));
        user = λ e. absurd (cc);
        single = λ e. store_grant_single_value one;
        elsewhere = λ j v ne. ground (arith, law j v, eq_iff x.key_id j);
        beside = λ v ne e. absurd (cc);
        displaced =
            λ v ne e. ground (arith, law x.key_id v, eq_refl x.key_id, eq_iff x.user_pubkey v);
      }

store_grant-Stores :
    (key : Key) (now : Time) (x : Permission) (live : Bool) (g : Grants) (k u : String)
    → x.key_id ≡ k
    → x.user_pubkey ≡ u
    → (store_grant key now x live g).2 ≡ none
    → Stores key now x live g k u
store_grant-Stores key now x live g k u ek eu done =
    rw (← ek, ← eu)
      (elim (Bool-cases key.single_grant) [
        | inr many ↦ store_grant-Stores_user key now x live g many
        | inl one ↦ store_grant-Stores_single key now x live g one done
      ])

-- What a displaced client finds: its grant revoked at `now` by the new holder.
abbrev pub revoked_copy : Permission → Time → String → Permission
revoked_copy q now u = record q { revoked_at = some now; revoked_by = u }

-- The grants after a `setPermission` of `perm` at `t` and `now`, from `g` to `h`, on a key that is
-- single-grant or not.
pub record IsStored (one : Bool) (t now : Time) (perm stored : Permission) (g h : Grants)
    : Type 0 where
  -- the client holds the permission as it was stored, on the caller's terms
  pub own : grant h perm.key_id perm.user_pubkey ≡ some stored
  pub terms : SameTerms t stored perm
  pub expiry : ExpiryTerms one now stored perm
  -- a grant on a user key expires
  pub expires : one ≡ false → HasExpiry stored
  -- other keys, and other clients of a user key, keep theirs
  pub elsewhere : (j v : String) → j ≢ perm.key_id → grant h j v ≡ grant g j v
  pub beside :
      (v : String)
      → v ≢ perm.user_pubkey
      → one ≡ false
      → grant h perm.key_id v ≡ grant g perm.key_id v
  -- on a single-grant key an unrevoked grant of another client in the slot is revoked
  pub displaced :
      (v : String) (q : Permission)
      → v ≢ perm.user_pubkey
      → one ≡ true
      → grant g perm.key_id v ≡ some q
      → q.revoked_at ≡ none
      → q.slot ≡ slot_of perm
      → grant h perm.key_id v ≡ some (revoked_copy q now perm.user_pubkey)
  -- one that was revoked before, or is in another slot, stays as it is, and no other client gets one
  pub revoked_before :
      (v : String) (q : Permission)
      → v ≢ perm.user_pubkey
      → one ≡ true
      → grant g perm.key_id v ≡ some q
      → q.revoked_at ≢ none
      → grant h perm.key_id v ≡ some q
  pub none_new :
      (v : String)
      → v ≢ perm.user_pubkey
      → one ≡ true
      → grant g perm.key_id v ≡ none
      → grant h perm.key_id v ≡ none
  pub other_slot :
      (v : String) (q : Permission)
      → v ≢ perm.user_pubkey
      → one ≡ true
      → grant g perm.key_id v ≡ some q
      → q.slot ≢ slot_of perm
      → grant h perm.key_id v ≡ some q

displace_hit :
    (x q : Permission) (now : Time) (v u s : String)
    → x.user_pubkey ≡ u
    → x.slot ≡ s
    → v ≢ u
    → q.revoked_at ≡ none
    → q.slot ≡ s
    → displace x now v q ≡ revoked_copy q now u
unfolding displace
displace_hit x q now v u s eu es ne r e =
    ground (arith, eq_iff v x.user_pubkey, eq_iff q.slot x.slot)

displace_miss :
    (x q : Permission) (now : Time) (v s : String)
    → x.slot ≡ s
    → q.slot ≢ s
    → displace x now v q ≡ q
unfolding displace
displace_miss x q now v s es ne = ground (arith, eq_iff q.slot x.slot)

displace_revoked :
    (x q : Permission) (now : Time) (v : String) → q.revoked_at ≢ none → displace x now v q ≡ q
unfolding displace
displace_revoked x q now v was = ground (arith)

set_permission_done :
    (tbl : KeyTable) (t now : Time) (perm : Permission) (live : Bool) (g : Grants)
    → (set_permission tbl t now perm live g).2 ≡ none
    → (r : ℕ) × (lookup perm.key_id tbl.keys_by_pubkey ≡ some r)
      × (set_permission tbl t now perm live g
          ≡ store_grant (tbl.cell r) now (stamp_created t (default_slot perm)) live g)
unfolding set_permission
set_permission_done tbl t now perm live g done =
    elim (Option-cases (lookup perm.key_id tbl.keys_by_pubkey)) [
      | inl absent ↦ absurd (let d = done in ground (arith, absent))
      | inr (r, found) ↦ elim (Option-cases (validate_slot (slot_of perm))) [
        | inl valid ↦ (r, found, rw (found, valid, set_permission))
        | inr (e, bad) ↦ absurd (let d = done in ground (arith, found, bad))
      ]
    ]

-- `setPermission`, when it reports no error, stores the client's grant with all that the caller set; an
-- empty slot becomes the default one, a missing time of creation the current one, and a missing expiry
-- of a grant on a user key a sliding one. It revokes the unrevoked grants of other clients in the slot
-- of a single-grant key; other keys, other slots, grants revoked before and the other grants on a user
-- key stay as they were.
pub set_permission-IsStored :
    (tbl : KeyTable) (t now : Time) (perm : Permission) (live : Bool) (g : Grants)
    → (set_permission tbl t now perm live g).2 ≡ none
    → IsStored
        (is_single tbl perm.key_id)
        t
        now
        perm
        (set_permission tbl t now perm live g).1
        g
        (set_permission tbl t now perm live g).0
set_permission-IsStored tbl t now perm live g done =
    let x = stamp_created t (default_slot perm) in
    let kept = stamp_created_kept t (default_slot perm) in
    let same = default_slot_kept perm in
    let ek = kept.1 ∙ same.0 in
    let eu = kept.2 ∙ same.1 in
    let (r, found, stored) = set_permission_done tbl t now perm live g done in
    let law =
      store_grant-Stores (tbl.cell r) now x live g perm.key_id perm.user_pubkey ek eu
        (let d = done in rw stored at d) in
    rw (stored, found)
      (record {
        own = law.own;
        terms = elim (Bool-cases (tbl.cell r).single_grant) [
          | inr many ↦ rw (law.user many) (stored_terms t now perm).1
          | inl one ↦ rw (law.single one) (stored_terms t now perm).0
        ];
        expiry = elim (Bool-cases (tbl.cell r).single_grant) [
          | inr many ↦ rw (law.user many) (stored_expiry_user _ t now perm many)
          | inl one ↦ rw (law.single one) (stored_expiry_single _ t now perm one)
        ];
        expires = λ many. rw (law.user many) (default_sliding_expiry-HasExpiry x now);
        elsewhere = law.elsewhere;
        beside = law.beside;
        displaced = λ v q ne one had r' s'.
            law.displaced v ne one
            ∙ rw had (
                ap some
                  (displace_hit x q now v perm.user_pubkey (slot_of perm) eu kept.0 ne r' s'));
        revoked_before = λ v q ne one had was.
            law.displaced v ne one ∙ rw had (ap some (displace_revoked x q now v was));
        none_new = λ v ne one had. law.displaced v ne one ∙ rw had refl;
        other_slot = λ v q ne one had s'.
            law.displaced v ne one
            ∙ rw had (ap some (displace_miss x q now v (slot_of perm) kept.0 s'));
      })
