-- ===== src/Storage/Secrets/Once.antt =====
-- A bunker secret opens one connection, to the key that it was made for, before it expires.
use cloistr_signer.Prelude.{
  String, Bool, true, false, Option, none, some, List, [], ◌∷◌, ◌≡◌, sym, ◌∙◌, arith, eq_iff,
  Option-cases, inl, inr, ◌↔◌, str_eq, ltb, ◌≤◌, not, ap,
}
use cloistr_signer.Prelude.Dict.{
  lookup, lookup-insert, lookup-insert_self, lookup-delete, lookup-retain,
}
use cloistr_signer.Storage.Types.{Time, bunker_secret_invalid, ok, err, BunkerSecret}
use cloistr_signer.Storage.Secrets.{
  Secrets, create_bunker_secret, validate_found, validate_bunker_secret, delete_bunker_secret,
  clean_expired_bunker_secrets,
}

-- No unused secret stands under the text.
abbrev pub used_up : Option BunkerSecret → Bool
used_up none = true
used_up (some bs) = elim bs.used_at [ none ↦ false | some _ ↦ true ]

-- What `ValidateBunkerSecret` accepts: a stored secret for the key, unused, not past its expiry.
pub record IsOpen (now : Time) (key_pubkey secret : String) (m : Secrets) (bs : BunkerSecret)
    : Type 0 where
  pub stored : lookup secret m ≡ some bs
  pub for_key : bs.key_pubkey ≡ key_pubkey
  pub in_time : now ≤ bs.expires_at
  pub unused : bs.used_at ≡ none

IsOpen-accepted :
    (now t : Time) (k secret : String) (m : Secrets) (bs : BunkerSecret)
    → IsOpen now k secret m bs
    → (validate_bunker_secret now t k secret m).1 ≡ ok (record bs { used_at = some t })
unfolding validate_bunker_secret validate_found
IsOpen-accepted now t k secret m bs o =
    rw (o.stored, validate_bunker_secret)
      (ground (arith, eq_iff bs.key_pubkey k, o.for_key, o.in_time, o.unused))

pub accepted_IsOpen :
    (now t : Time) (k secret : String) (m : Secrets) (out : BunkerSecret)
    → (validate_bunker_secret now t k secret m).1 ≡ ok out
    → (bs : BunkerSecret) × IsOpen now k secret m bs × (out ≡ record bs { used_at = some t })
unfolding validate_bunker_secret validate_found
accepted_IsOpen now t k secret m out h = elim (Option-cases (lookup secret m)) [
  | inl absent ↦ absurd (let e = h in ground (arith, absent))
  | inr (bs, found) ↦ (
    bs,
    record {
      stored = found;
      for_key = ground (arith, found, eq_iff bs.key_pubkey k);
      in_time = ground (arith, found);
      unused = ground (arith, found);
    },
    ground (arith, found),
  )
]

-- `ValidateBunkerSecret` succeeds exactly on a stored secret for that key that is unused and not
-- past its expiry, and returns it marked as used.
pub validate_bunker_secret_iff :
    (now t : Time) (key_pubkey secret : String) (m : Secrets) (out : BunkerSecret)
    → ((validate_bunker_secret now t key_pubkey secret m).1 ≡ ok out) ↔ (
        (bs : BunkerSecret) × IsOpen now key_pubkey secret m bs
        × (out ≡ record bs { used_at = some t }))
validate_bunker_secret_iff now t key_pubkey secret m out = (
  accepted_IsOpen now t key_pubkey secret m out,
  λ (bs, o, e). IsOpen-accepted now t key_pubkey secret m bs o ∙ ap ok (sym e),
)

pub data SecretCall : Type 0 where
  create : BunkerSecret → SecretCall
  validate : Time → Time → String → String → SecretCall
  remove : String → SecretCall
  clean : Time → SecretCall

unfoldable pub step : SecretCall → Secrets → Secrets
step (create bs) m = create_bunker_secret bs m
step (validate now t k secret) m = (validate_bunker_secret now t k secret m).0
step (remove id) m = delete_bunker_secret id m
step (clean now) m = clean_expired_bunker_secrets now m

unfoldable pub run : List SecretCall → Secrets → Secrets
run [] m = m
run (c ∷ cs) m = run cs (step c m)

abbrev pub creates : String → SecretCall → Bool
creates secret (create bs) = str_eq bs.secret secret
creates secret _ = false

abbrev pub NoneCreates : String → List SecretCall → Type 0
NoneCreates secret [] = Unit
NoneCreates secret (c ∷ cs) = (creates secret c ≡ false) × NoneCreates secret cs

validate-used_up :
    (now t : Time) (k j : String) (m : Secrets) (s : String)
    → used_up (lookup s m) ≡ true
    → used_up (lookup s (validate_bunker_secret now t k j m).0) ≡ true
unfolding validate_bunker_secret validate_found
validate-used_up now t k j m s h = elim (Option-cases (lookup j m)) [
  | inl absent ↦ rw (absent, validate_bunker_secret) h
  | inr (bs, found) ↦ ground (
    arith,
    found,
    eq_iff j s,
    lookup-delete j s m,
    lookup-insert j s (record bs { used_at = some t }) m,
  )
]

delete_bunker_secret-used_up :
    (id s : String) (m : Secrets)
    → used_up (lookup s m) ≡ true
    → used_up (lookup s (delete_bunker_secret id m)) ≡ true
unfolding delete_bunker_secret lookup
delete_bunker_secret-used_up id s [] h = h
delete_bunker_secret-used_up id s ((j, bs) ∷ m) h =
    ground (arith, lookup-delete j s ((j, bs) ∷ m), delete_bunker_secret-used_up id s m, eq_iff j s)

clean-used_up :
    (now : Time) (s : String) (m : Secrets)
    → used_up (lookup s m) ≡ true
    → used_up (lookup s (clean_expired_bunker_secrets now m)) ≡ true
unfolding clean_expired_bunker_secrets
clean-used_up now s m h = ground (arith, lookup-retain (λ _ bs. not (ltb bs.expires_at now)) s m)

step-used_up :
    (c : SecretCall) (m : Secrets) (s : String)
    → creates s c ≡ false
    → used_up (lookup s m) ≡ true
    → used_up (lookup s (step c m)) ≡ true
unfolding step create_bunker_secret
step-used_up (create bs) m s other h = ground (arith, lookup-insert bs.secret s bs m)
step-used_up (validate now t k j) m s other h = validate-used_up now t k j m s h
step-used_up (remove id) m s other h = delete_bunker_secret-used_up id s m h
step-used_up (clean now) m s other h = clean-used_up now s m h

run-used_up :
    (cs : List SecretCall) (m : Secrets) (s : String)
    → NoneCreates s cs
    → used_up (lookup s m) ≡ true
    → used_up (lookup s (run cs m)) ≡ true
unfolding run
run-used_up [] m s n h = h
run-used_up (c ∷ cs) m s n h = run-used_up cs (step c m) s n.1 (step-used_up c m s n.0 h)

validated-used_up :
    (now t : Time) (k secret : String) (m : Secrets) (out : BunkerSecret)
    → (validate_bunker_secret now t k secret m).1 ≡ ok out
    → used_up (lookup secret (validate_bunker_secret now t k secret m).0) ≡ true
unfolding validate_bunker_secret validate_found
validated-used_up now t k secret m out h = elim (Option-cases (lookup secret m)) [
  | inl absent ↦ absurd (let e = h in ground (arith, absent))
  | inr (bs, found) ↦
      ground (arith, found, lookup-insert_self secret (record bs { used_at = some t }) m)
]

used_up_refused :
    (now t : Time) (k secret : String) (m : Secrets)
    → used_up (lookup secret m) ≡ true
    → (validate_bunker_secret now t k secret m).1 ≡ err bunker_secret_invalid
unfolding validate_bunker_secret validate_found
used_up_refused now t k secret m h = elim (Option-cases (lookup secret m)) [
  | inl absent ↦ rw (absent, validate_bunker_secret)
  | inr (bs, found) ↦ ground (arith, found)
]

-- Once a secret is accepted it is refused for every key, at any time and after any other calls on
-- secrets, unless one of them stores a new secret with the same text.
pub validate_bunker_secret-run :
    (now t : Time) (k secret : String) (m : Secrets) (out : BunkerSecret) (cs : List SecretCall)
    (now' t' : Time) (k' : String)
    → (validate_bunker_secret now t k secret m).1 ≡ ok out
    → NoneCreates secret cs
    → (validate_bunker_secret now' t' k' secret
        (run cs (validate_bunker_secret now t k secret m).0)).1
      ≡ err bunker_secret_invalid
validate_bunker_secret-run now t k secret m out cs now' t' k' won n =
    used_up_refused now' t' k' secret (run cs (validate_bunker_secret now t k secret m).0) (
      run-used_up cs (validate_bunker_secret now t k secret m).0 secret n
        (validated-used_up now t k secret m out won))
