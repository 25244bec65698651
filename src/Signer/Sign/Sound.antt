-- ===== src/Signer/Sign/Sound.antt =====
-- What the signer signs: only events of an allowed kind, under the target's own pubkey, and for a
-- disposable key no kind and no tag that gives its owner away.
use mathlib.Core.List.{Memᴰ}
use cloistr_signer.Prelude.{
  ℕ, String, Bool, true, false, some, List, [], ◌∷◌, ◌≡◌, ◌≢◌, refl, sym, ap, subst, arith, eq_iff,
  ◌↔◌, Bool-cases, Option-cases, inl, inr, ◌⊎◌, ◌||◌, ◌==◌, ==_iff,
}
use cloistr_signer.Storage.Types.{Permission, KeyTable}
use cloistr_signer.Signer.Types.{Event, Library, Outcome-cases, done}
use cloistr_signer.Signer.Sign.{
  contains_kind, is_empty, kind_allowed, disposable_blocked, key_is_disposable, is_frost_user,
  is_client_tag, strip_fingerprint_tags, screen_event, sign_as, handle_sign_event, sign_each,
  handle_batch_sign,
}

-- No list of kinds is no restriction.
abbrev pub AllowsKind : List ℕ → ℕ → Type 0
AllowsKind kinds kind = (kinds ≡ []) ⊎ Memᴰ kind kinds

-- Kinds 0, 3, 10002 and 4 would link a disposable key to its owner.
abbrev pub Unlinked : ℕ → Type 0
Unlinked kind = (kind ≢ 0) × (kind ≢ 3) × (kind ≢ 10002) × (kind ≢ 4)

-- A tag whose name is "client".
abbrev pub IsClientTag : List String → Type 0
IsClientTag tag = (values : List String) × (tag ≡ "client" ∷ values)

-- The second list is the first without its client tags, all others in their order.
pub data Stripped : List (List String) → List (List String) → Type 0 where
  nil : Stripped [] []
  drop :
      (tag : List String) (tags rest : List (List String))
      → IsClientTag tag
      → Stripped tags rest
      → Stripped (tag ∷ tags) rest
  keep :
      (tag : List String) (tags rest : List (List String))
      → ¬ IsClientTag tag
      → Stripped tags rest
      → Stripped (tag ∷ tags) (tag ∷ rest)

contains_kind_sound : (kind : ℕ) (ks : List ℕ) → contains_kind kind ks ≡ true → Memᴰ kind ks
unfolding contains_kind
contains_kind_sound kind [] h = absurd (cc)
contains_kind_sound kind (k ∷ ks) h = elim (Bool-cases (k == kind)) [
  | inl hit ↦ Memᴰ.head (sym ((==_iff k kind).0 hit))
  | inr miss ↦ Memᴰ.tail (contains_kind_sound kind ks (let h' = h in rw miss at h'))
]

kind_allowed_sound :
    (perm : Permission) (kind : ℕ)
    → kind_allowed perm kind ≡ true
    → AllowsKind perm.allowed_kinds kind
unfolding kind_allowed
kind_allowed_sound perm kind h = by_list perm.allowed_kinds h
  where
    by_list : (ks : List ℕ) → (is_empty ks || contains_kind kind ks) ≡ true → AllowsKind ks kind
    by_list [] e = inl refl
    by_list (k ∷ ks) e = inr (contains_kind_sound kind (k ∷ ks) e)

disposable_blocked-Unlinked : (kind : ℕ) → disposable_blocked kind ≡ false → Unlinked kind
unfolding disposable_blocked
disposable_blocked-Unlinked kind h = ground arith

is_client_tag_iff : (tag : List String) → (is_client_tag tag ≡ true) ↔ IsClientTag tag
is_client_tag_iff [] = (λ h. absurd (cc), λ (values, h). absurd (cc))
is_client_tag_iff (name ∷ values) = (
  λ h. (values, ap (λ n. n ∷ values) ((eq_iff name "client").0 h)),
  λ (values', h). (eq_iff name "client").1 (cc),
)

strip-Stripped : (tags : List (List String)) → Stripped tags (strip_fingerprint_tags tags)
unfolding strip_fingerprint_tags
strip-Stripped [] = Stripped.nil
strip-Stripped (tag ∷ tags) = elim (Bool-cases (is_client_tag tag)) [
  | inl ours ↦
      rw ours (Stripped.drop tag tags _ ((is_client_tag_iff tag).0 ours) (strip-Stripped tags))
  | inr other ↦ rw other (
      Stripped.keep tag tags _ (λ c. let ours = (is_client_tag_iff tag).1 c in cc)
        (strip-Stripped tags))
]

-- What a parameter of a signing request is turned into.
pub record IsSigned (lib : Library) (disposable : Bool) (target priv : String) (perm : Permission)
    (param text : String) : Type 0 where
  pub event : Event
  pub tags : List (List String)
  pub signed : Event
  -- the parameter is an event of an allowed kind
  pub parsed : lib.parse_event param ≡ some event
  pub allowed : AllowsKind perm.allowed_kinds event.kind
  -- a disposable key signs no linking kind, and the event's tags without the client tags; another key
  -- signs the tags as they came
  pub unlinked : disposable ≡ true → Unlinked event.kind × Stripped event.tags tags
  pub kept : disposable ≡ false → tags ≡ event.tags
  -- the target's key signs it under the target's pubkey, all else as it came
  pub signing : lib.sign priv (record event { tags = tags; pubkey = target }) ≡ some signed
  pub printed : lib.marshal_event signed ≡ some text

module _ (lib : Library) (target priv : String) (perm : Permission) where
  sign_as_sound :
      (event : Event) (text : String)
      → sign_as lib target priv event ≡ done text
      → (signed : Event) × (lib.sign priv (record event { pubkey = target }) ≡ some signed)
        × (lib.marshal_event signed ≡ some text)
  unfolding sign_as
  sign_as_sound event text h =
      elim (Option-cases (lib.sign priv (record event { pubkey = target }))) [
        | inl failed ↦ absurd (let h' = h in ground (arith, failed))
        | inr (signed, is) ↦ (signed, is, ground (arith, is))
      ]

  screened_cases :
      (disposable : Bool) (event screened : Event)
      → screen_event perm disposable event ≡ done screened
      → (kind_allowed perm event.kind ≡ true)
        × (((disposable ≡ false) × (event ≡ screened))
            ⊎ ((disposable ≡ true)
                × (disposable_blocked event.kind ≡ false)
                × (record event { tags = strip_fingerprint_tags event.tags } ≡ screened)))
  unfolding screen_event
  screened_cases disposable event screened h = ground arith

  IsSigned-as :
      (disposable : Bool) (param text : String) (event : Event) (ts : List (List String))
      → lib.parse_event param ≡ some event
      → kind_allowed perm event.kind ≡ true
      → (disposable ≡ true → Unlinked event.kind × Stripped event.tags ts)
      → (disposable ≡ false → ts ≡ event.tags)
      → sign_as lib target priv (record event { tags = ts }) ≡ done text
      → IsSigned lib disposable target priv perm param text
  IsSigned-as disposable param text event ts parsed ok unlinked kept h =
      let (signed, signing, printed) = sign_as_sound (record event { tags = ts }) text h in
      record {
        event = event;
        tags = ts;
        signed = signed;
        parsed = parsed;
        allowed = kind_allowed_sound perm event.kind ok;
        unlinked = unlinked;
        kept = kept;
        signing = signing;
        printed = printed;
      }

  screen_sign_sound :
      (disposable : Bool) (param text : String) (event screened : Event)
      → lib.parse_event param ≡ some event
      → screen_event perm disposable event ≡ done screened
      → sign_as lib target priv screened ≡ done text
      → IsSigned lib disposable target priv perm param text
  screen_sign_sound disposable param text event screened parsed passed signed =
      let (ok, which) = screened_cases disposable event screened passed in
      elim which [
        | inl (plain, same) ↦
            IsSigned-as disposable param text event event.tags parsed ok (λ is. absurd (cc))
              (λ _. refl) (let h = signed in rw (← same) at h)
        | inr (is_disposable, free, same) ↦
            IsSigned-as disposable param text event (strip_fingerprint_tags event.tags) parsed ok
              (λ _. (disposable_blocked-Unlinked event.kind free, strip-Stripped event.tags))
              (λ is_not. absurd (cc)) (let h = signed in rw (← same) at h)
      ]

done_inj {ℓ} : {A : Type ℓ} {x y : A} → done x ≡ done y → x ≡ y
done_inj h = cc

-- Every parameter is turned into the text at its place.
pub data EachSigned (lib : Library) (disposable : Bool) (target priv : String) (perm : Permission)
    : List String → List String → Type 0 where
  nil : EachSigned lib disposable target priv perm [] []
  cons :
      (param text : String) (params texts : List String)
      → IsSigned lib disposable target priv perm param text
      → EachSigned lib disposable target priv perm params texts
      → EachSigned lib disposable target priv perm (param ∷ params) (text ∷ texts)

module _ (lib : Library) (tbl : KeyTable) (target priv : String) (perm : Permission) where
  -- Where the key is no FROST key of a user: what "sign_event" answers with is the event of its first
  -- parameter, of a kind that the grant allows, signed by the key under the key's own pubkey and else as it came; for
  -- a disposable key it is of no linking kind, and of its tags those named "client", and no others, are
  -- left out.
  pub handle_sign_event_sound :
      (client : String) (params : List String) (text : String)
      → is_frost_user tbl target ≡ false
      → handle_sign_event lib tbl target priv client params perm ≡ done text
      → (param : String) × (rest : List String) × (params ≡ param ∷ rest)
        × IsSigned lib (key_is_disposable tbl target) target priv perm param text
  unfolding handle_sign_event
  handle_sign_event_sound client [] text own h = absurd (cc)
  handle_sign_event_sound client (param ∷ rest) text own h =
      elim (Option-cases (lib.parse_event param)) [
        | inl bad ↦ absurd (let h' = h in ground (arith, bad))
        | inr (event, parsed) ↦
            elim (Outcome-cases (screen_event perm (key_is_disposable tbl target) event)) [
              | inl (e, refused) ↦ absurd (let h' = h in ground arith)
              | inr (screened, passed) ↦ (
                param,
                rest,
                refl,
                screen_sign_sound lib target priv perm (key_is_disposable tbl target) param text
                    event screened parsed passed (let h' = h in rw (parsed, passed, own) at h'),
              )
            ]
      ]

  sign_each-EachSigned :
      (params texts : List String)
      → sign_each lib tbl target priv perm params ≡ done texts
      → EachSigned lib (key_is_disposable tbl target) target priv perm params texts
  unfolding sign_each
  sign_each-EachSigned [] texts h =
      subst (EachSigned lib (key_is_disposable tbl target) target priv perm []) (done_inj h)
        EachSigned.nil
  sign_each-EachSigned (param ∷ params) texts h = elim (Option-cases (lib.parse_event param)) [
    | inl bad ↦ absurd (let h' = h in ground (arith, bad))
    | inr (event, parsed) ↦
        elim (Outcome-cases (screen_event perm (key_is_disposable tbl target) event)) [
          | inl (e, refused) ↦ absurd (let h' = h in ground arith)
          | inr (screened, passed) ↦ elim (Outcome-cases (sign_as lib target priv screened)) [
            | inl (e, unsigned) ↦ absurd (let h' = h in ground arith)
            | inr (text, signed) ↦
                elim (Outcome-cases (sign_each lib tbl target priv perm params)) [
                  | inl (e, later) ↦ absurd (let h' = h in ground arith)
                  | inr (rest, others) ↦
                      subst
                        (EachSigned lib (key_is_disposable tbl target) target priv perm
                          (param ∷ params))
                        (done_inj (let h' = h in rw (parsed, passed, signed, others) at h'))
                        (EachSigned.cons param text params rest
                          (screen_sign_sound lib target priv perm (key_is_disposable tbl target)
                            param text event screened parsed passed signed)
                          (sign_each-EachSigned params rest others))
                ]
          ]
        ]
  ]

  -- What "batch_sign" answers with is the list of one signed event for each parameter, in their
  -- order, each as "sign_event" may sign it.
  pub handle_batch_sign_sound :
      (params : List String) (text : String)
      → handle_batch_sign lib tbl target priv params perm ≡ done text
      → (texts : List String) × (lib.marshal_batch texts ≡ some text)
        × EachSigned lib (key_is_disposable tbl target) target priv perm params texts
  unfolding handle_batch_sign
  handle_batch_sign_sound [] text h = absurd (cc)
  handle_batch_sign_sound (param ∷ params) text h =
      elim (Outcome-cases (sign_each lib tbl target priv perm (param ∷ params))) [
        | inl (e, bad) ↦ absurd (let h' = h in ground arith)
        | inr (texts, each) ↦ elim (Option-cases (lib.marshal_batch texts)) [
          | inl unprinted ↦ absurd (let h' = h in ground (arith, unprinted))
          | inr (out, printed) ↦
              (texts, (ground (arith, printed)), sign_each-EachSigned (param ∷ params) texts each)
        ]
      ]
