-- ===== src/Relays/Selection.antt =====
-- What a selection of relays holds of the candidates.
use cloistr_signer.Prelude.{
  ℕ, ◌+◌, ◌≤◌, ◌<◌, String, Bool, true, false, ◌||◌, ◌≡◌, ◌≢◌, arith, List, [], ◌∷◌, str_eq, eq_iff,
  inl, inr, ◌⊎◌,
}
use cloistr_signer.Relays.{
  RelayLibrary, SelectionInput, normalize_relay_url, contains, keep_relays, deduplicate_relays,
  candidate_relays, new_selector, select_relays,
}

abbrev pub count : List String → ℕ
count [] = 0
count (_ ∷ rs) = count rs + 1

module _ (lib : RelayLibrary) where
  abbrev pub norm : String → String
  norm r = normalize_relay_url lib r

  -- Some relay normalises to the text.
  abbrev pub has_form : String → List String → Bool
  has_form s [] = false
  has_form s (r ∷ rs) = str_eq (norm r) s || has_form s rs

  -- The relays are valid, and no two of them, nor one of them and a text of `seen`, normalise alike.
  abbrev pub IsApart : List String → List String → Type 0
  IsApart seen [] = Unit
  IsApart seen (r ∷ rs) =
      (norm r ≢ "") × (contains (norm r) seen ≡ false) × IsApart (norm r ∷ seen) rs

  keep_relays-IsApart :
      (max taken : ℕ) (seen relays : List String)
      → IsApart seen (keep_relays lib max taken seen relays)
  unfolding keep_relays
  keep_relays-IsApart max taken seen [] = tt
  keep_relays-IsApart max taken seen (r ∷ rs) = ground (
    arith,
    keep_relays-IsApart max taken seen rs,
    keep_relays-IsApart max (taken + 1) (norm r ∷ seen) rs,
    eq_iff (norm r) "",
  )

  keep_relays-count :
      (max taken : ℕ) (seen relays : List String)
      → taken < max
      → taken + count (keep_relays lib max taken seen relays) ≤ max
  unfolding keep_relays
  keep_relays-count max taken seen [] h = ground (arith)
  keep_relays-count max taken seen (r ∷ rs) h = ground (
    arith,
    keep_relays-count max taken seen rs,
    keep_relays-count max (taken + 1) (norm r ∷ seen) rs,
  )

  keep_relays-contains :
      (max taken : ℕ) (seen relays : List String) (s : String)
      → contains s (keep_relays lib max taken seen relays) ≡ true
      → contains s relays ≡ true
  unfolding keep_relays contains
  keep_relays-contains max taken seen [] s h = h
  keep_relays-contains max taken seen (r ∷ rs) s h = ground (
    arith,
    keep_relays-contains max taken seen rs s,
    keep_relays-contains max (taken + 1) (norm r ∷ seen) rs s,
  )

  -- A valid candidate has its form among those that are kept or seen, unless the limit is reached.
  keep_relays_complete :
      (max taken : ℕ) (seen relays : List String) (s : String)
      → taken + count (keep_relays lib max taken seen relays) < max
      → contains s relays ≡ true
      → norm s ≢ ""
      → (has_form (norm s) (keep_relays lib max taken seen relays) ≡ true)
        ⊎ (contains (norm s) seen ≡ true)
  unfolding keep_relays contains
  keep_relays_complete max taken seen [] s short in_it valid =
      absurd (let i = in_it in ground (arith))
  keep_relays_complete max taken seen (r ∷ rs) s short in_it valid = ground (
    arith,
    keep_relays_complete max taken seen rs s,
    keep_relays_complete max (taken + 1) (norm r ∷ seen) rs s,
    eq_iff r s,
    eq_iff (norm r) (norm s),
    eq_iff (norm r) "",
  )

-- What a selection holds, for at most `max` relays of the candidates.
pub record IsSelection (lib : RelayLibrary) (max : ℕ) (candidates out : List String) : Type 0 where
  pub short : count out ≤ max
  pub apart : IsApart lib [] out
  pub chosen : (s : String) → contains s out ≡ true → contains s candidates ≡ true
  pub complete :
      count out < max
      → (s : String) → contains s candidates ≡ true
      → normalize_relay_url lib s ≢ ""
      → has_form lib (normalize_relay_url lib s) out ≡ true

none_seen : (s : String) → contains s [] ≢ true
unfolding contains
none_seen s h = ground (arith)

new_selector-positive :
    (discovering : Bool) (fallback_relays : List String) (max_relays : ℕ)
    → 0 < (new_selector discovering fallback_relays max_relays).max_relays
unfolding new_selector
new_selector-positive discovering fallback_relays max_relays = ground (arith)

deduplicate_relays-IsSelection :
    (lib : RelayLibrary) (max : ℕ) (relays : List String)
    → 0 < max
    → IsSelection lib max relays (deduplicate_relays lib max relays)
unfolding deduplicate_relays
deduplicate_relays-IsSelection lib max relays h = record {
  short = omega (arith, keep_relays-count lib max 0 [] relays h);
  apart = keep_relays-IsApart lib max 0 [] relays;
  chosen = keep_relays-contains lib max 0 [] relays;
  complete = λ room s in_it valid.
      elim (keep_relays_complete lib max 0 [] relays s (omega (arith, room)) in_it valid) [
        | inl kept ↦ kept
        | inr seen ↦ absurd (none_seen (normalize_relay_url lib s) seen)
      ];
}

-- A selector that `NewSelector` made returns candidates: valid ones, no two of the same form, at most its
-- limit of them, and each valid candidate's form if they are fewer.
pub select_relays-IsSelection :
    (lib : RelayLibrary) (discovering : Bool) (fallback_relays : List String) (max_relays : ℕ)
    (input : SelectionInput)
    → IsSelection lib
        (new_selector discovering fallback_relays max_relays).max_relays
        (candidate_relays lib (new_selector discovering fallback_relays max_relays) input)
        (select_relays lib (new_selector discovering fallback_relays max_relays) input)
unfolding select_relays
select_relays-IsSelection lib discovering fallback_relays max_relays input =
    deduplicate_relays-IsSelection lib _ _
      (new_selector-positive discovering fallback_relays max_relays)
