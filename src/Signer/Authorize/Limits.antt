-- ===== src/Signer/Authorize/Limits.antt =====
-- The check of a rule's usage, and what counting one use after it leaves.
use mathlib.Core.List.{Memᴰ}
use cloistr_signer.Prelude.{
  ℕ, ◌+◌, ◌≤◌, ◌<◌, String, true, false, some, List, [], ◌∷◌, ◌≡◌, refl, ap, ◌∙◌, arith, Bool-cases,
  Option-cases, inl, inr, ◌⊎◌, ◌==◌, ==_iff,
}
use cloistr_signer.Prelude.Dict.{lookup}
use cloistr_signer.Storage.Types.{Time, Policy, PolicyRule, PolicyTable, Result-cases, ok, update}
use cloistr_signer.Storage.Policies.{get_policy, check_policy, increment_rule_usage}
use cloistr_signer.Signer.Authorize.{rule_matches, rule_exhausted, check_rules, check_policy_usage}

-- The rule is one of a stored policy.
abbrev pub IsRuleOf : PolicyTable → ℕ → Type 0
IsRuleOf tbl r =
    (id : String) × (policy : Policy) × (lookup id tbl.policies ≡ some policy) × Memᴰ r policy.rules

-- Every rule of a stored policy stands under its id, and counts no more uses than its limit.
pub record IsMetered (tbl : PolicyTable) : Type 0 where
  pub indexed : (r : ℕ) → IsRuleOf tbl r → lookup (tbl.cell r).id tbl.policy_rules ≡ some r
  pub within :
      (r : ℕ)
      → IsRuleOf tbl r
      → 0 < (tbl.cell r).max_usage
      → (tbl.cell r).current_usage ≤ (tbl.cell r).max_usage

-- What a check that passes says of the rule to be counted.
check_rules_passed :
    (tbl : PolicyTable) (method : String) (rs : List ℕ)
    → (check_rules tbl method rs).0 ≡ true
    → ((check_rules tbl method rs).1 ≡ "")
      ⊎ ((r : ℕ) × Memᴰ r rs
          × (rule_exhausted (tbl.cell r) ≡ false)
          × ((check_rules tbl method rs).1 ≡ (tbl.cell r).id))
unfolding check_rules
check_rules_passed tbl method [] h = inl refl
check_rules_passed tbl method (r ∷ rs) h = elim (Bool-cases (rule_matches method (tbl.cell r))) [
  | inl matches ↦ elim (Bool-cases (rule_exhausted (tbl.cell r))) [
    | inl spent ↦ absurd (let e = h in ground (arith, matches, spent))
    | inr free ↦ inr (r, Memᴰ.head refl, free, rw (matches, free) refl)
  ]
  | inr other ↦ elim (check_rules_passed tbl method rs (let e = h in rw other at e)) [
    | inl nothing ↦ inl (rw other nothing)
    | inr (x, later, free, is) ↦ inr (x, Memᴰ.tail later, free, rw other is)
  ]
]

get_policy_found :
    (now : Time) (tbl : PolicyTable) (id : String) (policy : Policy)
    → get_policy now id tbl ≡ ok policy
    → lookup id tbl.policies ≡ some policy
unfolding get_policy check_policy
get_policy_found now tbl id policy h = elim (Option-cases (lookup id tbl.policies)) [
  | inl absent ↦ absurd (let e = h in ground (arith, absent))
  | inr (p, found) ↦ ground (arith, found)
]

pub check_policy_usage_passed :
    (now : Time) (tbl : PolicyTable) (id method : String)
    → (check_policy_usage now tbl id method).0 ≡ true
    → ((check_policy_usage now tbl id method).1 ≡ "")
      ⊎ ((r : ℕ) × IsRuleOf tbl r
          × (rule_exhausted (tbl.cell r) ≡ false)
          × ((check_policy_usage now tbl id method).1 ≡ (tbl.cell r).id))
unfolding check_policy_usage
check_policy_usage_passed now tbl id method h = elim (Result-cases (get_policy now id tbl)) [
  | inr (e, missing) ↦ inl (rw (missing, check_policy_usage) refl)
  | inl (policy, good) ↦
      let stored = get_policy_found now tbl id policy good in
      elim (check_rules_passed tbl method policy.rules
        (let e = h in rw (good, check_policy_usage) at e)) [
          | inl nothing ↦ inl (rw (good, check_policy_usage) nothing)
          | inr (r, listed, free, is) ↦
              inr (r, (id, policy, stored, listed), free, rw (good, check_policy_usage) is)
        ]
]

abbrev used_once : PolicyRule → PolicyRule
used_once rule = record rule { current_usage = rule.current_usage + 1 }

abbrev counted : ℕ → PolicyTable → PolicyTable
counted r tbl = record tbl { cell = update tbl.cell r (used_once (tbl.cell r)) }

-- A use leaves every rule's id, and counts at the one rule.
counted_rule :
    (r s : ℕ) (tbl : PolicyTable)
    → (((counted r tbl).cell s).id ≡ (tbl.cell s).id)
      × (((counted r tbl).cell s ≡ tbl.cell s)
          ⊎ ((r ≡ s) × ((counted r tbl).cell s ≡ used_once (tbl.cell s))))
counted_rule r s tbl = elim (Bool-cases (r == s)) [
  | inl here ↦
      let e : r ≡ s = (==_iff r s).0 here in
      let is : (counted r tbl).cell s ≡ used_once (tbl.cell s) =
        rw here (ap (λ x. used_once (tbl.cell x)) e) in
      (ap (λ rule. rule.id) is, inr (e, is))
  | inr there ↦
      let is : (counted r tbl).cell s ≡ tbl.cell s = rw there refl in
      (ap (λ rule. rule.id) is, inl is)
]

use_left :
    (rule : PolicyRule)
    → rule_exhausted rule ≡ false
    → 0 < rule.max_usage
    → rule.current_usage + 1 ≤ rule.max_usage
unfolding rule_exhausted
use_left rule free pos = ground arith

counted_within :
    (rule rule' : PolicyRule)
    → rule' ≡ rule
    → (0 < rule.max_usage → rule.current_usage ≤ rule.max_usage)
    → 0 < rule'.max_usage
    → rule'.current_usage ≤ rule'.max_usage
counted_within rule rule' same old = rw same old

counted-IsMetered :
    (tbl : PolicyTable) (r : ℕ)
    → IsMetered tbl
    → rule_exhausted (tbl.cell r) ≡ false
    → IsMetered (counted r tbl)
counted-IsMetered tbl r w free = record {
  indexed = λ s of. ap (λ id. lookup id tbl.policy_rules) (counted_rule r s tbl).0 ∙ w.indexed s of;
  within = λ s of. elim (counted_rule r s tbl).1 [
    | inl same ↦ counted_within (tbl.cell s) ((counted r tbl).cell s) same (w.within s of)
    | inr (e, is) ↦
        counted_within (used_once (tbl.cell s)) ((counted r tbl).cell s) is
          (use_left (tbl.cell s) (rw (← e) free))
  ];
}

pub increment_rule_usage-IsMetered :
    (tbl : PolicyTable) (r : ℕ)
    → IsMetered tbl
    → IsRuleOf tbl r
    → rule_exhausted (tbl.cell r) ≡ false
    → IsMetered (increment_rule_usage (tbl.cell r).id tbl).0
unfolding increment_rule_usage
increment_rule_usage-IsMetered tbl r w of free =
    rw (w.indexed r of, increment_rule_usage) (counted-IsMetered tbl r w free)
