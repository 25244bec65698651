-- ===== src/Examples/Metering.antt =====
-- A policy with a limit on its uses.
use mathlib.Core.List.{Memᴰ}
use cloistr_signer.Prelude.{
  ℕ, ◌≤◌, ◌<◌, String, none, some, [], ◌∷◌, ◌≡◌, refl, sym, ap, arith, subst,
}
use cloistr_signer.Prelude.Dict.{lookup}
use cloistr_signer.Storage.Types.{Policy, PolicyTable}
use cloistr_signer.Storage.Policies.{get_policy, check_policy, increment_rule_usage}
use cloistr_signer.Signer.Types.{Signer}
use cloistr_signer.Signer.Authorize.{rule_matches, rule_exhausted, check_rules, check_policy_usage}
use cloistr_signer.Signer.Authorize.Limits.{IsRuleOf, IsMetered}
use cloistr_signer.Signer.Request.{
  answer, switch_method, answer_method, count_usage, handle_request,
}
use cloistr_signer.Signer.Request.Usage.{Ask, handle_all, handle_all-within}
use cloistr_signer.Examples.{a_library, a_signer, a_grant, a_request, a_rule}

abbrev a_policy : Policy
a_policy = record {
  id = "p1";
  name = "once";
  description = "";
  rules = 0 ∷ [];
  expires_at = none;
  created_at = 1;
  created_by = "";
}

abbrev policies : PolicyTable
policies = record {
  cell = λ _. a_rule;
  next = 1;
  policies = ("p1", a_policy) ∷ [];
  policy_rules = ("r1", 0) ∷ [];
}

only_rule : (r : ℕ) → Memᴰ r (0 ∷ []) → r ≡ 0
only_rule r (Memᴰ.head e) = e
only_rule r (Memᴰ.tail later) = elim later [ ]

only_policy :
    (id : String) (policy : Policy) → lookup id policies.policies ≡ some policy → a_policy ≡ policy
unfolding lookup
only_policy id policy found = ground arith

policies-IsMetered : IsMetered policies
unfolding lookup
policies-IsMetered = record {
  indexed = λ r (id, policy, found, listed).
      let e : r ≡ 0 =
        only_rule r (subst (λ p. Memᴰ r p.rules) (sym (only_policy id policy found)) listed) in
      ap some (sym e);
  within = λ r of pos. omega arith;
}

abbrev metered : Signer
metered = record (a_signer []) { policies = policies }

abbrev an_ask : Ask
an_ask = record {
  now = 9;
  session_from = 9;
  session_to = 9;
  target = "k1";
  priv = "priv";
  client = "alice";
  req = a_request "ping";
  perm = record (a_grant "alice") { policy_id = "p1" };
}

still_rule : IsRuleOf (handle_all a_library (an_ask ∷ []) metered).policies 0
unfolding handle_all handle_request check_policy_usage get_policy check_policy check_rules
    rule_matches rule_exhausted answer switch_method answer_method count_usage increment_rule_usage
    lookup
still_rule = ("p1", a_policy, refl, Memᴰ.head refl)

limited : 0 < ((handle_all a_library (an_ask ∷ []) metered).policies.cell 0).max_usage
unfolding handle_all handle_request check_policy_usage get_policy check_policy check_rules
    rule_matches rule_exhausted answer switch_method answer_method count_usage increment_rule_usage
    lookup
limited = omega arith

handle_all-within_example :
    ((handle_all a_library (an_ask ∷ []) metered).policies.cell 0).current_usage
    ≤ ((handle_all a_library (an_ask ∷ []) metered).policies.cell 0).max_usage
handle_all-within_example =
    handle_all-within a_library (an_ask ∷ []) metered 0 policies-IsMetered still_rule limited
