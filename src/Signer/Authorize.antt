-- ===== src/Signer/Authorize.antt =====
-- internal/signer/signer.go: may this method be used, must an administrator be asked, and does the
-- grant's policy leave a use.
pub mod Methods
pub mod Limits
use cloistr_signer.Prelude.{
  ℕ, ◌<◌, String, Bool, true, false, ◌||◌, ◌&&◌, not, Option, none, some, List, [], ◌∷◌,
  if◌then◌else◌, ltb, leb, ◌==◌, str_eq,
}
use cloistr_signer.Prelude.Dict.{lookup}
use cloistr_signer.Storage.Types.{
  Time, Result, ok, err, Policy, PolicyRule, PolicyTable, Permission, KeyTable,
}
use cloistr_signer.Storage.Policies.{get_policy, increment_rule_usage}

unfoldable pub allows_method : String → List String → Bool
allows_method method [] = false
allows_method method (m ∷ ms) =
    (str_eq m method || str_eq m "*" || str_eq m "all") || allows_method method ms

unfoldable pub is_method_allowed : Permission → String → Bool
is_method_allowed perm method = allows_method method perm.methods

abbrev pub is_true : Option Bool → Bool
is_true none = false
is_true (some b) = b

-- `none` is a client with no grant; `global` is `config.Auth.RequireApproval`.
unfoldable pub should_require_approval : KeyTable → Bool → String → Option Permission → Bool
should_require_approval tbl global target (some perm) = is_true perm.require_approval
should_require_approval tbl global target none = elim (lookup target tbl.keys_by_pubkey) [
  | none ↦ global
  | some r ↦ if (tbl.cell r).require_approval then true else global
]

unfoldable pub rule_matches : String → PolicyRule → Bool
rule_matches method rule = str_eq rule.method method || str_eq rule.method "*"

unfoldable pub rule_exhausted : PolicyRule → Bool
rule_exhausted rule = ltb 0 rule.max_usage && leb rule.max_usage rule.current_usage

-- The loop of `checkPolicyUsage`: is the method allowed, and under which rule ("" for none).
unfoldable pub check_rules : PolicyTable → String → List ℕ → Bool × String
check_rules tbl method [] = (true, "")
check_rules tbl method (r ∷ rs) =
    let rest = check_rules tbl method rs in
    if rule_matches method (tbl.cell r)
    then (if rule_exhausted (tbl.cell r) then (false, "") else (true, (tbl.cell r).id))
    else rest

-- A policy that is missing or has expired allows everything.
unfoldable pub check_policy_usage : Time → PolicyTable → String → String → Bool × String
check_policy_usage now tbl policy_id method = elim (get_policy now policy_id tbl) [
  | err _ ↦ (true, "")
  | ok policy ↦ check_rules tbl method policy.rules
]
