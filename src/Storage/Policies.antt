-- ===== src/Storage/Policies.antt =====
-- internal/storage/storage.go: policies and their usage counters in `MemoryStorage`. A rule is
-- shared by its policy and by `m.policyRules`, so both hold its place in the heap.
use cloistr_signer.Prelude.{
  ℕ, ◌+◌, String, Option, none, some, List, [], ◌∷◌, if◌then◌else◌, ltb, Bool, true,
}
use cloistr_signer.Prelude.Dict.{lookup, delete, insert, values}
use cloistr_signer.Storage.Types.{
  Time, Error, policy_not_found, Result, ok, err, Policy, PolicyRule, PolicyTable, update,
}
use cloistr_signer.Storage.Grants.{expired}

-- The loop of `CreatePolicy` over the policy's rules, each a new struct: their places, and the table
-- with each rule under its id.
unfoldable pub store_rules : List PolicyRule → PolicyTable → List ℕ × PolicyTable
store_rules [] tbl = ([], tbl)
store_rules (rule ∷ rules) tbl =
    let (refs, tbl') = store_rules rules (record tbl {
      cell = update tbl.cell tbl.next rule;
      next = tbl.next + 1;
      policy_rules = insert rule.id tbl.next tbl.policy_rules;
    }) in
    (tbl.next ∷ refs, tbl')

-- `CreatePolicy` of a policy whose rules are the given structs.
unfoldable pub create_policy : Policy → List PolicyRule → PolicyTable → PolicyTable
create_policy policy rules tbl =
    let (refs, tbl') = store_rules rules tbl in
    record tbl' { policies = insert policy.id (record policy { rules = refs }) tbl'.policies }

unfoldable pub check_policy : Time → Option Policy → Result Policy
check_policy now none = err policy_not_found
check_policy now (some policy) =
    if expired policy.expires_at now then err policy_not_found else ok policy

unfoldable pub get_policy : Time → String → PolicyTable → Result Policy
get_policy now id tbl = check_policy now (lookup id tbl.policies)

-- `policy.ExpiresAt == nil || now.Before(*policy.ExpiresAt)`
unfoldable pub not_yet_expired : Option Time → Time → Bool
not_yet_expired none now = true
not_yet_expired (some t) now = ltb now t

unfoldable pub list_policies : Time → PolicyTable → List Policy
list_policies now tbl = values (λ _ policy. not_yet_expired policy.expires_at now) tbl.policies

unfoldable pub delete_rules : List ℕ → PolicyTable → PolicyTable
delete_rules [] tbl = tbl
delete_rules (r ∷ rs) tbl =
    delete_rules rs (record tbl { policy_rules = delete (tbl.cell r).id tbl.policy_rules })

unfoldable pub delete_policy : String → PolicyTable → PolicyTable × Option Error
delete_policy id tbl = elim (lookup id tbl.policies) [
  | none ↦ (tbl, some policy_not_found)
  | some policy ↦
      let tbl' = delete_rules policy.rules tbl in
      (record tbl' { policies = delete id tbl'.policies }, none)
]

unfoldable pub increment_rule_usage : String → PolicyTable → PolicyTable × Option Error
increment_rule_usage rule_id tbl = elim (lookup rule_id tbl.policy_rules) [
  | none ↦ (tbl, some policy_not_found)
  | some r ↦ (
    record tbl {
      cell =
          update tbl.cell r
            (record (tbl.cell r) { current_usage = (tbl.cell r).current_usage + 1 });
    },
    none,
  )
]
