-- ===== src/Signer/Request/Usage.antt =====
-- The usage limits of policies, over requests that are handled one after the other.
use cloistr_signer.Prelude.{
  ℕ, ◌≤◌, ◌<◌, String, true, Option, none, some, List, [], ◌∷◌, ◌≡◌, refl, eq_iff, Bool-cases,
  Option-cases, inl, inr, str_eq, if◌then◌else◌,
}
use cloistr_signer.Prelude.Dict.{lookup}
use cloistr_signer.Storage.Types.{Time, Permission}
use cloistr_signer.Storage.Policies.{increment_rule_usage}
use cloistr_signer.Signer.Types.{Request, Library, Signer}
use cloistr_signer.Signer.Handle.{should_proxy_method}
use cloistr_signer.Signer.Authorize.{check_policy_usage}
use cloistr_signer.Signer.Request.{answer, switch_method, count_usage, handle_request}
use cloistr_signer.Signer.Authorize.Limits.{
  IsRuleOf, IsMetered, check_policy_usage_passed, increment_rule_usage-IsMetered,
}

module _ (lib : Library) (t u : Time) (target priv client : String) (req : Request)
    (perm : Permission) where
  switch_method-policies :
      (uri : Option String) (s : Signer)
      → (switch_method lib t u uri target priv client req perm s).0.policies ≡ s.policies
  unfolding switch_method
  switch_method-policies uri s = elim (Bool-cases (str_eq req.method "connect")) [
    | inl connects ↦ rw connects refl
    | inr other ↦ rw other refl
  ]

  answer-policies :
      (s : Signer) → (answer lib t u target priv client req perm s).0.policies ≡ s.policies
  unfolding answer
  answer-policies s = elim (Option-cases (lookup target s.proxy_keys)) [
    | inl own ↦ rw (own, answer) (switch_method-policies none s)
    | inr (uri, proxy) ↦ elim (Bool-cases (should_proxy_method req.method)) [
      | inl forwards ↦ rw (proxy, answer) (rw forwards refl)
      | inr stays ↦ rw (proxy, answer) (rw stays (switch_method-policies (some uri) s))
    ]
  ]

  count_usage-policies :
      (rule_id : String) (s : Signer)
      → (count_usage lib rule_id s).policies
        ≡ (if str_eq rule_id "" then s.policies else (increment_rule_usage rule_id s.policies).0)
  unfolding count_usage
  count_usage-policies rule_id s = elim (Bool-cases (str_eq rule_id "")) [
    | inl nothing ↦ rw nothing refl
    | inr rule ↦ rw rule refl
  ]

  count_usage-IsMetered :
      (now : Time) (s s' : Signer)
      → IsMetered s.policies
      → s'.policies ≡ s.policies
      → (check_policy_usage now s.policies perm.policy_id req.method).0 ≡ true
      → IsMetered
          (count_usage lib
            (check_policy_usage now s.policies perm.policy_id req.method).1
            s').policies
  count_usage-IsMetered now s s' w same passed =
      let rule_id = (check_policy_usage now s.policies perm.policy_id req.method).1 in
      rw (count_usage-policies rule_id s', same)
        (elim (Bool-cases (str_eq rule_id "")) [
          | inl nothing ↦ rw nothing w
          | inr rule ↦
              rw rule
                (elim (check_policy_usage_passed now s.policies perm.policy_id req.method passed) [
                  | inl none_ ↦ absurd (let e = (eq_iff rule_id "").1 none_ in cc)
                  | inr (r, of, free, is) ↦
                      rw is (increment_rule_usage-IsMetered s.policies r w of free)
                ])
        ])

  handle_request-IsMetered :
      (now : Time) (s : Signer)
      → IsMetered s.policies
      → IsMetered (handle_request lib now t u target priv client req perm s).0.policies
  unfolding handle_request
  handle_request-IsMetered now s w = elim (Bool-cases (str_eq perm.policy_id "")) [
    | inl free ↦ rw free (rw (answer-policies s) w)
    | inr governed ↦
        elim (Bool-cases (check_policy_usage now s.policies perm.policy_id req.method).0) [
          | inr refused ↦ rw (governed, refused) w
          | inl passed ↦
              rw (governed, passed)
                (count_usage-IsMetered now s (answer lib t u target priv client req perm s).0 w
                  (answer-policies s) passed)
        ]
  ]

-- A request to be handled, with the readings of the clock and the permission that it runs under.
pub record Ask : Type 0 where
  pub now : Time
  pub session_from : Time
  pub session_to : Time
  pub target : String
  pub priv : String
  pub client : String
  pub req : Request
  pub perm : Permission

unfoldable pub handle_all : Library → List Ask → Signer → Signer
handle_all lib [] s = s
handle_all lib (a ∷ asks) s =
    handle_all lib asks
      (handle_request lib a.now a.session_from a.session_to a.target a.priv a.client a.req a.perm
        s).0

-- However many requests are handled one after the other, under whatever permissions, no rule of a
-- stored policy that has a limit counts more uses than the limit, if none does at the start and every
-- rule of a stored policy stands under its own id.
pub handle_all-within :
    (lib : Library) (asks : List Ask) (s : Signer) (r : ℕ)
    → IsMetered s.policies
    → IsRuleOf (handle_all lib asks s).policies r
    → 0 < ((handle_all lib asks s).policies.cell r).max_usage
    → ((handle_all lib asks s).policies.cell r).current_usage
      ≤ ((handle_all lib asks s).policies.cell r).max_usage
unfolding handle_all
handle_all-within lib [] s r w of pos = w.within r of pos
handle_all-within lib (a ∷ asks) s r w of pos =
    handle_all-within lib asks
      (handle_request lib a.now a.session_from a.session_to a.target a.priv a.client a.req a.perm
        s).0
      r
      (handle_request-IsMetered lib a.session_from a.session_to a.target a.priv a.client a.req
        a.perm a.now s w)
      of pos
