-- ===== src/Plan/Push/Policies.antt =====
-- internal/plan/push.go: which pushes the policy refuses.
use command_center.Prelude.{
  String, ◌≡◌, ◌∙◌, false, some, List, [], arith, any, All, nat_eq, string_eq,
}
use command_center.Prelude.{any-append, find_first-weaker}
use command_center.Plan.Push.{Policy, default_deny, patterns, deny_match, push_refused}

-- No pattern of the policy denies the path.
abbrev pub Allowed : Policy → String → Type 0
Allowed policy path = All (λ pattern. deny_match pattern path ≡ false) (patterns policy)

-- A repository's own policy adds refusals and takes none away: what the default patterns refuse is
-- refused under every policy.
pub push_refused-default :
    (changed : List String) (policy : Policy) (path : String)
    → push_refused changed (record { deny = [] }) ≡ some path
    → (named : String) × (push_refused changed policy ≡ some named)
unfolding push_refused
push_refused-default changed policy path e =
    find_first-weaker (λ p. any (λ pattern. deny_match pattern p) default_deny)
      (λ p. any (λ pattern. deny_match pattern p) (patterns policy)) changed path
      (λ p h. any-append (λ pattern. deny_match pattern p) default_deny policy.deny ∙ ground arith)
      e
