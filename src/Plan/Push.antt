-- ===== src/Plan/Push.antt =====
-- internal/plan/push.go: which changed paths refuse a push.
pub mod Policies
use command_center.Prelude.{
  ℕ, zero, suc, String, ◌⧺◌, decimal, cut_prefix, cut_suffix, refl, Bool, ◌||◌, Option, none, some,
  List, [], ◌∷◌, ◌++◌, arith, if◌then◌else◌, is_some, any, find_first, ◌==◌, nat_eq, string_eq,
}
use command_center.Prelude.{base_path}
use command_center.Plan.Ticket.{default_base_branch}

abbrev pub settings_file : String
settings_file = ".command-centre.toml"

pub record Policy : Type 0 where
  pub deny : List String

abbrev pub default_deny : List String
default_deny =
    ".github/**" ∷ settings_file ∷ ".mergify.yml" ∷ "CODEOWNERS" ∷ "**/package.json"
    ∷ "**/package-lock.json" ∷ "**/pnpm-lock.yaml" ∷ "**/yarn.lock" ∷ "**/bun.lock" ∷ "**/bun.lockb"
    ∷ "pnpm-workspace.yaml" ∷ ".npmrc" ∷ ".env*" ∷ []

-- The last two cases of the `switch`.
unfoldable pub match_suffix : String → String → Bool
unfolding cut_suffix cut_prefix base_path
match_suffix pattern path = elim (cut_suffix pattern "*") [
  | some stem ↦ is_some (cut_prefix (base_path path) stem)
  | none ↦ path == pattern
]

-- The case of a pattern that begins with `**/`, and the cases behind it.
unfoldable pub match_name : String → String → Bool
unfolding match_suffix cut_prefix base_path
match_name pattern path = elim (cut_prefix pattern "**/") [
  | some name ↦ base_path path == name
  | none ↦ match_suffix pattern path
]

unfoldable pub deny_match : String → String → Bool
unfolding match_name cut_suffix cut_prefix
deny_match pattern path = elim (cut_suffix pattern "/**") [
  | some dir ↦ path == dir || is_some (cut_prefix path (dir ⧺ "/"))
  | none ↦ match_name pattern path
]

abbrev pub patterns : Policy → List String
patterns policy = default_deny ++ policy.deny

-- The first changed path that a pattern denies, if there is one. Go's pair `(true, path)` is `some
-- path`, and `(false, "")` is `none`.
unfoldable pub push_refused : List String → Policy → Option String
push_refused changed_paths policy =
    find_first (λ path. any (λ pattern. deny_match pattern path) (patterns policy)) changed_paths

unfoldable pub pr_body : String → ℕ → String
pr_body base_branch blocker_pr_number =
    if base_branch == default_base_branch || blocker_pr_number == 0
    then ""
    else "Merge after #" ⧺ decimal blocker_pr_number
