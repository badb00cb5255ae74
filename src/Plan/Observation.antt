-- ===== src/Plan/Observation.antt =====
-- internal/plan/observation.go and internal/plan/rules.go: what is observed of GitHub, the worktrees and
-- the runs, and the rules that the settings of the repositories give. Times are nanoseconds since the
-- zero time.
pub mod Effective
use command_center.Prelude.{
  ℕ, String, Bool, true, false, not, List, [], ◌∷◌, is_empty, nat_eq, string_eq, Map, insert,
  get_or,
}
use command_center.Plan.Ids.{TicketUrl, Sha, BranchRef, branch_ref_eq}
use command_center.Plan.Workflow.{Workflow}
use command_center.Plan.Verdict.{Predicate, zero_predicate}
use command_center.Plan.Ticket.{PrState, absent, pr_state_eq}

pub record CheckState : Type 0 where
  pub name : String
  pub status : String
  pub conclusion : String
  pub details_url : String
  pub started_at : ℕ
  pub completed_at : ℕ

pub record Pr : Type 0 where
  pub number : ℕ
  pub head_ref : String
  pub head_oid : Sha
  pub base_ref : String
  pub base_oid : Sha
  pub author_login : String
  pub is_draft : Bool
  pub state : PrState
  pub checks : Map String CheckState
  pub labels : List String
  pub merged_at : ℕ

-- The pull request that Go reads where there is none.
abbrev pub zero_pr : Pr
zero_pr = record {
  number = 0;
  head_ref = "";
  head_oid = "";
  base_ref = "";
  base_oid = "";
  author_login = "";
  is_draft = false;
  state = absent;
  checks = [];
  labels = [];
  merged_at = 0;
}

pub record RepoSettings : Type 0 where
  pub tracker : String
  pub stacking : Bool
  pub compat_check : String
  pub mergify_sha : String
  pub deny : List String
  pub checks : Predicate
  pub verify_command : List String

abbrev pub zero_settings : RepoSettings
zero_settings = record {
  tracker = "";
  stacking = false;
  compat_check = "";
  mergify_sha = "";
  deny = [];
  checks = zero_predicate;
  verify_command = [];
}

-- `runs` holds the field `Alive` of the observed runs.
pub record Observation : Type 0 where
  pub observed_at : ℕ
  pub prs : Map BranchRef Pr
  pub worktrees : Map BranchRef String
  pub runs : Map TicketUrl Bool
  pub mergify_hash : Map String String
  pub branch_tips : Map BranchRef Sha
  pub local_tips : Map BranchRef Sha
  pub titles : Map TicketUrl String
  pub mid_merge : Map BranchRef Bool
  pub conflicts_with_base : Map BranchRef Bool
  pub conflicts_with_peer : Map BranchRef (Map BranchRef Bool)
  pub settings : Map String RepoSettings
  pub settings_errors : Map String String
  pub settings_sources : Map String String
  pub repo_errors : Map String String
  pub questions : Map ℕ String

unfoldable pub new_observation : ℕ → Observation
new_observation at = record {
  observed_at = at;
  prs = [];
  worktrees = [];
  runs = [];
  mergify_hash = [];
  branch_tips = [];
  local_tips = [];
  titles = [];
  mid_merge = [];
  conflicts_with_base = [];
  conflicts_with_peer = [];
  settings = [];
  settings_errors = [];
  settings_sources = [];
  repo_errors = [];
  questions = [];
}

unfoldable pub mark_alive : Observation → TicketUrl → Observation
mark_alive o url = record o { runs = insert url true o.runs }

-- The reads of the maps, with Go's zero values.
unfoldable pub pr_at : Observation → BranchRef → Pr
pr_at o b = get_or b zero_pr o.prs

unfoldable pub is_alive : Observation → TicketUrl → Bool
is_alive o url = get_or url false o.runs

unfoldable pub is_mid_merge : Observation → BranchRef → Bool
is_mid_merge o b = get_or b false o.mid_merge

unfoldable pub conflicts_with_base_at : Observation → BranchRef → Bool
conflicts_with_base_at o b = get_or b false o.conflicts_with_base

unfoldable pub conflicts_with_peer_at : Observation → BranchRef → BranchRef → Bool
conflicts_with_peer_at o a b = get_or b false (get_or a [] o.conflicts_with_peer)

unfoldable pub tip_at : Observation → BranchRef → Sha
tip_at o b = get_or b "" o.branch_tips

unfoldable pub local_tip_at : Observation → BranchRef → Sha
local_tip_at o b = get_or b "" o.local_tips

pub record Rules : Type 0 where
  pub stacking : Map String Bool
  pub deny : Map String (List String)
  pub checks : Map String Predicate
  pub mergify_sha : Map String String
  pub compat_check : Map String String
  pub verify : Map String Bool
  pub workflows : Map String Workflow
  pub max_agents : ℕ
  pub spend_limit_5h : ℕ

pub record Daemon : Type 0 where
  pub max_agents : ℕ
  pub spend_limit_5h : ℕ
  pub workflows : Map String Workflow

-- The closure `add` of `RulesFor`.
unfoldable pub add_rules : Rules → String → RepoSettings → Rules
add_rules r name s = record r {
  stacking = insert name s.stacking r.stacking;
  deny = insert name s.deny r.deny;
  checks = insert name s.checks r.checks;
  mergify_sha = insert name s.mergify_sha r.mergify_sha;
  compat_check = insert name s.compat_check r.compat_check;
  verify = insert name (not (is_empty s.verify_command)) r.verify;
}

unfoldable pub add_errors : Rules → Map String String → Rules
unfolding add_rules
add_errors r [] = r
add_errors r ((name, e) ∷ m) = add_errors (add_rules r name zero_settings) m

unfoldable pub add_settings : Rules → Map String RepoSettings → Rules
unfolding add_rules
add_settings r [] = r
add_settings r ((name, s) ∷ m) = add_settings (add_rules r name s) m

abbrev pub empty_rules : Daemon → Rules
empty_rules d = record {
  stacking = [];
  deny = [];
  checks = [];
  mergify_sha = [];
  compat_check = [];
  verify = [];
  workflows = d.workflows;
  max_agents = d.max_agents;
  spend_limit_5h = d.spend_limit_5h;
}

unfoldable pub rules_for : Daemon → Observation → Rules
unfolding add_errors add_settings
rules_for d o = add_settings (add_errors (empty_rules d) o.settings_errors) o.settings
