-- ===== src/Plan/Examples/Data.antt =====
-- Tickets, runs and inputs that the examples share.
use command_center.Prelude.{
  ℕ, ◌+◌, ◌*◌, String, true, false, none, some, [], ◌∷◌, nat_eq, string_eq,
}
use command_center.Prelude.Int.{pos}
use command_center.Plan.Ids.{TicketUrl, BranchRef}
use command_center.Plan.Outcome.{Outcome}
use command_center.Plan.Workflow.{Step, Workflow, StepRun, zero_next}
use command_center.Plan.Verdict
use command_center.Plan.Verdict.{Predicate, predicate, cons, nil, absent}
use command_center.Plan.Ticket.{Ticket, Tickets, PrStates, opened, zero_choice, unlock_on}
use command_center.Plan.Status.{RunFact, Facts}
use command_center.Plan.Launch.{LaunchCandidate}
use command_center.Plan.Observation
use command_center.Plan.Observation.{Rules, zero_pr}
use command_center.Plan.Spend.{Floats}
use command_center.Plan.Input
use command_center.Plan.Input.{LaunchMembership, zero_membership}

abbrev pub plain_step : String → Step
plain_step name = record {
  name = name;
  command = false;
  model = "";
  tools = [];
  prompt = "do it";
  writes = true;
  on_fail = false;
}

abbrev pub setup : Step
setup = plain_step "setup"

abbrev pub verify : Step
verify = plain_step "verify"

abbrev pub fix : Step
fix = record (plain_step "fix") { on_fail = true }

abbrev pub v1 : Workflow
v1 = record { name = "v1"; hash = "h1"; steps = setup ∷ verify ∷ fix ∷ []; max_fix_rounds = 2 }

abbrev pub failed_setup : StepRun
failed_setup = record {
  id = 1;
  step = "setup";
  command = false;
  alive = false;
  outcome = some Outcome.failed;
  handoff = none;
}

-- All of two checks, by name.
abbrev pub both_checks : Predicate
both_checks =
    predicate
      (cons (predicate nil nil absent "lint" "" "" "")
        (cons (predicate nil nil absent "test" "" "" "") nil))
      nil absent "" "" "" ""

abbrev pub green_input : Verdict.Input
green_input = record {
  checks = ("lint", Verdict.CheckState.success) ∷ ("test", Verdict.CheckState.success) ∷ [];
  head_oid_match = true;
  stacked_base = false;
  base_sha_match = false;
  config_hash_ok = true;
  pushed_at = 0;
  now = 5;
  author_login = "octocat";
  compat_check = "";
}

-- `base` is not blocked, and `top` is blocked by it.
abbrev pub base : Ticket
base = record {
  url = "t/1";
  repo = "o/app";
  branch = "cc-1-base";
  blocked_by = [];
  worked_example_branch = "";
  launch_context = "";
  choice = zero_choice;
}

abbrev pub top : Ticket
top = record base { url = "t/2"; branch = "cc-2-top"; blocked_by = "t/1" ∷ [] }

abbrev pub tracked : Tickets
tracked = ("t/1", base) ∷ ("t/2", top) ∷ []

abbrev pub base_opened : PrStates
base_opened = ("cc-1-base", opened) ∷ []

abbrev pub pushed_run : RunFact
pushed_run = record {
  alive = false;
  outcome = some Outcome.push;
  log_path = "";
  push_refused = false;
  push_refused_path = "";
  push_failed = false;
  pr_open = true;
  pr_merged = false;
  pr_closed_unmerged = false;
  verdict = some (record { kind = Verdict.Kind.review_me; reason = "green"; red_leaves = [] });
  refresh_refused = false;
  refresh_refused_reason = "";
  mid_merge = false;
  conflicts_with_main = false;
  conflicts_with_main_reason = "";
  conflicting_peer = "";
  verification_failed = false;
  verification_failed_reason = "";
  question = "";
  next = none;
}

abbrev pub pushed_facts : Facts
pushed_facts = record {
  unlock = unlock_on "main" "no blockers";
  authorised = true;
  latest_run = some pushed_run;
  cancelled_member = false;
  conflicted_base = "";
}

abbrev pub waiting_candidate : TicketUrl → LaunchCandidate
waiting_candidate url = record {
  url = url;
  unlock = unlock_on "main" "no blockers";
  authorised = true;
  prompt_hash_matches = true;
  has_run = false;
  conflicted_base = "";
  next = zero_next;
  in_flight = false;
}

-- Whole percents.
abbrev pub percents : Floats ℕ
percents = record {
  times = λ (a b : ℕ). a * b;
  plus = λ (a b : ℕ). a + b;
  hundred = 1;
  half = 0;
  truncate = pos;
}

abbrev pub plain_rules : Rules
plain_rules = record {
  stacking = ("o/app", true) ∷ [];
  deny = [];
  checks = [];
  mergify_sha = [];
  compat_check = [];
  verify = [];
  workflows = [];
  max_agents = 2;
  spend_limit_5h = 90;
}

-- The prompt of `base`, whose hash is the prompt itself here.
abbrev pub in_launch : LaunchMembership
in_launch = record zero_membership { launch_id = 7; prompt_hash = "/implement t/1" }

abbrev pub empty_observation : Observation.Observation
empty_observation = record {
  observed_at = 0;
  prs = [];
  worktrees = [];
  runs = [];
  mergify_hash = [];
  branch_tips = [];
  local_tips = [];
  titles = [];
  mid_merge = [];
  conflicts_with_base = [];
  conflicts_with_peer = [];
  settings = [];
  settings_errors = [];
  settings_sources = [];
  repo_errors = [];
  questions = [];
}

abbrev pub plain_input : Input.Input ℕ
plain_input = record {
  now = 0;
  observed = true;
  tickets = base ∷ top ∷ [];
  obs = empty_observation;
  prev = empty_observation;
  repos = [];
  memberships = ("t/1", in_launch) ∷ [];
  runs = [];
  pushes = [];
  refreshes = [];
  restacked = [];
  sessions = [];
  recorded = [];
  last_verdicts = [];
  verdict = record { push_rows = []; checking_for = [] };
  intents = [];
  removals = [];
  five_hour = 40;
  passes = [];
}

-- Two open pull requests of `base` and of a ticket beside it, which conflict.
abbrev pub beside : Ticket
beside = record base { url = "t/3"; branch = "cc-3-beside" }

abbrev pub ref_of : String → BranchRef
ref_of branch = record { repo = "o/app"; branch = branch }

abbrev pub conflicting : Observation.Observation
conflicting = record empty_observation {
  prs =
      (ref_of "cc-1-base", record zero_pr { state = opened })
      ∷ (ref_of "cc-3-beside", record zero_pr { state = opened })
      ∷ [];
  conflicts_with_peer = (ref_of "cc-3-beside", (ref_of "cc-1-base", true) ∷ []) ∷ [];
}
