-- ===== src/Plan/Examples/Snapshots.antt =====
-- Derived snapshots, and the dependency graph.
use command_center.Prelude.{
  ℕ, ◌≤◌, String, ◌≡◌, refl, sym, ◌⊎◌, true, false, none, some, List, [], ◌∷◌, arith, find_first,
  In, here, nat_eq, string_eq, Map, lookup, insert, get_or,
}
use command_center.Plan.Ids.{TicketUrl, branch_ref_eq}
use command_center.Plan.Vocab.{verb_refresh}
use command_center.Plan.Ticket.{Ticket, Tickets, PrStates, unlock_on, unlocked, pr_of, opened}
use command_center.Plan.State.{State}
use command_center.Plan.Workflow.{zero_next}
use command_center.Plan.Observation.{Observation, pr_at}
use command_center.Plan.Peers.{conflicting_peer_hold}
use command_center.Plan.Derive.{tickets_by_url, prs_by_branch, run_for, conflicted_base}
use command_center.Plan.Snapshot.{Snapshot, entry, launch_after}
use command_center.Plan.Build.{derive, derive_ticket}
use command_center.Plan.Build.Index.{entry_of, derive-entry}
use command_center.Plan.Build.Launched.{Authorised, launched-Authorised}
use command_center.Plan.Gates.{refreshes}
use command_center.Plan.Gates.Refreshes.{refreshes_of, refreshes-once}
use command_center.Plan.Stack.{stack_depth, unlocks}
use command_center.Plan.Stack.Unlocks.{unlocks-lists}
use command_center.Plan.Stack.Depth.{stack_depth-ends}
use command_center.Plan.Input.{Entry}
use command_center.Prelude.{subst}
use command_center.Plan.Launch.{launch_plan, picked, eligible}
use command_center.Plan.Spend.{paused}
use command_center.Plan.Compose.{compose}
use command_center.Prelude.{◌==◌, ◌&&◌, Bool, any, contains}
use command_center.Plan.Snapshot.{skipping}
use command_center.Plan.Snapshot.Skipping.{is_kept, skipping-entry}
use command_center.Plan.Examples.Data.{
  base, top, beside, ref_of, pushed_run, percents, plain_rules, plain_input, conflicting,
}

-- The maps that the derivation of the plain input starts from.
abbrev by_url : Tickets
by_url = tickets_by_url plain_input.tickets []

abbrev prs : PrStates
prs = prs_by_branch plain_input.obs plain_input.tickets []

abbrev peers : Map TicketUrl String
peers = conflicting_peer_hold plain_rules plain_input.tickets by_url prs plain_input.obs

derive-entry_example :
    entry (derive percents (λ text. text) plain_rules plain_input) "t/2"
    ≡ entry_of (λ text. text) plain_rules plain_input by_url prs peers (lookup "t/2" by_url)
derive-entry_example = derive-entry percents (λ text. text) plain_rules plain_input "t/2"

launched : launch_after (derive percents (λ text. text) plain_rules plain_input) 0 ≡ "t/1" ∷ []
unfolding launch_after derive launch_plan paused derive_ticket lookup picked run_for eligible
    unlocked get_or compose conflicted_base tickets_by_url insert pr_of prs_by_branch pr_at
launched = refl

launched-Authorised_example :
    (t : Ticket) × In t plain_input.tickets
    × (t.url ≡ "t/1")
    × (let d = derive_ticket (λ text. text) plain_rules plain_input by_url prs peers t in
        (d.candidate.in_flight ≡ true) ⊎ Authorised (λ text. text) plain_input t d)
launched-Authorised_example =
    launched-Authorised percents (λ text. text) plain_rules plain_input 0 "t/1"
      (subst (In "t/1") (sym launched) (here refl))

-- Three tickets, of which the third conflicts with the first.
abbrev listed : List Ticket
listed = beside ∷ base ∷ top ∷ []

abbrev listed_by_url : Tickets
listed_by_url = ("t/1", base) ∷ ("t/2", top) ∷ ("t/3", beside) ∷ []

abbrev both_opened : PrStates
both_opened = ("cc-1-base", opened) ∷ ("cc-3-beside", opened) ∷ []

-- A ticket whose run has ended as a push.
abbrev pushed_entry : Entry
pushed_entry = record {
  ticket = base;
  unlock = unlock_on "main" "no blockers";
  state = State.queued;
  reason = "";
  run = some pushed_run;
  elapsed = none;
  log_path = "";
  conflicted_base = "";
  draft_reason = "";
  launch_id = 7;
  base = "main";
  ready_to_undraft = false;
  opens_as_draft = false;
  prompt_hash = "";
  last_push = none;
  restacked = false;
  next = zero_next;
  workflow = "";
}

-- The observation, in which the branch has a local tip.
abbrev tipped : Observation
tipped = record conflicting { local_tips = (ref_of "cc-1-base", "abc") ∷ [] }

abbrev pushing : Snapshot
pushing = record {
  entries = pushed_entry ∷ [];
  by_url = ("t/1", 0) ∷ [];
  launch = [];
  running = 0;
  max_agents = 2;
  spend_paused = false;
  intents = ("t/1", record { id = 1; ticket = "t/1"; verb = verb_refresh; payload = "" } ∷ []) ∷ [];
  sessions = [];
  removals = [];
  transitions = [];
  verdicts = [];
  repos = [];
  obs = tipped;
  refreshes = [];
}

refreshes-once_example : refreshes_of "t/1" (refreshes pushing) ≤ 1
refreshes-once_example = refreshes-once pushing "t/1" (omega arith)

-- Two branches that are stacked on each other.
stack_depth-ends_example :
    (d : ℕ) × (stack_depth "a" (("a", "b") ∷ ("b", "a") ∷ []) ≡ some d) × (d ≤ 2)
stack_depth-ends_example = stack_depth-ends "a" (("a", "b") ∷ ("b", "a") ∷ [])

abbrev app_skipped : Map String Bool
app_skipped = ("o/app", true) ∷ []

skipping-entry_example :
    entry (skipping pushing app_skipped) "t/1"
    ≡ find_first (is_kept app_skipped "t/1") pushing.entries
skipping-entry_example = skipping-entry pushing app_skipped "t/1" refl (omega arith)

unlocks-lists_example :
    contains (get_or base.url [] (unlocks (base ∷ top ∷ []))) top.url
    ≡ any (λ (t : Ticket). (t.url == top.url) && contains t.blocked_by base.url) (base ∷ top ∷ [])
unlocks-lists_example = unlocks-lists (base ∷ top ∷ []) base.url top.url
