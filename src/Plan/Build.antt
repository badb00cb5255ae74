-- ===== src/Plan/Build.antt =====
-- internal/plan/derive.go, `Derive`: the snapshot of an input. `hash` is SHA-256 in hexadecimal.
pub mod Index
pub mod Launched
use command_center.Prelude.{
  zero, suc, String, refl, Bool, true, false, not, ◌&&◌, ◌||◌, Option, none, some, List, [], ◌∷◌,
  ◌++◌, arith, if◌then◌else◌, is_some, is_none, length, is_empty, ◌==◌, ◌!=◌, nat_eq, string_eq,
  Map, lookup, insert, get_or,
}
use command_center.Prelude.Int.{ℤ}
use command_center.Plan.Ids.{TicketUrl, Reason, branch_ref_eq}
use command_center.Plan.State.{State}
use command_center.Plan.Outcome.{Outcome}
use command_center.Plan.Workflow.{Workflow, Next, NextKind, next_run, next_done, next_park}
use command_center.Plan.Ticket.{
  Ticket, Tickets, PrStates, opened, pr_state_eq, ref, Unlock, unlocked, prospective_base,
}
use command_center.Plan.Status.{RunFact, Facts, status}
use command_center.Plan.Launch.{LaunchCandidate}
use command_center.Plan.Draft.{gating_blockers}
use command_center.Plan.Observation.{Rules, Pr, pr_at}
use command_center.Plan.Compose.{compose}
use command_center.Plan.Spend.{Floats, paused}
use command_center.Plan.Peers.{conflicting_peer_hold}
use command_center.Plan.Derive.{
  tickets_by_url, prs_by_branch, run_for, next_for, conflicted_base, draft_reason,
}
use command_center.Plan.Transitions.{transitions}
use command_center.Plan.Snapshot.{Snapshot, removal_for}
use command_center.Plan.Input
use command_center.Plan.Input.{Entry, LaunchMembership, RunSummary, zero_membership}

abbrev pub is_run : Next → Bool
is_run n = elim n.kind [ next_run ↦ true | next_done ↦ false | next_park ↦ false ]

-- The run with what comes next, where the workflow does not have exactly one step.
unfoldable pub with_next : Workflow → Next → Option RunFact → Option RunFact
with_next w next none = none
with_next w next (some fact) =
    if length w.steps == 1 then some fact else some (record fact { next = some next })

-- What the loop computes of a ticket.
pub record Derived : Type 0 where
  pub entry : Entry
  pub candidate : LaunchCandidate
  pub counts : Bool

-- The base of the branch: the prospective one while the ticket is not unlocked.
unfoldable pub base_of : Ticket → Tickets → Unlock → Bool → String
base_of t by_url unlock stacking =
    if unlock.base_branch == "" then prospective_base t by_url stacking else unlock.base_branch

-- The run counts against the agents: it has a process group, and it has not ended.
unfoldable pub counts_as_running : Option RunSummary → Option RunFact → Bool
counts_as_running (some summary) (some fact) = is_some summary.pgid && is_none fact.outcome
counts_as_running _ _ = false

unfoldable pub candidate_of :
    (String → String)
    → Ticket
    → Unlock
    → LaunchMembership
    → Option RunFact
    → String
    → Next
    → LaunchCandidate
candidate_of hash t unlock membership run conflicted next =
    let authorised = membership.launch_id != 0 in
    record {
      url = t.url;
      unlock = unlock;
      authorised = authorised;
      prompt_hash_matches = authorised && membership.prompt_hash == hash (compose t);
      has_run = is_some run;
      conflicted_base = conflicted;
      next = next;
      in_flight = is_some run && is_run next && is_some next.step;
    }

unfoldable pub status_in : Unlock → LaunchMembership → Option RunFact → String → State × Reason
status_in unlock membership run conflicted = status (record {
  unlock = unlock;
  authorised = membership.launch_id != 0;
  latest_run = run;
  cancelled_member = membership.cancelled;
  conflicted_base = conflicted;
})

module _ {F : Type 0} (hash : String → String) (r : Rules) (i : Input.Input F) where
  -- The body of the loop. `prs`, `by_url` and `peers` are of all tickets.
  unfoldable pub derive_ticket : Tickets → PrStates → Map TicketUrl String → Ticket → Derived
  unfolding base_of counts_as_running candidate_of status_in with_next
  derive_ticket by_url prs peers listed =
      let stacking = get_or listed.repo false r.stacking in
      let unlock = unlocked listed by_url prs stacking in
      let base = base_of listed by_url unlock stacking in
      let (fact, elapsed, log_path) = run_for r listed i (get_or listed.url "" peers) in
      let membership = get_or listed.url zero_membership i.memberships in
      let t = record listed { launch_context = membership.context; choice = membership.choice } in
      let conflicted = if conflicted_base t base i then base else "" in
      let (workflow, next) = next_for r t i membership.workflow in
      let run = with_next workflow next fact in
      let (state, reason) = status_in unlock membership run conflicted in
      let pr = pr_at i.obs (ref t) in
      let gating = gating_blockers t by_url in
      let (draft_why, ready_to_undraft) = draft_reason pr gating prs run in
      record {
        entry = record {
          ticket = t;
          unlock = unlock;
          state = state;
          reason = reason;
          run = run;
          elapsed = elapsed;
          log_path = log_path;
          conflicted_base = conflicted;
          draft_reason = draft_why;
          launch_id = membership.launch_id;
          base = base;
          ready_to_undraft = ready_to_undraft && pr.state == opened;
          opens_as_draft = not (is_empty gating);
          prompt_hash = membership.prompt_hash;
          last_push = lookup t.url i.verdict.push_rows;
          restacked = get_or t.url false i.restacked;
          next = next;
          workflow = membership.workflow;
        };
        candidate = candidate_of hash t unlock membership run conflicted next;
        counts = counts_as_running (lookup t.url i.runs) run;
      }

-- What a round of the loop adds to the snapshot; `pr` is the ticket's pull request.
unfoldable pub add_derived : Derived → Pr → Snapshot → Snapshot
add_derived d pr s =
    let url = d.entry.ticket.url in
    record s {
      launch = s.launch ++ d.candidate ∷ [];
      running = if d.counts then suc s.running else s.running;
      by_url = insert url (length s.entries) s.by_url;
      entries = s.entries ++ d.entry ∷ [];
      removals = insert url (removal_for d.entry pr) s.removals;
    }

module _ {F : Type 0} (ops : Floats F) (r : Rules) (i : Input.Input F) where
  unfoldable pub empty_snapshot : Snapshot
  empty_snapshot = record {
    entries = [];
    by_url = [];
    launch = [];
    running = 0;
    max_agents = r.max_agents;
    spend_paused = paused ops i.five_hour r.spend_limit_5h;
    intents = i.intents;
    sessions = i.sessions;
    removals = [];
    transitions = [];
    verdicts = [];
    repos = i.repos;
    obs = i.obs;
    refreshes = i.refreshes;
  }

module _ {F : Type 0} (hash : String → String) (r : Rules) (i : Input.Input F) where
  unfoldable pub derive_loop :
      Tickets → PrStates → Map TicketUrl String → List Ticket → Snapshot → Snapshot
  unfolding add_derived
  derive_loop by_url prs peers [] s = s
  derive_loop by_url prs peers (t ∷ ts) s =
      derive_loop by_url prs peers ts
        (add_derived (derive_ticket hash r i by_url prs peers t) (pr_at i.obs (ref t)) s)

module _ {F : Type 0} (ops : Floats F) (hash : String → String) where
  unfoldable pub derive : Rules → Input.Input F → Snapshot
  unfolding derive_loop empty_snapshot
  derive r i =
      let by_url = tickets_by_url i.tickets [] in
      let prs = prs_by_branch i.obs i.tickets [] in
      let peers = conflicting_peer_hold r i.tickets by_url prs i.obs in
      let (events, words) = transitions r i in
      record (derive_loop hash r i by_url prs peers i.tickets (empty_snapshot ops r i)) {
        transitions = events;
        verdicts = words;
      }
