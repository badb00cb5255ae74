-- ===== src/Loop/Launches.antt =====
-- internal/loop/loop.go and steps.go: the eligible tickets are launched. A new ticket has its worktree
-- cut, and one with a run goes on to the next step of its workflow.
pub mod Capped
use command_center.Prelude.{
  ℕ, String, ◌⧺◌, decimal, trim_space, ◌⊎◌, inl, inr, Bool, true, false, not, ◌&&◌, ◌||◌, Option,
  none, some, List, [], ◌∷◌, ◌++◌, if◌then◌else◌, is_some, is_empty, contains, nat_eq, string_eq,
  ◌==◌, ◌!=◌, Map, lookup, get_or, unwrap_or, length,
}
use command_center.Plan.Ids.{TicketUrl, Sha, branch_ref_eq}
use command_center.Plan.Vocab.{RunKind, run_kind_agent, run_kind_command}
use command_center.Plan.Outcome.{disposition}
use command_center.Plan.Workflow.{Workflow, Step, StepRun, first, pass_of}
use command_center.Plan.Ticket.{Ticket, AgentChoice, zero_choice}
use command_center.Plan.Compose.{compose, compose_step, compose_asking}
use command_center.Plan.Observation.{Observation}
use command_center.Plan.Input.{Entry, RunSummary}
use command_center.Plan.Snapshot.{Snapshot, launch_after}
use command_center.Store.Db.{Result, ok, err, outside, TicketRow, ◌>>=◌, ◌>>◌, pure, raise}
use command_center.Store.Runs.{
  RunSession, RunSkeleton, Disposition, insert_session_run_skeleton, insert_cut_failed_run,
  record_spawn, record_disposition, latest_runs_by_ticket, pass_runs,
}
use command_center.Store.Events.{event_cut_failed, event_spawn_failed, event_run_launched}
use command_center.Store.Tickets.{row_ref}
use command_center.Loop.Machine.{
  Act, Done, Outside, Config, SpawnConfig, new_worktree, branch_tip, worktree_paths, write_file,
  create_file, close_file, spawn, in_store, ask, attempt, get_state, now, event, checkout, run_file,
  settings_of, zero_ticket_row, entry_or_zero,
}
use command_center.Loop.Intents.{is_steerable_kind}
use command_center.Loop.Push.{read_handoff}
use command_center.Loop.Runs.{workflow_by_hash}
use command_center.Loop.Spawn.{Start, SpawnSpec, zero_step, start_of, step_prompt, spawn_run}

abbrev pub cut_skeleton : TicketRow → String → Start → RunSkeleton
cut_skeleton ticket hash begin = record {
  ticket = ticket.url;
  kind = "";
  baseline_sha = "";
  prompt_hash = hash;
  choice = zero_choice;
  session = record { start_new = false; join_id = ""; message = "" };
  step = begin.step.name;
  workflow = begin.workflow.name;
  workflow_hash = begin.workflow.hash;
}

module _ (o : Outside) (c : Config) (system_prompt : String) where
  abbrev pub cut_failed_with : TicketRow → String → Start → String → Act Unit
  cut_failed_with ticket hash begin e = do
    at ← now o
    id ← in_store (insert_cut_failed_run (cut_skeleton ticket hash begin) at)
    event o ticket.url event_cut_failed e

  abbrev pub not_listed : String → String
  not_listed branch =
      "tp new " ⧺ branch ⧺ " reported success but git worktree list does not show it"

  abbrev pub agent_spec :
      TicketRow → Ticket → String → Start → String → Sha → List StepRun → SpawnSpec
  agent_spec ticket launched hash begin worktree baseline pass = record {
    ticket = ticket;
    worktree = worktree;
    baseline = baseline;
    hash = hash;
    prompt = step_prompt ticket launched begin.step pass;
    kind = run_kind_agent;
    choice = launched.choice;
    resume_session_id = "";
    message = "";
    workflow = begin.workflow;
    step = begin.step;
    verify = begin.verify;
  }

  abbrev pub spawn_in : TicketRow → Ticket → String → Start → Sha → Option String → Act Unit
  spawn_in ticket launched hash begin baseline none = raise (outside (not_listed ticket.branch))
  spawn_in ticket launched hash begin baseline (some worktree) =
      spawn_run o c system_prompt (agent_spec ticket launched hash begin worktree baseline [])

  abbrev pub after_cut : TicketRow → Ticket → String → Start → Done → Act Unit
  after_cut ticket launched hash begin (inl e) = cut_failed_with ticket hash begin e
  after_cut ticket launched hash begin (inr _) = do
    let repo = checkout c ticket.repo
    baseline ← ask (branch_tip repo ticket.branch) o.sha
    paths ← ask (worktree_paths repo) o.pairs
    spawn_in ticket launched hash begin baseline (lookup ticket.branch paths)

  unfoldable pub cut_and_spawn : TicketRow → Ticket → String → String → Start → Act Unit
  unfolding spawn_run insert_cut_failed_run event step_prompt
  cut_and_spawn ticket launched base_branch hash begin = do
    answer ←
        attempt (new_worktree (checkout c ticket.repo) ticket.branch ("origin/" ⧺ base_branch))
          o.done
    after_cut ticket launched hash begin answer

  unfoldable pub read_handoffs : List StepRun → Act (List StepRun)
  unfolding read_handoff
  read_handoffs [] = pure []
  read_handoffs (r ∷ rs) = do
    handoff ← read_handoff o c r.id
    rest ← read_handoffs rs
    pure (record r { handoff = handoff } ∷ rest)

  -- The summary of a ticket without a run is Go's zero summary, whose workflow hash is empty.
  abbrev pub hash_of : Option RunSummary → String
  hash_of none = ""
  hash_of (some r) = r.workflow_hash

  abbrev pub prompt_hash_of : Option RunSummary → String
  prompt_hash_of none = ""
  prompt_hash_of (some r) = r.prompt_hash

  -- `entry.Next.Step.Unwrap()`, which panics where there is no step and is the zero step here.
  abbrev pub next_step : Entry → Step
  next_step e = unwrap_or e.next.step zero_step

  abbrev pub advance_in : TicketRow → Entry → Workflow → String → String → Act Unit
  advance_in ticket e w hash worktree = do
    s ← get_state
    let verify = (settings_of s.obs ticket.repo).verify_command
    passes ← in_store pass_runs
    pass ← read_handoffs (pass_of w (get_or ticket.url [] passes) (not (is_empty verify)))
    baseline ← ask (branch_tip (checkout c ticket.repo) ticket.branch) o.sha
    spawn_run o c system_prompt (
        agent_spec ticket e.ticket hash
          (record { workflow = w; step = next_step e; verify = verify }) worktree baseline pass)

  abbrev pub advance_with : TicketRow → Entry → String → Option Workflow → Option String → Act Unit
  advance_with ticket e hash none worktree = pure tt
  advance_with ticket e hash (some w) none =
      event o ticket.url event_spawn_failed "no worktree to continue the workflow in"
  advance_with ticket e hash (some w) (some worktree) = advance_in ticket e w hash worktree

  unfoldable pub advance_pass : TicketRow → Entry → Act Unit
  unfolding latest_runs_by_ticket workflow_by_hash pass_runs read_handoffs spawn_run event
  advance_pass ticket e = do
    latest ← in_store latest_runs_by_ticket
    let found = lookup ticket.url latest
    s ← get_state
    advance_with ticket e (prompt_hash_of found) (workflow_by_hash c.workflows (hash_of found))
        (lookup (row_ref ticket) s.obs.worktrees)

  abbrev pub launch_one : TicketRow → Entry → Act Unit
  launch_one ticket e s =
      (if is_some e.run
          then advance_pass ticket e
          else cut_and_spawn ticket e.ticket e.unlock.base_branch e.prompt_hash
              (start_of c e s.obs))
        s

  unfoldable pub launch_each : Snapshot → Map TicketUrl TicketRow → List TicketUrl → Act Unit
  unfolding advance_pass cut_and_spawn start_of
  launch_each snap tickets [] = pure tt
  launch_each snap tickets (url ∷ urls) = do
    s ← get_state
    if contains s.spawned url
        then pure tt
        else launch_one (get_or url zero_ticket_row tickets) (entry_or_zero snap url)
    launch_each snap tickets urls

  unfoldable pub launch_eligible : Snapshot → Map TicketUrl TicketRow → Act Unit
  unfolding launch_each launch_after
  launch_eligible snap tickets s = launch_each snap tickets (launch_after snap (length s.spawned)) s
