-- ===== src/Loop/Spawn.antt =====
-- internal/loop/loop.go and steps.go: runs of agents and commands are started.
pub mod Started
use command_center.Prelude.{
  ℕ, String, ◌⧺◌, decimal, trim_space, ◌⊎◌, inl, inr, Bool, true, false, not, ◌&&◌, ◌||◌, Option,
  none, some, List, [], ◌∷◌, ◌++◌, if◌then◌else◌, is_some, is_empty, contains, nat_eq, string_eq,
  ◌==◌, ◌!=◌, Map, lookup, get_or, unwrap_or, length,
}
use command_center.Plan.Ids.{TicketUrl, Sha, branch_ref_eq}
use command_center.Plan.Vocab.{RunKind, run_kind_agent, run_kind_command}
use command_center.Plan.Outcome.{disposition}
use command_center.Plan.Workflow.{Workflow, Step, StepRun, first, pass_of}
use command_center.Plan.Ticket.{Ticket, AgentChoice, zero_choice}
use command_center.Plan.Compose.{compose, compose_step, compose_asking}
use command_center.Plan.Observation.{Observation}
use command_center.Plan.Input.{Entry, RunSummary}
use command_center.Plan.Snapshot.{Snapshot, launch_after}
use command_center.Store.Db.{Result, ok, err, outside, TicketRow, ◌>>=◌, ◌>>◌, pure, raise}
use command_center.Store.Runs.{
  RunSession, RunSkeleton, Disposition, insert_session_run_skeleton, insert_cut_failed_run,
  record_spawn, record_disposition, latest_runs_by_ticket, pass_runs,
}
use command_center.Store.Events.{event_cut_failed, event_spawn_failed, event_run_launched}
use command_center.Store.Tickets.{row_ref}
use command_center.Loop.Machine.{
  Act, Done, Outside, Config, SpawnConfig, new_worktree, branch_tip, worktree_paths, write_file,
  create_file, close_file, spawn, in_store, ask, attempt, get_state, now, event, checkout, run_file,
  settings_of, zero_ticket_row, entry_or_zero,
}
use command_center.Loop.Intents.{is_steerable_kind}
use command_center.Loop.Push.{read_handoff}
use command_center.Loop.Runs.{workflow_by_hash}

abbrev pub default_workflow : String
default_workflow = "v0"

abbrev pub agent_model : String
agent_model = "claude-sonnet-5-5"

pub record Start : Type 0 where
  pub workflow : Workflow
  pub step : Step
  pub verify : List String

pub record SpawnSpec : Type 0 where
  pub ticket : TicketRow
  pub worktree : String
  pub baseline : Sha
  pub hash : String
  pub prompt : String
  pub kind : RunKind
  pub choice : AgentChoice
  pub resume_session_id : String
  pub message : String
  pub workflow : Workflow
  pub step : Step
  pub verify : List String

abbrev pub zero_step : Step
zero_step = record {
  name = "";
  command = false;
  model = "";
  tools = [];
  prompt = "";
  writes = false;
  on_fail = false;
}

abbrev pub zero_workflow : Workflow
zero_workflow = record { name = ""; hash = ""; steps = []; max_fix_rounds = 0 }

-- Go's `steps[0]`, which panics on a workflow without steps and is the zero step here.
abbrev pub first_step : List Step → Step
first_step [] = zero_step
first_step (s ∷ ss) = s

abbrev pub default_of : Config → Workflow
default_of c = get_or default_workflow zero_workflow c.workflows

unfoldable pub start_of : Config → Entry → Observation → Start
unfolding first
start_of c e obs =
    let w = get_or e.workflow (default_of c) c.workflows in
    let verify = (settings_of obs e.ticket.repo).verify_command in
    record {
      workflow = w;
      step = unwrap_or (first w (not (is_empty verify))) (first_step w.steps);
      verify = verify;
    }

unfoldable pub session_of : SpawnSpec → RunSession
session_of spec =
    if spec.resume_session_id != ""
    then record { start_new = false; join_id = spec.resume_session_id; message = spec.message }
    else if is_steerable_kind spec.kind
    then record { start_new = true; join_id = ""; message = spec.message }
    else record { start_new = false; join_id = ""; message = "" }

abbrev pub with_body : String → String → String → String
with_body heading body prompt = if body != "" then prompt ⧺ heading ⧺ body else prompt

unfoldable pub agent_prompt : TicketRow → Ticket → String
unfolding compose
agent_prompt ticket launched = with_body "\n\n## Ticket\n\n" ticket.body (compose launched)

unfoldable pub step_prompt : TicketRow → Ticket → Step → List StepRun → String
unfolding agent_prompt compose_step trim_space
step_prompt ticket launched step pass =
    if step.prompt == ""
    then agent_prompt ticket launched
    else with_body "\n\n## Ticket body\n\n" ticket.body
        (trim_space (compose_step launched (record step { prompt = "" }) pass))

-- A spec without a workflow is of the first step of the default one.
abbrev pub with_workflow : Config → SpawnSpec → SpawnSpec
with_workflow c spec =
    if spec.workflow.name == ""
    then record spec { workflow = default_of c; step = first_step (default_of c).steps }
    else spec

abbrev pub kind_of : SpawnSpec → RunKind
kind_of spec = if spec.step.command then run_kind_command else spec.kind

abbrev pub choice_of : SpawnSpec → AgentChoice
choice_of spec =
    if spec.step.command
    then zero_choice
    else if spec.step.model != ""
    then record { model = spec.step.model; effort = none }
    else if spec.choice.model == ""
    then record spec.choice { model = agent_model }
    else spec.choice

abbrev pub skeleton_of : SpawnSpec → RunSkeleton
skeleton_of spec = record {
  ticket = spec.ticket.url;
  kind = kind_of spec;
  baseline_sha = spec.baseline;
  prompt_hash = spec.hash;
  choice = choice_of spec;
  session = session_of (record spec { kind = kind_of spec });
  step = spec.step.name;
  workflow = spec.workflow.name;
  workflow_hash = spec.workflow.hash;
}

abbrev pub can_ask : SpawnSpec → Bool
can_ask spec =
    not spec.step.command
    && (is_empty spec.step.tools || contains spec.step.tools "Write")
    && is_steerable_kind (kind_of spec)

abbrev pub prompt_of : SpawnSpec → String → String
prompt_of spec question_path =
    if can_ask spec then spec.prompt ⧺ compose_asking question_path else spec.prompt

abbrev pub launched_detail : SpawnSpec → ℕ → String
launched_detail spec pid =
    let detail = "spawned pid " ⧺ decimal pid ⧺ " in " ⧺ spec.worktree in
    if spec.baseline != "" then detail ⧺ " from " ⧺ spec.baseline else detail

module _ (o : Outside) (c : Config) (system_prompt : String) where
  abbrev pub write_prompt : String → String → Bool → Act Unit
  write_prompt path prompt skipped =
      if skipped then pure tt else ask (write_file path prompt) o.done >>= λ _. pure tt

  -- The path of the system prompt, which is written for a step with a prompt of its own.
  unfoldable pub system_prompt_for : ℕ → SpawnSpec → Act String
  system_prompt_for id spec =
      let path = run_file c id "system.md" in
      let own : Act String =
        ask (write_file path (system_prompt ⧺ "\n" ⧺ spec.step.prompt)) o.done >>= λ _. pure path in
      if spec.step.prompt == "" || spec.step.command then pure c.system_prompt_path else own

  -- The deferred close of a file: its error is an error whatever the body gave.
  abbrev pub after_close : {A : Type 0} → Result A → Done → Act A
  after_close r (inl e) = raise (outside e)
  after_close (err x) (inr _) = raise x
  after_close (ok a) (inr _) = pure a

  abbrev pub closing : {A : Type 0} → String → Act A → Act A
  closing path body s =
      let (r, t) = body s in (attempt (close_file path) o.done >>= after_close r) t

  abbrev pub agent_config : SpawnSpec → ℕ → String → String → String → SpawnConfig
  agent_config spec id session prompt system_path = record {
    agent_command = c.agent_command;
    worktree_path = spec.worktree;
    settings_path = c.settings_path;
    system_prompt_path = if kind_of spec == run_kind_agent then system_path else "";
    model = (choice_of spec).model;
    effort = (choice_of spec).effort;
    tools = spec.step.tools;
    prompt = prompt;
    prompt_path = run_file c id "prompt";
    session_id = session;
    resume = spec.resume_session_id != "";
  }

  abbrev pub command_config : SpawnSpec → SpawnConfig
  command_config spec = record {
    agent_command = spec.verify;
    worktree_path = spec.worktree;
    settings_path = "";
    system_prompt_path = "";
    model = "";
    effort = none;
    tools = [];
    prompt = "";
    prompt_path = "";
    session_id = "";
    resume = false;
  }

  abbrev pub failed_spawn : ℕ → ℕ → Disposition
  failed_spawn id at = record {
    run_id = id;
    outcome = disposition 0;
    exit_code = none;
    cost = none;
    last_message = none;
    metrics = none;
    ended_at = at;
  }

  abbrev pub add_spawned : TicketUrl → Act Unit
  add_spawned url s = (ok tt, record s { spawned = s.spawned ++ url ∷ [] })

  -- A process that does not start is a failed run; one that does is recorded.
  abbrev pub after_spawn : SpawnSpec → ℕ → String → String ⊎ ℕ → Act Unit
  after_spawn spec id log_path (inl e) = do
    at ← now o
    in_store (record_disposition (failed_spawn id at))
    event o spec.ticket.url event_spawn_failed e
  after_spawn spec id log_path (inr pid) = do
    at ← now o
    in_store
        (record_spawn (record { run_id = id; pgid = pid; started_at = at; log_path = log_path }))
    add_spawned spec.ticket.url
    event o spec.ticket.url event_run_launched (launched_detail spec pid)

  abbrev pub spawn_process : SpawnSpec → ℕ → String → String → String → Act Unit
  spawn_process spec id session prompt system_path = do
    let log_path = run_file c id "jsonl"
    let config =
        if spec.step.command
        then command_config spec
        else agent_config spec id session prompt system_path
    answer ← attempt (spawn config) o.number
    after_spawn spec id log_path answer

  -- `uuid` is the session id that the database draws.
  abbrev pub spawn_with : String → SpawnSpec → Act Unit
  spawn_with uuid spec = do
    row ← in_store (insert_session_run_skeleton uuid (skeleton_of spec))
    let prompt = prompt_of spec (run_file c row.0 "question")
    write_prompt (run_file c row.0 "prompt") prompt spec.step.command
    system_path ← system_prompt_for row.0 spec
    made ← ask (create_file (run_file c row.0 "jsonl")) o.done
    closing (run_file c row.0 "jsonl") (spawn_process spec row.0 row.1 prompt system_path)

  unfoldable pub spawn_run : SpawnSpec → Act Unit
  unfolding insert_session_run_skeleton system_prompt_for record_disposition record_spawn event
      disposition session_of compose_asking
  spawn_run spec s = spawn_with (o.uuid s.calls) (with_workflow c spec) s
