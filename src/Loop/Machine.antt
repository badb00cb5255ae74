-- ===== src/Loop/Machine.antt =====
-- internal/loop/loop.go and deps.go: the state of a tick, and what the loop asks of the programs and
-- files outside it. Each question is a call that is kept in the order in which it was made.
use command_center.Prelude.{
  ℕ, suc, String, ◌⧺◌, decimal, ◌⊎◌, inl, inr, Bool, false, Option, none, List, [], ◌∷◌, ◌++◌, Map,
  get_or, unwrap_or, string_eq,
}
use command_center.Prelude.Int.{ℤ}
use command_center.Plan.Ids.{TicketUrl, Sha}
use command_center.Plan.Workflow.{Workflow, zero_next}
use command_center.Plan.Ticket.{zero_choice}
use command_center.Plan.State.{State}
use command_center.Plan.Observation.{Observation, RepoSettings, zero_settings}
use command_center.Plan.Input.{Entry}
use command_center.Plan.Snapshot.{Snapshot, entry}
use command_center.Store.Db.{
  World, Action, ActionOn, TicketRow, ReadingRow, IntervalRow, ok, err, outside, ◌>>=◌,
}
use command_center.Store.Repos.{Repo}
use command_center.Store.Tickets.{ImportedTicket}
use command_center.Store.Events.{EventKind, plain_event, append_event}

-- How tp removes a worktree.
pub data RemoveMode : Type 0 where
  remove_merged : RemoveMode
  remove_forced : RemoveMode

-- What git finds of a branch whose worktree is to be removed.
pub data RemovalState : Type 0 where
  removal_unknown : RemovalState
  removable_by_merged : RemovalState
  removable_by_force : RemovalState
  not_removable : RemovalState

-- The configuration of a process that the runner starts, without its log file, which is open.
pub record SpawnConfig : Type 0 where
  pub agent_command : List String
  pub worktree_path : String
  pub settings_path : String
  pub system_prompt_path : String
  pub model : String
  pub effort : Option String
  pub tools : List String
  pub prompt : String
  pub prompt_path : String
  pub session_id : String
  pub resume : Bool

-- What the log of a run says of its cost, a decimal text, and its metrics, which are kept as JSON.
pub record LogMetrics : Type 0 where
  pub cost_usd : Option String
  pub encoded : String

-- The calls, with their arguments. The first argument of a call of git is the directory it runs in.
pub data Call : Type 0 where
  changed_paths : String → String → String → Call
  push_plain : String → String → Call
  push_restacked : String → String → Sha → Call
  is_ancestor : String → Sha → String → Call
  rev_parse : String → String → Call
  branch_tip : String → String → Call
  worktree_paths : String → Call
  merge_abort : String → Call
  merge_ff_only : String → String → Call
  merge_ref : String → String → Call
  rebase_onto : String → String → Sha → Call
  mid_merge : String → Call
  is_dirty : String → Call
  removal_state : String → String → List Sha → Call
  commits_since : String → Sha → String → Call
  delete_branch : String → String → Call
  create_pr : String → String → String → Bool → Call
  ready_pr : String → String → Call
  edit_pr : String → String → String → Call
  close_issue : String → String → Call
  new_worktree : String → String → String → Call
  remove_worktree : String → String → RemoveMode → Call
  liveness : ℕ → ℕ → ℕ → Call
  cancel_group : ℕ → Call
  reap : ℕ → Call
  spawn : SpawnConfig → Call
  write_file : String → String → Call
  create_file : String → Call
  close_file : String → Call
  read_file : String → Call
  remove_file : String → Call
  run_command : String → List String → Call
  find_transcript : String → String → Call
  log_message : String → Call
  log_metrics : String → Call
  log_readings : String → Call
  load_requests : String → Call
  validate_repo : Repo → ℕ → Call
  repo_remote : String → Call
  resolve_tracker : String → String → Call
  list_issues : String → String → String → Call
  observe : Call

-- What a call answers that only succeeds or fails.
abbrev pub Done : Type 0
Done = String ⊎ Unit {0}

-- What a call answers, which may depend on all calls up to it: an error's text, or a value. `clock` is
-- the time at each reading of the clock, `uuid` an id that the database draws. `intervals` is what `spend.Intervals` makes of new and
-- previous readings with the transcripts that a call has loaded.
pub record Outside : Type 0 where
  pub clock : ℕ → ℕ
  pub uuid : List Call → String
  pub texts : List Call → String ⊎ List String
  pub done : List Call → Done
  pub flag : List Call → String ⊎ Bool
  pub sha : List Call → String ⊎ Sha
  pub number : List Call → String ⊎ ℕ
  pub pairs : List Call → String ⊎ List (String × String)
  pub removal : List Call → String ⊎ RemovalState
  pub content : List Call → String ⊎ Option String
  pub exit_code : List Call → Option ℤ
  pub metrics : List Call → String ⊎ LogMetrics
  pub message : List Call → String ⊎ Option String
  pub readings : List Call → String ⊎ List ReadingRow
  pub repo : List Call → String ⊎ Repo
  pub text : List Call → String ⊎ String
  pub issues : List Call → String ⊎ List ImportedTicket
  pub observation : List Call → String ⊎ Observation
  pub intervals : List Call → List ReadingRow → Map String ReadingRow → String ⊎ List IntervalRow

-- `cancelled` are the process groups that this tick has cancelled, `reads` how often the clock was
-- read.
pub record LoopState : Type 0 where
  pub store : World
  pub calls : List Call
  pub reads : ℕ
  pub obs : Observation
  pub prev : Observation
  pub spawned : List TicketUrl
  pub cancelled : List ℕ

abbrev pub Act : Type 0 → Type 0
Act A = ActionOn LoopState A

abbrev pub in_store : {A : Type 0} → Action A → Act A
in_store m s = let (r, w) = m s.store in (r, record s { store = w })

abbrev pub called : Call → LoopState → LoopState
called c s = record s { calls = s.calls ++ c ∷ [] }

-- A call whose error the caller looks at.
abbrev pub attempt : {A : Type 0} → Call → (List Call → String ⊎ A) → Act (String ⊎ A)
attempt c answer s = (ok (answer (s.calls ++ c ∷ [])), called c s)

abbrev pub or_fail : {A : Type 0} → String ⊎ A → Act A
or_fail (inl e) s = (err (outside e), s)
or_fail (inr a) s = (ok a, s)

-- A call whose error ends the operation.
abbrev pub ask : {A : Type 0} → Call → (List Call → String ⊎ A) → Act A
ask c answer s = or_fail (answer (s.calls ++ c ∷ [])) (called c s)

abbrev pub get_state : Act LoopState
get_state s = (ok s, s)

abbrev pub set_obs : Observation → Act Unit
set_obs o s = (ok tt, record s { obs = o })

module _ (o : Outside) where
  abbrev pub now : Act ℕ
  now s = (ok (o.clock s.reads), record s { reads = suc s.reads })

  unfoldable pub event : TicketUrl → EventKind → String → Act Unit
  unfolding append_event
  event url kind detail = do at ← now; in_store (append_event (plain_event at url kind detail))

-- What `New` is given of the configuration.
pub record Config : Type 0 where
  pub data_dir : String
  pub runs_dir : String
  pub settings_path : String
  pub system_prompt_path : String
  pub projects_dir : String
  pub agent_command : List String
  pub workflows : Map String Workflow
  pub max_agents : ℕ
  pub spend_limit_5h : ℕ

-- `filepath.Join` of paths that are clean.
abbrev pub join_path : String → String → String
join_path dir name = dir ⧺ "/" ⧺ name

abbrev pub checkout : Config → String → String
checkout c repo = join_path (join_path c.data_dir "repos") repo

-- The name of a file of a run.
abbrev pub run_file : Config → ℕ → String → String
run_file c id ext = join_path c.runs_dir (decimal id ⧺ "." ⧺ ext)

-- Go's zero entry, which a snapshot gives for a URL that it does not hold.
abbrev pub zero_entry : Entry
zero_entry = record {
  ticket = record {
    url = "";
    repo = "";
    branch = "";
    blocked_by = [];
    worked_example_branch = "";
    launch_context = "";
    choice = zero_choice;
  };
  unlock = record {
    unlocked = false;
    base_branch = "";
    reason = "";
    blocking = [];
    blocker_closed = false;
  };
  state = State.unknown;
  reason = "";
  run = none;
  elapsed = none;
  log_path = "";
  conflicted_base = "";
  draft_reason = "";
  launch_id = 0;
  base = "";
  ready_to_undraft = false;
  opens_as_draft = false;
  prompt_hash = "";
  last_push = none;
  restacked = false;
  next = zero_next;
  workflow = "";
}

abbrev pub entry_or_zero : Snapshot → TicketUrl → Entry
entry_or_zero s url = unwrap_or (entry s url) zero_entry

abbrev pub settings_of : Observation → String → RepoSettings
settings_of o repo = get_or repo zero_settings o.settings

-- Go's zero ticket, which a map of tickets gives for a URL that it does not hold.
abbrev pub zero_ticket_row : TicketRow
zero_ticket_row = record {
  url = "";
  repo = "";
  branch = "";
  blocked_by = [];
  source = "";
  title = "";
  body = "";
  status = "";
  feature = "";
  synced_at = none;
  withdrawn_at = none;
}
