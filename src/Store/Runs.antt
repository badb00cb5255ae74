-- ===== src/Store/Runs.antt =====
-- internal/store/runs.go and params.go: the operations on runs. A word that the database holds is
-- parsed on each read, and a word that is unknown is an error.
pub mod History
pub mod Once
use command_center.Prelude.{
  ℕ, ◌+◌, String, Bool, true, false, not, Option, none, some, List, [], ◌∷◌, ◌++◌, map, arith,
  if◌then◌else◌, is_none, is_some, unwrap_or, find_first, contains, nat_eq, string_eq, ◌==◌, Map,
  insert, get_or,
}
use command_center.Prelude.Int.{ℤ}
use command_center.Plan.Ids.{TicketUrl, Sha, StepName}
use command_center.Plan.Vocab.{RunKind, parse_run_kind, run_kind_agent}
use command_center.Plan.Outcome.{Outcome, cut_failed, outcome_string, parse_outcome}
use command_center.Plan.Workflow.{StepRun}
use command_center.Plan.Ticket.{AgentChoice}
use command_center.Plan.Input.{RunSummary}
use command_center.Store.Db.{
  Db, Action, Result, ok, err, Error, not_found, malformed, RunRow, ◌>>=◌, ◌>>◌, pure, raise,
  or_raise, of_result, query, execute, statement, returning, matched_row,
}
use command_center.Store.Queries.Runs.{
  InsertRunSkeletonParams, InsertCutFailedRunParams, RecordSpawnParams, RecordDispositionParams,
  RunDetailsRow, insert_run_skeleton_query, insert_cut_failed_run_query, record_spawn_query,
  record_disposition_query, record_question_query, run_details_query, latest_session_id_query,
  latest_run_log_query, list_pass_runs, run_baseline_query, pending_runs_awaiting_disposition_query,
  list_latest_runs_by_ticket, run_ids_for_ticket_query,
}

abbrev pub null_if_empty : String → Option String
null_if_empty s = if s == "" then none else some s

unfoldable pub choice_columns : AgentChoice → Option String × Option String
choice_columns c = (null_if_empty c.model, c.effort)

unfoldable pub choice_from : Option String → Option String → AgentChoice
choice_from model effort = record { model = unwrap_or model ""; effort = effort }

pub record RunSession : Type 0 where
  pub start_new : Bool
  pub join_id : String
  pub message : String

pub record RunSkeleton : Type 0 where
  pub ticket : TicketUrl
  pub kind : RunKind
  pub baseline_sha : String
  pub prompt_hash : String
  pub choice : AgentChoice
  pub session : RunSession
  pub step : StepName
  pub workflow : String
  pub workflow_hash : String

abbrev pub skeleton_params : RunSkeleton → InsertRunSkeletonParams
skeleton_params r = record {
  ticket_id = some r.ticket;
  kind = r.kind;
  baseline_sha = some r.baseline_sha;
  prompt_hash = some r.prompt_hash;
  step = r.step;
  workflow = r.workflow;
  workflow_hash = r.workflow_hash;
  new_session = r.session.start_new;
  session_id = null_if_empty r.session.join_id;
  message = null_if_empty r.session.message;
  model = (choice_columns r.choice).0;
  effort = (choice_columns r.choice).1;
}

-- `uuid` is the session id that the database draws.
unfoldable pub insert_session_run_skeleton : String → RunSkeleton → Action (ℕ × String)
unfolding statement insert_run_skeleton_query
insert_session_run_skeleton uuid r =
    statement (returning (insert_run_skeleton_query uuid (skeleton_params r)))

unfoldable pub insert_run_skeleton : String → RunSkeleton → Action ℕ
unfolding insert_session_run_skeleton
insert_run_skeleton uuid r = do row ← insert_session_run_skeleton uuid r; pure row.0

pub record RunDetails : Type 0 where
  pub session_id : String
  pub message : String
  pub outcome : Option Outcome

-- The outcome of a word; an unknown word is an error.
unfoldable pub outcome_of : String → Result (Option Outcome)
unfolding parse_outcome
outcome_of word = elim (parse_outcome word) [ none ↦ err (malformed word) | some o ↦ ok (some o) ]

-- The outcome of a column, which may be NULL.
unfoldable pub outcome_column : Option String → Result (Option Outcome)
unfolding outcome_of
outcome_column none = ok none
outcome_column (some word) = outcome_of word

abbrev pub details_of : RunDetailsRow → Option Outcome → RunDetails
details_of row o = record { session_id = row.session_id; message = row.message; outcome = o }

unfoldable pub run_details : ℕ → Action RunDetails
unfolding query run_details_query outcome_of
run_details id = do
  found ← query (run_details_query id)
  row ← or_raise found not_found
  outcome ← if row.outcome == "" then pure none else of_result (outcome_of row.outcome)
  pure (details_of row outcome)

unfoldable pub latest_session_id : TicketUrl → Action String
unfolding query latest_session_id_query
latest_session_id url = do found ← query (latest_session_id_query url); or_raise found not_found

-- A log path that is NULL reads as the empty text.
unfoldable pub latest_run_log : TicketUrl → Action (String × Bool)
unfolding query latest_run_log_query
latest_run_log url = do
  found ← query (latest_run_log_query url)
  row ← or_raise found not_found
  pure (unwrap_or row.0 "", is_some row.1)

-- An update that must find its row.
unfoldable pub update_one : (Db → ℕ × Db) → Action Unit
unfolding statement matched_row
update_one update = do n ← statement (returning update); matched_row n

pub record Spawn : Type 0 where
  pub run_id : ℕ
  pub pgid : ℕ
  pub started_at : ℕ
  pub log_path : String

abbrev pub spawn_params : Spawn → RecordSpawnParams
spawn_params s = record {
  pgid = some s.pgid;
  proc_started_at = some s.started_at;
  log_path = some s.log_path;
  id = s.run_id;
}

unfoldable pub record_spawn : Spawn → Action Unit
unfolding update_one record_spawn_query
record_spawn s = update_one (record_spawn_query (spawn_params s))

pub record Disposition : Type 0 where
  pub run_id : ℕ
  pub outcome : Outcome
  pub exit_code : Option ℤ
  pub cost : Option String
  pub last_message : Option String
  pub metrics : Option String
  pub ended_at : ℕ

abbrev pub disposition_params : Disposition → RecordDispositionParams
disposition_params d = record {
  outcome = some (outcome_string d.outcome);
  exit_code = d.exit_code;
  ended_at = some d.ended_at;
  cost_usd = d.cost;
  last_message = d.last_message;
  metrics = d.metrics;
  id = d.run_id;
}

unfoldable pub record_disposition : Disposition → Action Unit
unfolding update_one record_disposition_query
record_disposition d = update_one (record_disposition_query (disposition_params d))

unfoldable pub record_question : ℕ → String → Action Unit
unfolding update_one record_question_query
record_question id question = update_one (record_question_query (some question) id)

abbrev pub cut_failed_params : RunSkeleton → ℕ → InsertCutFailedRunParams
cut_failed_params r at = record {
  ticket_id = some r.ticket;
  prompt_hash = some r.prompt_hash;
  step = r.step;
  workflow = r.workflow;
  workflow_hash = r.workflow_hash;
  outcome = some (outcome_string cut_failed);
  ended_at = some at;
}

unfoldable pub insert_cut_failed_run : RunSkeleton → ℕ → Action ℕ
unfolding statement insert_cut_failed_run_query
insert_cut_failed_run r at =
    statement (returning (insert_cut_failed_run_query (cut_failed_params r at)))

-- The loop over the rows of `PassRuns`, which appends each run to those of its ticket.
abbrev pub step_run_of : RunRow → Option Outcome → StepRun
step_run_of r o = record {
  id = r.id;
  step = r.step;
  command = false;
  alive = is_none r.outcome;
  outcome = o;
  handoff = none;
}

abbrev pub url_of : RunRow → TicketUrl
url_of r = unwrap_or r.ticket ""

abbrev pub append_to :
    {A : Type 0} → TicketUrl → A → Map TicketUrl (List A) → Map TicketUrl (List A)
append_to url a m = insert url (get_or url [] m ++ a ∷ []) m

unfoldable pub collect_passes :
    List RunRow → Map TicketUrl (List StepRun) → Result (Map TicketUrl (List StepRun))
unfolding outcome_column
collect_passes [] m = ok m
collect_passes (r ∷ rs) m = elim (outcome_column r.outcome) [
  | err e ↦ err e
  | ok o ↦ collect_passes rs (append_to (url_of r) (step_run_of r o) m)
]

unfoldable pub pass_runs : Action (Map TicketUrl (List StepRun))
unfolding query list_pass_runs collect_passes
pass_runs = do rows ← query list_pass_runs; of_result (collect_passes rows [])

unfoldable pub run_baseline : ℕ → Action Sha
unfolding query run_baseline_query
run_baseline id = do found ← query (run_baseline_query id); or_raise found not_found

pub record PendingRun : Type 0 where
  pub id : ℕ
  pub ticket_id : TicketUrl
  pub kind : RunKind
  pub pgid : ℕ
  pub proc_started_at : ℕ
  pub baseline_sha : String
  pub log_path : String
  pub step : StepName
  pub workflow_hash : String

-- A NULL column reads as the zero value.
abbrev pub pending_run_of : RunRow → RunKind → PendingRun
pending_run_of r kind = record {
  id = r.id;
  ticket_id = url_of r;
  kind = kind;
  pgid = unwrap_or r.pgid 0;
  proc_started_at = unwrap_or r.proc_started_at 0;
  baseline_sha = unwrap_or r.baseline_sha "";
  log_path = unwrap_or r.log_path "";
  step = r.step;
  workflow_hash = r.workflow_hash;
}

unfoldable pub collect_pending : List RunRow → Result (List PendingRun)
unfolding parse_run_kind
collect_pending [] = ok []
collect_pending (r ∷ rs) =
    let rest = collect_pending rs in
    elim (parse_run_kind r.kind) [
      | none ↦ err (malformed r.kind)
      | some kind ↦ elim rest [ err e ↦ err e | ok ps ↦ ok (pending_run_of r kind ∷ ps) ]
    ]

unfoldable pub pending_runs_awaiting_disposition : Action (List PendingRun)
unfolding query pending_runs_awaiting_disposition_query collect_pending
pending_runs_awaiting_disposition = do
  rows ← query pending_runs_awaiting_disposition_query
  of_result (collect_pending rows)

abbrev pub summary_of : RunRow → RunKind → Option Outcome → RunSummary
summary_of r kind o = record {
  id = r.id;
  pgid = r.pgid;
  proc_started_at = r.proc_started_at;
  outcome = o;
  exit_code = r.exit_code;
  ended_at = r.ended_at;
  log_path = unwrap_or r.log_path "";
  baseline_sha = unwrap_or r.baseline_sha "";
  prompt_hash = unwrap_or r.prompt_hash "";
  kind = kind;
  question = unwrap_or r.question "";
  step = r.step;
  workflow_hash = r.workflow_hash;
}

unfoldable pub summary : RunRow → Result RunSummary
unfolding parse_run_kind outcome_column
summary r = elim (parse_run_kind r.kind) [
  | none ↦ err (malformed r.kind)
  | some kind ↦ elim (outcome_column r.outcome) [ err e ↦ err e | ok o ↦ ok (summary_of r kind o) ]
]

unfoldable pub collect_summaries :
    List RunRow → Map TicketUrl RunSummary → Result (Map TicketUrl RunSummary)
unfolding summary
collect_summaries [] m = ok m
collect_summaries (r ∷ rs) m = elim (summary r) [
  | err e ↦ err e
  | ok s ↦ collect_summaries rs (insert (url_of r) s m)
]

unfoldable pub latest_runs_by_ticket : Action (Map TicketUrl RunSummary)
unfolding query list_latest_runs_by_ticket collect_summaries
latest_runs_by_ticket = do
  rows ← query list_latest_runs_by_ticket
  of_result (collect_summaries rows [])

unfoldable pub run_ids_for_ticket : TicketUrl → Action (List ℕ)
unfolding query run_ids_for_ticket_query
run_ids_for_ticket url = query (run_ids_for_ticket_query url)
