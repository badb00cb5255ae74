-- ===== src/Loop/Runs.antt =====
-- internal/loop/loop.go and steps.go: the runs that have started are observed, and those that have
-- ended are disposed of.
use command_center.Prelude.{
  ℕ, suc, ltb, String, ◌⧺◌, trim_space, ◌⊎◌, inl, inr, Bool, false, not, ◌&&◌, Option, none, some,
  List, [], ◌∷◌, ◌++◌, if◌then◌else◌, is_empty, find_first, length, any, contains, nat_eq,
  string_eq, ◌==◌, ◌!=◌, Map, lookup, insert, get_or, unwrap_or,
}
use command_center.Prelude.Int.{ℤ, pos, negsuc}
use command_center.Plan.Ids.{TicketUrl, Sha, branch_ref_eq}
use command_center.Plan.Vocab.{verb_follow_up}
use command_center.Plan.Outcome.{
  Outcome, asked, continued, failed, outcome_string, outcome_eq, asked_question, disposition,
}
use command_center.Plan.Workflow.{Workflow, Step, step_outcome, pass_of}
use command_center.Plan.Observation.{Observation, mark_alive}
use command_center.Store.Db.{ok, Payload, TicketRow, ReadingRow, ◌>>=◌, ◌>>◌, pure}
use command_center.Store.Runs.{
  PendingRun, pending_runs_awaiting_disposition, record_disposition, record_question, pass_runs,
  run_baseline,
}
use command_center.Store.Repos.{latest_readings_full, record_readings, record_intervals}
use command_center.Store.Intents.{VerbIntent, pending_verb_intents}
use command_center.Store.Events.{event_run_disposed}
use command_center.Store.Tickets.{row_ref}
use command_center.Loop.Machine.{
  LoopState, Act, Outside, Config, Call, LogMetrics, commits_since, liveness, reap, write_file,
  read_file, log_message, log_metrics, log_readings, load_requests, in_store, called, ask, attempt,
  or_fail, get_state, set_obs, now, event, checkout, run_file, settings_of, zero_ticket_row,
}
use command_center.Loop.Intents.{is_steerable_kind}

abbrev pub set_runs : TicketUrl → Bool → Observation → Observation
set_runs url alive o = record o { runs = insert url alive o.runs }

abbrev pub with_question : ℕ → Option String → Observation → Observation
with_question id none o = o
with_question id (some q) o = record o { questions = insert id q o.questions }

-- `workflowByHash`: at most one workflow has a hash.
abbrev pub has_hash : String → String × Workflow → Bool
has_hash hash e = e.1.hash == hash

unfoldable pub workflow_by_hash : Map String Workflow → String → Option Workflow
workflow_by_hash ws hash =
    if hash == ""
    then none
    else elim (find_first (has_hash hash) ws) [ none ↦ none | some e ↦ some e.1 ]

abbrev pub is_step : String → Step → Bool
is_step name s = s.name == name

unfoldable pub step_of : Map String Workflow → PendingRun → Option (Workflow × Step)
unfolding workflow_by_hash
step_of ws run = elim (workflow_by_hash ws run.workflow_hash) [
  | none ↦ none
  | some w ↦ elim (find_first (is_step run.step) w.steps) [ none ↦ none | some s ↦ some (w, s) ]
]

abbrev pub last_name : List Step → String
last_name [] = ""
last_name (s ∷ []) = s.name
last_name (s ∷ t ∷ ss) = last_name (t ∷ ss)

abbrev pub final_step : Workflow → Step → Bool
final_step w s = last_name w.steps == s.name

-- The number of an exit code, of which a step asks whether it is 0.
abbrev pub exit_status : ℤ → ℕ
exit_status (pos n) = n
exit_status (negsuc n) = suc n

abbrev pub status_option : Option ℤ → Option ℕ
status_option none = none
status_option (some code) = some (exit_status code)

-- The body of a handoff, of which `tail` is the end of the log.
abbrev pub handoff_body : Step → Option String → Bool → String → String
handoff_body step last_message has_failed tail =
    if step.writes
    then unwrap_or last_message ""
    else if step.command && has_failed
    then "The " ⧺ step.name ⧺ " command failed. Its output ended:\n\n" ⧺ tail
    else ""

-- A log that is not there, or that cannot be read, tells nothing.
abbrev pub told : {A : Type 0} → String ⊎ A → Option A
told (inl e) = none
told (inr a) = some a

abbrev pub told_text : String ⊎ Option String → Option String
told_text (inl e) = none
told_text (inr a) = a

abbrev pub told_rows : String ⊎ List ReadingRow → List ReadingRow
told_rows (inl e) = []
told_rows (inr rows) = rows

abbrev pub cost_of : Option LogMetrics → Option String
cost_of none = none
cost_of (some m) = m.cost_usd

abbrev pub metrics_of : Option LogMetrics → Option String
metrics_of none = none
metrics_of (some m) = some m.encoded

abbrev pub asks_follow_up : TicketUrl → VerbIntent → Bool
asks_follow_up url i = i.ticket_id == url

module _ (o : Outside) (c : Config) (json : Payload → String) where
  unfoldable pub follow_up_queued : TicketUrl → Act Bool
  unfolding pending_verb_intents
  follow_up_queued url = do
    intents ← in_store (pending_verb_intents json verb_follow_up)
    pure (any (asks_follow_up url) intents)

  unfoldable pub read_question_file : ℕ → Act (Option String)
  read_question_file id = ask (read_file (run_file c id "question")) o.content

  -- The run has ended: it is not alive, and its question is read.
  abbrev pub note_ended : PendingRun → Act Unit
  note_ended run = do
    s ← get_state
    set_obs (set_runs run.ticket_id false s.obs)
    question ← read_question_file run.id
    t ← get_state
    set_obs (with_question run.id question t.obs)

  abbrev pub note_alive : PendingRun → Act Unit
  note_alive run s = set_obs (mark_alive s.obs run.ticket_id) s

  unfoldable pub observe_each : ℕ → List PendingRun → Act Unit
  unfolding mark_alive read_question_file
  observe_each at [] = pure tt
  observe_each at (run ∷ runs) = do
    alive ← ask (liveness run.pgid run.proc_started_at at) o.flag
    if alive then note_alive run else note_ended run
    observe_each at runs

  unfoldable pub observe_runs : Act Unit
  unfolding pending_runs_awaiting_disposition observe_each
  observe_runs = do
    pending ← in_store pending_runs_awaiting_disposition
    s ← get_state
    set_obs (record s.obs { questions = [] })
    at ← now o
    observe_each at pending

  -- The commits after the baseline, in the worktree, or at the tip of the branch where there is none.
  unfoldable pub commits_since_baseline : TicketRow → Sha → Act ℕ
  commits_since_baseline ticket baseline s =
      let worktree = get_or (row_ref ticket) "" s.obs.worktrees in
      let in_worktree : Act ℕ = ask (commits_since worktree baseline "HEAD") o.number in
      if worktree != "" then in_worktree s else elim (lookup (row_ref ticket) s.obs.branch_tips) [
        | none ↦ (ok 0, s)
        | some tip ↦ ask (commits_since (checkout c ticket.repo) baseline tip) o.number s
      ]

  unfoldable pub pass_baseline : Workflow → PendingRun → Bool → Act Sha
  unfolding pass_runs run_baseline pass_of
  pass_baseline w run has_verify = do
    passes ← in_store pass_runs
    elim (pass_of w (get_or run.ticket_id [] passes) has_verify) [
      | [] ↦ pure run.baseline_sha
      | first ∷ _ ↦ in_store (run_baseline first.id)
    ]

  abbrev pub by_commits : TicketRow → Sha → Act Outcome
  by_commits ticket baseline = do
    commits ← if baseline != "" then commits_since_baseline ticket baseline else pure 0
    pure (disposition commits)

  abbrev pub commits_of_step : TicketRow → Sha → Step → Act ℕ
  commits_of_step ticket baseline step =
      if not step.command && not step.writes && baseline != ""
      then commits_since_baseline ticket baseline
      else pure 0

  abbrev pub by_evidence : TicketRow → Sha → Step → Option ℤ → Option String → Act Outcome
  by_evidence ticket baseline step code last_message = do
    commits ← commits_of_step ticket baseline step
    pure (
        step_outcome step
          (record { exit_code = status_option code; commits = commits; handoff = last_message }))

  -- The outcome of a run that neither continues nor asks.
  abbrev pub by_step :
      PendingRun
      → TicketRow
      → Option ℤ
      → Option String
      → Bool
      → Option (Workflow × Step)
      → Act Outcome
  by_step run ticket code last_message has_verify none = by_commits ticket run.baseline_sha
  by_step run ticket code last_message has_verify (some (w, step)) =
      if not (ltb 1 (length w.steps))
      then by_commits ticket run.baseline_sha
      else if not (final_step w step)
      then by_evidence ticket run.baseline_sha step code last_message
      else pass_baseline w run has_verify >>= by_commits ticket

  abbrev pub by_question :
      PendingRun → TicketRow → Option ℤ → Option String → LoopState → Option String → Act Outcome
  by_question run ticket code last_message s (some question) =
      in_store (record_question run.id question) >> pure asked
  by_question run ticket code last_message s none =
      by_step run ticket code last_message
        (not (is_empty (settings_of s.obs ticket.repo).verify_command)) (step_of c.workflows run)

  unfoldable pub outcome_for : PendingRun → TicketRow → Option ℤ → Option String → Act Outcome
  unfolding follow_up_queued asked_question record_question step_of commits_since_baseline
      pass_baseline disposition step_outcome
  outcome_for run ticket code last_message = do
    queued ← if is_steerable_kind run.kind then follow_up_queued run.ticket_id else pure false
    s ← get_state
    if queued
        then pure continued
        else by_question run ticket code last_message s
            (asked_question run.kind (lookup run.id s.obs.questions))

  -- What is read of a log that the run has.
  abbrev pub of_log : {A : Type 0} → String → Call → (List Call → String ⊎ A) → Act (Option A)
  of_log path call answer =
      if path == "" then pure none else attempt call answer >>= λ r. pure (told r)

  abbrev pub flat : Option (Option String) → Option String
  flat none = none
  flat (some x) = x

  abbrev pub rows_of : Option (List ReadingRow) → List ReadingRow
  rows_of none = []
  rows_of (some rows) = rows

  -- The end of the log of a command, which is read where the step is one that failed.
  abbrev pub write_body : PendingRun → String → Act Unit
  write_body run body =
      if trim_space body == ""
      then pure tt
      else attempt (write_file (run_file c run.id "handoff.md") body) o.done >>= λ _. pure tt

  abbrev pub write_tail :
      PendingRun → Step → Option String → Bool → String ⊎ Option String → Act Unit
  write_tail run step last_message has_failed tail =
      write_body run (handoff_body step last_message has_failed (unwrap_or (told_text tail) ""))

  abbrev pub write_handoff : PendingRun → Option String → Bool → Option (Workflow × Step) → Act Unit
  write_handoff run last_message has_failed none = pure tt
  write_handoff run last_message has_failed (some (w, step)) =
      if not step.writes && step.command && has_failed
      then attempt (read_file run.log_path) o.content
        >>= write_tail run step last_message has_failed
      else write_body run (handoff_body step last_message has_failed "")

  unfoldable pub record_readings_and_intervals : List ReadingRow → Act Unit
  unfolding latest_readings_full record_readings record_intervals
  record_readings_and_intervals readings =
      if is_empty readings
      then pure tt
      else (ask (load_requests c.projects_dir) o.done >>= λ _.
          in_store latest_readings_full >>= λ previous. get_state >>= λ s.
          or_fail (o.intervals s.calls readings previous) >>= λ intervals.
          in_store (record_readings readings) >> in_store (record_intervals intervals))

  unfoldable pub dispose_run : PendingRun → TicketRow → Act Unit
  unfolding outcome_for step_of record_disposition record_readings_and_intervals event
  dispose_run run ticket = do
    s ← get_state
    let code = o.exit_code (s.calls ++ reap run.pgid ∷ [])
    λ t. (ok tt, called (reap run.pgid) t)
    message ← of_log run.log_path (log_message run.log_path) o.message
    outcome ← outcome_for run ticket code (flat message)
    write_handoff run (flat message) (outcome == failed) (step_of c.workflows run)
    metrics ← of_log run.log_path (log_metrics run.log_path) o.metrics
    at ← now o
    in_store (
        record_disposition (record {
          run_id = run.id;
          outcome = outcome;
          exit_code = code;
          cost = cost_of metrics;
          last_message = flat message;
          metrics = metrics_of metrics;
          ended_at = at;
        }))
    readings ← of_log run.log_path (log_readings run.log_path) o.readings
    record_readings_and_intervals (rows_of readings)
    event o ticket.url event_run_disposed (outcome_string outcome)

  -- What `reconcileRuns` does with a run: `tickets` are the tickets by URL.
  abbrev pub ticket_or_zero : Map TicketUrl TicketRow → TicketUrl → TicketRow
  ticket_or_zero tickets url = get_or url zero_ticket_row tickets

  abbrev pub dispose_of : Map TicketUrl TicketRow → PendingRun → Act Unit
  dispose_of tickets run = dispose_run run (ticket_or_zero tickets run.ticket_id)

  abbrev pub look_again : Map TicketUrl TicketRow → PendingRun → Act Unit
  look_again tickets run = do
    at ← now o
    alive ← ask (liveness run.pgid run.proc_started_at at) o.flag
    if alive then note_alive run else note_ended run >> dispose_of tickets run

  -- Seen and not alive, it is disposed of; seen alive and not cancelled, it is left; otherwise the
  -- runner is asked again.
  abbrev pub reconcile_one : Map TicketUrl TicketRow → PendingRun → Act Unit
  reconcile_one tickets run s = elim (lookup run.ticket_id s.obs.runs) [
    | none ↦ look_again tickets run s
    | some alive ↦
        if not alive
        then dispose_of tickets run s
        else if not (contains s.cancelled run.pgid)
        then (ok tt, s)
        else look_again tickets run s
  ]

  unfoldable pub reconcile_each : Map TicketUrl TicketRow → List PendingRun → Act Unit
  unfolding dispose_run mark_alive read_question_file
  reconcile_each tickets [] = pure tt
  reconcile_each tickets (run ∷ runs) = reconcile_one tickets run >> reconcile_each tickets runs

  unfoldable pub reconcile_runs : Map TicketUrl TicketRow → Act Unit
  unfolding pending_runs_awaiting_disposition reconcile_each
  reconcile_runs tickets = do
    pending ← in_store pending_runs_awaiting_disposition
    reconcile_each tickets pending
