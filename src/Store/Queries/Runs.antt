-- ===== src/Store/Queries/Runs.antt =====
-- internal/store/ccdb/runs.sql.go: the queries on the tables `runs` and `intents`. `none` is a NULL
-- column, and a query of one row gives `none` for `sql.ErrNoRows`.
use command_center.Prelude.{
  ℕ, suc, String, Bool, false, Option, none, some, List, [], ◌∷◌, ◌++◌, map, if◌then◌else◌, length,
  select, any, every, unwrap_or, is_some, is_none, ◌&&◌, ◌||◌, not, leb, ltb, nat_eq, string_eq,
  ◌==◌,
}
use command_center.Prelude.Int.{ℤ}
use command_center.Plan.Ids.{TicketUrl}
use command_center.Plan.Vocab.{Verb, run_kind_agent, run_kind_follow_up}
use command_center.Store.Db.{Db, RunRow, IntentRow, MemberRow, LaunchRow, Payload, update_where}

-- A column of the Go type `sql.NullString` that equals a text.
abbrev pub holds : Option String → String → Bool
holds none s = false
holds (some t) s = t == s

abbrev pub of_ticket : TicketUrl → RunRow → Bool
of_ticket url r = holds r.ticket url

-- `kind IN ('agent', 'follow_up')`.
abbrev pub is_steerable : String → Bool
is_steerable kind = kind == run_kind_agent || kind == run_kind_follow_up

-- `ORDER BY id DESC LIMIT 1`: the row with the highest id.
unfoldable pub newest_run : List RunRow → Option RunRow
newest_run [] = none
newest_run (r ∷ rs) = elim (newest_run rs) [
  | none ↦ some r
  | some q ↦ if ltb q.id r.id then some r else some q
]

unfoldable pub run_by_id : ℕ → List RunRow → Option RunRow
run_by_id id [] = none
run_by_id id (r ∷ rs) = let rest = run_by_id id rs in if r.id == id then some r else rest

pub record InsertRunSkeletonParams : Type 0 where
  pub ticket_id : Option String
  pub kind : String
  pub baseline_sha : Option String
  pub prompt_hash : Option String
  pub step : String
  pub workflow : String
  pub workflow_hash : String
  pub new_session : Bool
  pub session_id : Option String
  pub message : Option String
  pub model : Option String
  pub effort : Option String

-- `uuid` is what `gen_random_uuid` draws.
abbrev pub skeleton_session : String → InsertRunSkeletonParams → Option String
skeleton_session uuid p = if p.new_session then some uuid else p.session_id

abbrev pub skeleton_row : String → ℕ → InsertRunSkeletonParams → RunRow
skeleton_row uuid id p = record {
  id = id;
  ticket = p.ticket_id;
  kind = p.kind;
  pgid = none;
  proc_started_at = none;
  baseline_sha = p.baseline_sha;
  prompt_hash = p.prompt_hash;
  log_path = none;
  outcome = none;
  exit_code = none;
  ended_at = none;
  session_id = skeleton_session uuid p;
  message = p.message;
  question = none;
  cost_usd = none;
  last_message = none;
  metrics = none;
  model = p.model;
  effort = p.effort;
  step = p.step;
  workflow = p.workflow;
  workflow_hash = p.workflow_hash;
}

abbrev pub add_run : RunRow → Db → Db
add_run r d = record d { run_seq = r.id; runs = d.runs ++ r ∷ [] }

unfoldable pub insert_run_skeleton_query : String → InsertRunSkeletonParams → Db → (ℕ × String) × Db
insert_run_skeleton_query uuid p d =
    let id = suc d.run_seq in
    ((id, unwrap_or (skeleton_session uuid p) ""), add_run (skeleton_row uuid id p) d)

pub record InsertCutFailedRunParams : Type 0 where
  pub ticket_id : Option String
  pub prompt_hash : Option String
  pub step : String
  pub workflow : String
  pub workflow_hash : String
  pub outcome : Option String
  pub ended_at : Option ℕ

abbrev pub cut_failed_row : ℕ → InsertCutFailedRunParams → RunRow
cut_failed_row id p = record {
  id = id;
  ticket = p.ticket_id;
  kind = run_kind_agent;
  pgid = none;
  proc_started_at = none;
  baseline_sha = none;
  prompt_hash = p.prompt_hash;
  log_path = none;
  outcome = p.outcome;
  exit_code = none;
  ended_at = p.ended_at;
  session_id = none;
  message = none;
  question = none;
  cost_usd = none;
  last_message = none;
  metrics = none;
  model = none;
  effort = none;
  step = p.step;
  workflow = p.workflow;
  workflow_hash = p.workflow_hash;
}

unfoldable pub insert_cut_failed_run_query : InsertCutFailedRunParams → Db → ℕ × Db
insert_cut_failed_run_query p d = let id = suc d.run_seq in (id, add_run (cut_failed_row id p) d)

pub record RecordSpawnParams : Type 0 where
  pub pgid : Option ℕ
  pub proc_started_at : Option ℕ
  pub log_path : Option String
  pub id : ℕ

abbrev pub spawned_row : RecordSpawnParams → RunRow → RunRow
spawned_row p r = record r {
  pgid = p.pgid;
  proc_started_at = p.proc_started_at;
  log_path = p.log_path;
}

abbrev pub has_id : ℕ → RunRow → Bool
has_id id r = r.id == id

-- An update gives the number of rows that its `WHERE` found.
abbrev pub update_runs : (RunRow → Bool) → (RunRow → RunRow) → Db → ℕ × Db
update_runs test write d =
    (length (select test d.runs), record d { runs = update_where test write d.runs })

unfoldable pub record_spawn_query : RecordSpawnParams → Db → ℕ × Db
record_spawn_query p = update_runs (has_id p.id) (spawned_row p)

pub record RecordDispositionParams : Type 0 where
  pub outcome : Option String
  pub exit_code : Option ℤ
  pub ended_at : Option ℕ
  pub cost_usd : Option String
  pub last_message : Option String
  pub metrics : Option String
  pub id : ℕ

abbrev pub disposed_row : RecordDispositionParams → RunRow → RunRow
disposed_row p r = record r {
  outcome = p.outcome;
  exit_code = p.exit_code;
  ended_at = p.ended_at;
  cost_usd = p.cost_usd;
  last_message = p.last_message;
  metrics = p.metrics;
}

abbrev pub is_open : ℕ → RunRow → Bool
is_open id r = r.id == id && is_none r.outcome

unfoldable pub record_disposition_query : RecordDispositionParams → Db → ℕ × Db
record_disposition_query p = update_runs (is_open p.id) (disposed_row p)

unfoldable pub record_question_query : Option String → ℕ → Db → ℕ × Db
record_question_query question id = update_runs (has_id id) (λ r. record r { question = question })

unfoldable pub latest_run_log_query : TicketUrl → Db → Option (Option String × Option ℕ)
unfolding newest_run
latest_run_log_query url d = elim (newest_run (select (of_ticket url) d.runs)) [
  | none ↦ none
  | some r ↦ some (r.log_path, r.ended_at)
]

abbrev pub has_session : TicketUrl → RunRow → Bool
has_session url r = of_ticket url r && is_steerable r.kind && is_some r.session_id

unfoldable pub latest_session_id_query : TicketUrl → Db → Option String
unfolding newest_run
latest_session_id_query url d = elim (newest_run (select (has_session url) d.runs)) [
  | none ↦ none
  | some r ↦ r.session_id
]

-- `DISTINCT ON (ticket_id) … ORDER BY ticket_id, id DESC`: of each ticket the row with the highest id.
-- The order of the rows is the table's, since the callers only fill a map with them.
abbrev pub is_newest : List RunRow → RunRow → Bool
is_newest rows r = elim r.ticket [
  | none ↦ false
  | some url ↦ every (λ (q : RunRow). not (of_ticket url q) || leb q.id r.id) rows
]

unfoldable pub list_latest_runs_by_ticket : Db → List RunRow
list_latest_runs_by_ticket d = select (is_newest d.runs) d.runs

unfoldable pub list_pass_runs : Db → List RunRow
list_pass_runs d = select (λ (r : RunRow). is_some r.ticket) d.runs

abbrev pub is_pending : RunRow → Bool
is_pending r = is_some r.pgid && is_none r.outcome

unfoldable pub pending_runs_awaiting_disposition_query : Db → List RunRow
pending_runs_awaiting_disposition_query d = select is_pending d.runs

unfoldable pub run_ids_for_ticket_query : TicketUrl → Db → List ℕ
run_ids_for_ticket_query url d = map (λ (r : RunRow). r.id) (select (of_ticket url) d.runs)

unfoldable pub run_baseline_query : ℕ → Db → Option String
unfolding run_by_id
run_baseline_query id d = elim (run_by_id id d.runs) [
  | none ↦ none
  | some r ↦ some (unwrap_or r.baseline_sha "")
]

pub record RunDetailsRow : Type 0 where
  pub session_id : String
  pub message : String
  pub outcome : String

unfoldable pub run_details_query : ℕ → Db → Option RunDetailsRow
unfolding run_by_id
run_details_query id d = elim (run_by_id id d.runs) [
  | none ↦ none
  | some r ↦ some (record {
    session_id = unwrap_or r.session_id "";
    message = unwrap_or r.message "";
    outcome = unwrap_or r.outcome "";
  })
]

-- The rows of the session of the newest steerable run. A session that is
-- NULL equals nothing.
abbrev pub in_session : TicketUrl → String → RunRow → Bool
in_session url session r = of_ticket url r && is_steerable r.kind && holds r.session_id session

abbrev pub steerable_of : TicketUrl → RunRow → Bool
steerable_of url r = of_ticket url r && is_steerable r.kind

unfoldable pub latest_session_runs : TicketUrl → Db → List RunRow
unfolding newest_run
latest_session_runs url d = elim (newest_run (select (steerable_of url) d.runs)) [
  | none ↦ []
  | some q ↦ elim q.session_id [ none ↦ [] | some session ↦ select (in_session url session) d.runs ]
]

-- The table `intents`.
pub record QueueVerbIntentParams : Type 0 where
  pub at : ℕ
  pub ticket_id : String
  pub verb : Verb
  pub payload : Payload

abbrev pub intent_row : ℕ → QueueVerbIntentParams → IntentRow
intent_row id p = record {
  id = id;
  at = p.at;
  ticket = p.ticket_id;
  verb = p.verb;
  payload = p.payload;
  consumed_at = none;
}

unfoldable pub queue_verb_intent_query : QueueVerbIntentParams → Db → Db
queue_verb_intent_query p d =
    let id = suc d.intent_seq in
    record d { intent_seq = id; intents = d.intents ++ intent_row id p ∷ [] }

abbrev pub awaits : Verb → IntentRow → Bool
awaits verb i = i.verb == verb && is_none i.consumed_at

unfoldable pub pending_verb_intents_query : Verb → Db → List IntentRow
pending_verb_intents_query verb d = select (awaits verb) d.intents

abbrev pub consumable : ℕ → IntentRow → Bool
consumable id i = i.id == id && is_none i.consumed_at

unfoldable pub consume_verb_intent_query : ℕ → ℕ → Db → ℕ × Db
consume_verb_intent_query at id d = (
  length (select (consumable id) d.intents),
  record d {
    intents = update_where (consumable id) (λ i. record i { consumed_at = some at }) d.intents;
  },
)

-- The join of members with active launches.
abbrev pub launch_is : String → ℕ → LaunchRow → Bool
launch_is state id l = l.id == id && l.state == state

abbrev pub in_launch : String → Db → MemberRow → Bool
in_launch state d m = any (launch_is state m.launch_id) d.launches

unfoldable pub active_launch_hashes_query : Db → List (TicketUrl × String)
active_launch_hashes_query d =
    map (λ (m : MemberRow). (m.ticket, m.prompt_hash)) (select (in_launch "active" d) d.members)
