-- ===== src/Store/Repos.antt =====
-- internal/store/repos.go, utilization.go, intervals.go and retention.go, with their queries: the
-- repositories, the readings of utilization, and what is deleted with time.
use command_center.Prelude.{
  ℕ, ◌*◌, zero, suc, false, ◌-◌, String, Bool, ◌&&◌, not, Option, none, some, List, [], ◌∷◌, ◌++◌,
  map, if◌then◌else◌, length, select, any, unwrap_or, ltb, nat_eq, string_eq, ◌==◌, Map, insert,
}
use command_center.Prelude.Sorting.{sort_by, string_lt}
use command_center.Plan.Vocab.{RepoPhase, RefusalKind, parse_repo_phase, parse_refusal_kind}
use command_center.Plan.Repos.{RepoStatus}
use command_center.Store.Db.{
  Db, Action, Result, ok, err, malformed, RepoRow, ReadingRow, IntervalRow, EventRow, IntentRow,
  query, execute, of_result, pure, update_where, ◌>>=◌, ◌>>◌,
}
use command_center.Store.Runs.{update_one, null_if_empty}

pub record Repo : Type 0 where
  pub name : String
  pub remote : String
  pub phase : RepoPhase
  pub refusal_kind : RefusalKind
  pub refusal : String
  pub settings_source : String
  pub settings_read_at : Option ℕ
  pub tracked_at : ℕ
  pub project : String

unfoldable pub list_repos : Db → List RepoRow
unfolding sort_by
list_repos d = sort_by (λ (a b : RepoRow). string_lt a.name b.name) d.repos

-- The kind of a refusal, which is the empty word where there is none.
abbrev pub refusal_kind_of : Option String → Option RefusalKind
refusal_kind_of none = some ""
refusal_kind_of (some word) = parse_refusal_kind word

abbrev pub repo_of : RepoRow → RepoPhase → RefusalKind → Repo
repo_of r phase kind = record {
  name = r.name;
  remote = r.remote;
  phase = phase;
  refusal_kind = kind;
  refusal = unwrap_or r.refusal "";
  settings_source = unwrap_or r.settings_source "";
  settings_read_at = r.settings_read_at;
  tracked_at = r.tracked_at;
  project = unwrap_or r.project "";
}

unfoldable pub collect_repos : List RepoRow → Result (List Repo)
unfolding parse_repo_phase parse_refusal_kind
collect_repos [] = ok []
collect_repos (r ∷ rs) =
    let rest = collect_repos rs in
    elim (parse_repo_phase r.state) [
      | none ↦ err (malformed r.name)
      | some phase ↦ elim (refusal_kind_of r.refusal_kind) [
        | none ↦ err (malformed r.name)
        | some kind ↦ elim rest [ err e ↦ err e | ok repos ↦ ok (repo_of r phase kind ∷ repos) ]
      ]
    ]

unfoldable pub repos : Action (List Repo)
unfolding query list_repos collect_repos
repos = do rows ← query list_repos; of_result (collect_repos rows)

abbrev pub new_row : Repo → RepoRow
new_row r = record {
  name = r.name;
  remote = r.remote;
  state = r.phase;
  refusal_kind = null_if_empty r.refusal_kind;
  refusal = null_if_empty r.refusal;
  settings_source = none;
  settings_read_at = none;
  tracked_at = r.tracked_at;
  project = none;
}

abbrev pub upserted : RepoRow → RepoRow → RepoRow
upserted r q = record q {
  remote = r.remote;
  state = r.state;
  refusal_kind = r.refusal_kind;
  refusal = r.refusal;
}

unfoldable pub upsert_row : RepoRow → List RepoRow → List RepoRow
upsert_row r [] = r ∷ []
upsert_row r (q ∷ qs) =
    let rest = upsert_row r qs in if q.name == r.name then upserted r q ∷ qs else q ∷ rest

unfoldable pub upsert_repo : Repo → Action Unit
unfolding execute upsert_row
upsert_repo r = execute (λ d. record d { repos = upsert_row (new_row r) d.repos })

abbrev pub is_named : String → RepoRow → Bool
is_named name r = r.name == name

abbrev pub in_state : Repo → RepoRow → RepoRow
in_state r q = record q {
  state = r.phase;
  refusal_kind = null_if_empty r.refusal_kind;
  refusal = null_if_empty r.refusal;
  settings_source = null_if_empty r.settings_source;
  settings_read_at = r.settings_read_at;
}

unfoldable pub set_repo_state_query : Repo → Db → ℕ × Db
set_repo_state_query r d = (
  length (select (is_named r.name) d.repos),
  record d { repos = update_where (is_named r.name) (in_state r) d.repos },
)

unfoldable pub set_repo_state : Repo → Action Unit
unfolding update_one set_repo_state_query
set_repo_state r = update_one (set_repo_state_query r)

abbrev pub status_of : Repo → RepoStatus
status_of r = record {
  name = r.name;
  phase = r.phase;
  refusal_kind = r.refusal_kind;
  refusal = r.refusal;
}

unfoldable pub repo_statuses : Action (List RepoStatus)
unfolding repos
repo_statuses = do rs ← repos; pure (map status_of rs)

-- `ON CONFLICT … DO NOTHING` on the time and the window.
abbrev pub same_reading : ReadingRow → ReadingRow → Bool
same_reading r q = q.at == r.at && q.window == r.window

unfoldable pub add_readings : List ReadingRow → List ReadingRow → List ReadingRow
add_readings [] rows = rows
add_readings (r ∷ rs) rows =
    add_readings rs (if any (same_reading r) rows then rows else rows ++ r ∷ [])

abbrev pub same_interval : IntervalRow → IntervalRow → Bool
same_interval i j = j.window == i.window && j.start_at == i.start_at

unfoldable pub add_intervals : List IntervalRow → List IntervalRow → List IntervalRow
add_intervals [] rows = rows
add_intervals (i ∷ is) rows =
    add_intervals is (if any (same_interval i) rows then rows else rows ++ i ∷ [])

unfoldable pub record_readings : List ReadingRow → Action Unit
unfolding execute add_readings
record_readings rs = execute (λ d. record d { readings = add_readings rs d.readings })

unfoldable pub record_intervals : List IntervalRow → Action Unit
unfolding execute add_intervals
record_intervals is = execute (λ d. record d { intervals = add_intervals is d.intervals })

-- `DISTINCT ON` the window, the latest first.
abbrev pub is_latest_reading : List ReadingRow → ReadingRow → Bool
is_latest_reading rows r =
    not (any (λ (q : ReadingRow). q.window == r.window && ltb r.at q.at) rows)

unfoldable pub fill_readings : List ReadingRow → Map String ReadingRow → Map String ReadingRow
fill_readings [] m = m
fill_readings (r ∷ rs) m = fill_readings rs (insert r.window r m)

unfoldable pub latest_readings_full : Action (Map String ReadingRow)
unfolding query fill_readings
latest_readings_full = do
  rows ← query (λ d. select (is_latest_reading d.readings) d.readings)
  pure (fill_readings rows [])

-- Durations in nanoseconds.
abbrev pub day : ℕ
day = 24 * 3600000000000

abbrev pub consumed_intent_retention : ℕ
consumed_intent_retention = 30 * day

abbrev pub tick_error_retention : ℕ
tick_error_retention = 30 * day

abbrev pub reading_retention : ℕ
reading_retention = 90 * day

abbrev pub interval_retention : ℕ
interval_retention = 14 * day

abbrev pub prune_batch : ℕ
prune_batch = 1000

-- `LIMIT`: at most `n` of the rows that pass the test go, the first in the table.
unfoldable pub without_first : {Row : Type 0} → ℕ → (Row → Bool) → List Row → List Row
without_first n test [] = []
without_first zero test (r ∷ rs) = r ∷ rs
without_first (suc n) test (r ∷ rs) =
    let gone = without_first n test rs in
    let kept = r ∷ without_first (suc n) test rs in if test r then gone else kept

abbrev pub consumed_before : ℕ → IntentRow → Bool
consumed_before before i = elim i.consumed_at [ none ↦ false | some at ↦ ltb at before ]

abbrev pub prune_consumed_intents : ℕ → Db → Db
prune_consumed_intents before d = record d {
  intents = without_first prune_batch (consumed_before before) d.intents;
}

abbrev pub tick_error_before : ℕ → EventRow → Bool
tick_error_before before e = e.kind == "tick_error" && ltb e.at before

abbrev pub prune_tick_errors : ℕ → Db → Db
prune_tick_errors before d = record d {
  events = without_first prune_batch (tick_error_before before) d.events;
}

-- A reading goes only where a later one of its window stays.
abbrev pub prune_readings : ℕ → Db → Db
prune_readings before d = record d {
  readings =
      without_first prune_batch
        (λ (r : ReadingRow). ltb r.at before && not (is_latest_reading d.readings r)) d.readings;
}

abbrev pub prune_intervals : ℕ → Db → Db
prune_intervals before d = record d {
  intervals = without_first prune_batch (λ (i : IntervalRow). ltb i.end_at before) d.intervals;
}

-- Four statements, the first of which to fail ends it.
unfoldable pub prune_history : ℕ → Action Unit
unfolding execute without_first
prune_history now =
    execute (prune_consumed_intents (now - consumed_intent_retention))
    >> execute (prune_tick_errors (now - tick_error_retention))
    >> execute (prune_readings (now - reading_retention))
    >> execute (prune_intervals (now - interval_retention))
