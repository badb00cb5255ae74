-- ===== src/Store/Input.antt =====
-- internal/store/planinput.go: what a derivation reads of the store.
use command_center.Prelude.{
  ℕ, ◌*◌, String, Option, none, some, List, [], ◌∷◌, map, if◌then◌else◌, has, string_eq, Map,
  insert, lookup,
}
use command_center.Plan.Ids.{TicketUrl}
use command_center.Plan.Ticket.{Ticket, zero_choice}
use command_center.Plan.Input.{VerdictFacts, Recorded, RunSummary}
use command_center.Plan.Input
use command_center.Plan.Observation.{new_observation}
use command_center.Store.Db.{
  Action, Result, ok, err, not_found, TicketRow, ReadingRow, Payload, ◌>>=◌, pure, raise,
}
use command_center.Store.Runs.{latest_runs_by_ticket, latest_session_id, pass_runs}
use command_center.Store.Intents.{pending_intents}
use command_center.Store.Launch.{launch_memberships}
use command_center.Store.Events.{
  event_pr_opened, event_pr_merged, has_event, last_observation, last_verdicts, checking_ticks,
}
use command_center.Store.Pushes.{
  latest_pushes, push_facts, refresh_facts, restacked_since_last_push, removal_refusals,
}
use command_center.Store.Tickets.{tickets}
use command_center.Store.Repos.{repo_statuses, latest_readings_full}

-- `TickPeriod`, 15 seconds, in nanoseconds.
abbrev pub tick_period : ℕ
tick_period = 15000000000

unfoldable pub verdict_facts : Action VerdictFacts
unfolding latest_pushes checking_ticks
verdict_facts = do
  push_rows ← latest_pushes
  ticks ← checking_ticks
  pure (record { push_rows = push_rows; checking_for = map (λ e. (e.0, e.1 * tick_period)) ticks })

abbrev pub plan_ticket : TicketRow → Ticket
plan_ticket t = record {
  url = t.url;
  repo = t.repo;
  branch = t.branch;
  blocked_by = t.blocked_by;
  worked_example_branch = "";
  launch_context = "";
  choice = zero_choice;
}

-- The session of a ticket that has a run; that there is none is no error.
abbrev pub add_session :
    TicketUrl → Map TicketUrl String → Result String → Action (Map TicketUrl String)
add_session url sessions (ok session) = pure (insert url session sessions)
add_session url sessions (err not_found) = pure sessions
add_session url sessions (err e) = raise e

unfoldable pub session_for :
    Map TicketUrl RunSummary → TicketUrl → Map TicketUrl String → Action (Map TicketUrl String)
unfolding latest_session_id has
session_for runs url sessions w =
    let (session, t) = latest_session_id url w in
    if has url runs then add_session url sessions session t else (ok sessions, w)

-- The loop over the tickets.
unfoldable pub read_each :
    Map TicketUrl RunSummary
    → List TicketRow
    → Map TicketUrl String
    → Map TicketUrl Recorded
    → Action (Map TicketUrl String × Map TicketUrl Recorded)
unfolding session_for has_event
read_each runs [] sessions recorded = pure (sessions, recorded)
read_each runs (t ∷ ts) sessions recorded = do
  more ← session_for runs t.url sessions
  opened ← has_event t.url event_pr_opened
  merged ← has_event t.url event_pr_merged
  read_each runs ts more (insert t.url (record { opened = opened; merged = merged }) recorded)

abbrev pub five_hour_window : String
five_hour_window = "five_hour"

-- `utilization` reads the number of a reading; `zero` is the number 0.
module _ {F : Type 0} (json : Payload → String) (utilization : String → F) (zero : F) where
  abbrev pub five_hour_of : Option ReadingRow → F
  five_hour_of none = zero
  five_hour_of (some r) = utilization r.utilization

  -- The caller puts its own `now`, `obs` and `prev`.
  unfoldable pub plan_input : Action (Input.Input F)
  unfolding new_observation tickets last_observation launch_memberships latest_runs_by_ticket
      push_facts refresh_facts pending_intents repo_statuses restacked_since_last_push last_verdicts
      removal_refusals verdict_facts pass_runs latest_readings_full read_each
  plan_input = do
    rows ← tickets
    observed ← last_observation
    memberships ← launch_memberships
    runs ← latest_runs_by_ticket
    pushes ← push_facts
    refreshes ← refresh_facts
    intents ← pending_intents json
    repos ← repo_statuses
    restacked ← restacked_since_last_push
    verdicts ← last_verdicts
    removals ← removal_refusals
    verdict ← verdict_facts
    passes ← pass_runs
    gauges ← latest_readings_full
    each ← read_each runs rows [] []
    pure (record {
      now = 0;
      observed = observed.1;
      tickets = map plan_ticket rows;
      obs = observed.0;
      prev = new_observation 0;
      repos = repos;
      memberships = memberships;
      runs = runs;
      pushes = pushes;
      refreshes = refreshes;
      restacked = restacked;
      sessions = each.0;
      recorded = each.1;
      last_verdicts = verdicts;
      verdict = verdict;
      intents = intents;
      removals = removals;
      five_hour = five_hour_of (lookup five_hour_window gauges);
      passes = passes;
    })
