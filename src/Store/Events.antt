-- ===== src/Store/Events.antt =====
-- internal/store/events.go and store.go: the audit events and the table `meta`.
use command_center.Prelude.{
  ℕ, suc, String, ◌⧺◌, Bool, true, false, Option, none, some, List, [], ◌∷◌, if◌then◌else◌,
  contains, select, not, has, nat_eq, string_eq, ◌==◌, Map, insert, get_or, unwrap_or,
}
use command_center.Plan.Ids.{TicketUrl}
use command_center.Plan.Observation.{Observation, new_observation}
use command_center.Store.Db.{
  Action, Result, ok, err, malformed, EventRow, TickError, ImportError, FeatureConflict,
  FeatureClosure, ◌>>=◌, ◌>>◌, pure, of_result, query, execute,
}
use command_center.Store.Queries.Events.{
  AppendEventParams, append_event_query, has_event_query, list_events_query,
  list_ticket_events_after,
}

abbrev pub EventKind : Type 0
EventKind = String

abbrev pub event_push_refused : EventKind
event_push_refused = "push_refused"

abbrev pub event_push_failed : EventKind
event_push_failed = "push_failed"

abbrev pub event_pushed : EventKind
event_pushed = "pushed"

abbrev pub event_import_refused : EventKind
event_import_refused = "import_refused"

abbrev pub event_remove_worktree_refused : EventKind
event_remove_worktree_refused = "remove_worktree_refused"

abbrev pub event_verdict_transition : EventKind
event_verdict_transition = "verdict_transition"

abbrev pub event_tick_error : EventKind
event_tick_error = "tick_error"

abbrev pub event_refresh_refused : EventKind
event_refresh_refused = "refresh_refused"

abbrev pub event_refresh_conflicted : EventKind
event_refresh_conflicted = "refresh_conflicted"

abbrev pub event_refreshed : EventKind
event_refreshed = "refreshed"

abbrev pub event_restacked : EventKind
event_restacked = "restacked"

abbrev pub event_verification_failed : EventKind
event_verification_failed = "verification_failed"

abbrev pub event_retargeted : EventKind
event_retargeted = "retargeted"

abbrev pub event_retarget_failed : EventKind
event_retarget_failed = "retarget_failed"

abbrev pub event_pr_opened : EventKind
event_pr_opened = "pr_opened"

abbrev pub event_pr_merged : EventKind
event_pr_merged = "pr_merged"

abbrev pub event_checks_landed : EventKind
event_checks_landed = "checks_landed"

abbrev pub event_run_launched : EventKind
event_run_launched = "run_launched"

abbrev pub event_run_disposed : EventKind
event_run_disposed = "run_disposed"

abbrev pub event_cut_failed : EventKind
event_cut_failed = "cut_failed"

abbrev pub event_spawn_failed : EventKind
event_spawn_failed = "spawn_failed"

abbrev pub event_worktree_removed : EventKind
event_worktree_removed = "worktree_removed"

abbrev pub event_launch_cancelled : EventKind
event_launch_cancelled = "launch_cancelled"

abbrev pub event_merge_aborted : EventKind
event_merge_aborted = "merge_aborted"

abbrev pub event_merge_abort_failed : EventKind
event_merge_abort_failed = "merge_abort_failed"

abbrev pub event_follow_up_refused : EventKind
event_follow_up_refused = "follow_up_refused"

abbrev pub event_draft_ready : EventKind
event_draft_ready = "draft_ready"

abbrev pub event_draft_ready_failed : EventKind
event_draft_ready_failed = "draft_ready_failed"

abbrev pub event_launch : EventKind
event_launch = "launch"

abbrev pub all_event_kinds : List EventKind
all_event_kinds =
    event_push_refused ∷ event_push_failed ∷ event_pushed ∷ event_import_refused
    ∷ event_remove_worktree_refused ∷ event_verdict_transition ∷ event_tick_error
    ∷ event_refresh_refused ∷ event_refresh_conflicted ∷ event_refreshed ∷ event_restacked
    ∷ event_verification_failed ∷ event_retargeted ∷ event_retarget_failed ∷ event_pr_opened
    ∷ event_pr_merged ∷ event_checks_landed ∷ event_run_launched ∷ event_run_disposed
    ∷ event_cut_failed ∷ event_spawn_failed ∷ event_worktree_removed ∷ event_launch_cancelled
    ∷ event_merge_aborted ∷ event_merge_abort_failed ∷ event_follow_up_refused ∷ event_draft_ready
    ∷ event_draft_ready_failed ∷ event_launch ∷ []

-- `none` is the error of an unknown word.
unfoldable pub parse_event_kind : String → Option EventKind
parse_event_kind s = if contains all_event_kinds s then some s else none

pub record Event : Type 0 where
  pub id : ℕ
  pub at : ℕ
  pub ticket_url : TicketUrl
  pub kind : EventKind
  pub detail : String

-- An empty URL is NULL in the database.
abbrev pub null_url : TicketUrl → Option TicketUrl
null_url url = if url == "" then none else some url

abbrev pub event_params : Event → AppendEventParams
event_params e = record {
  at = e.at;
  ticket_id = null_url e.ticket_url;
  kind = e.kind;
  detail = e.detail;
}

unfoldable pub append_event : Event → Action Unit
unfolding execute append_event_query
append_event e = execute (append_event_query (event_params e))

unfoldable pub has_event : TicketUrl → EventKind → Action Bool
unfolding query has_event_query
has_event url kind = query (has_event_query (null_url url) kind)

abbrev pub max_events : ℕ
max_events = 5000

abbrev pub event_of : ℕ → EventRow → EventKind → Event
event_of id r kind = record {
  id = id;
  at = r.at;
  ticket_url = unwrap_or r.ticket "";
  kind = kind;
  detail = r.detail;
}

-- `id_of` is what the caller reads as the id: `Events` reads none.
unfoldable pub collect_events : (EventRow → ℕ) → List EventRow → Result (List Event)
unfolding parse_event_kind
collect_events id_of [] = ok []
collect_events id_of (r ∷ rs) =
    let rest = collect_events id_of rs in
    elim (parse_event_kind r.kind) [
      | none ↦ err (malformed r.kind)
      | some kind ↦ elim rest [ err e ↦ err e | ok es ↦ ok (event_of (id_of r) r kind ∷ es) ]
    ]

unfoldable pub events : Action (List Event)
unfolding query list_events_query collect_events
events = do rows ← query (list_events_query max_events); of_result (collect_events (λ r. 0) rows)

unfoldable pub ticket_events_after : TicketUrl → ℕ → ℕ → Action (List Event)
unfolding query list_ticket_events_after collect_events
ticket_events_after url after_id limit = do
  rows ← query (list_ticket_events_after (null_url url) after_id limit)
  of_result (collect_events (λ (r : EventRow). r.id) rows)

-- The values of `meta`. A key that is absent reads as the zero value.
unfoldable pub checking_ticks : Action (Map TicketUrl ℕ)
unfolding query
checking_ticks = query (λ d. d.checking_ticks)

abbrev pub put_checking_ticks : Map TicketUrl ℕ → Action Unit
put_checking_ticks ticks = execute (λ d. record d { checking_ticks = ticks })

unfoldable pub tick_each : List TicketUrl → Map TicketUrl ℕ → Map TicketUrl ℕ
tick_each [] ticks = ticks
tick_each (url ∷ urls) ticks = tick_each urls (insert url (suc (get_or url 0 ticks)) ticks)

unfoldable pub increment_checking_ticks : List TicketUrl → Action Unit
unfolding checking_ticks execute tick_each
increment_checking_ticks urls = do ticks ← checking_ticks; put_checking_ticks (tick_each urls ticks)

abbrev pub without_key : {V : Type 0} → String → Map String V → Map String V
without_key k m = select (λ e. not (e.0 == k)) m

unfoldable pub reset_checking_ticks : TicketUrl → Action Unit
unfolding checking_ticks execute
reset_checking_ticks url = do
  ticks ← checking_ticks
  if has url ticks then put_checking_ticks (without_key url ticks) else pure tt

unfoldable pub last_verdicts : Action (Map TicketUrl String)
unfolding query
last_verdicts = query (λ d. d.last_verdicts)

unfoldable pub save_last_verdicts : Map TicketUrl String → Action Unit
unfolding execute
save_last_verdicts verdicts = execute (λ d. record d { last_verdicts = verdicts })

unfoldable pub save_observation : Observation → Action Unit
unfolding execute
save_observation obs = execute (λ d. record d { observation = some obs })

-- The zero observation of Go, all of whose maps are nil, where none was saved.
abbrev pub found_observation : Option Observation → Observation × Bool
found_observation none = (new_observation 0, false)
found_observation (some obs) = (obs, true)

unfoldable pub last_observation : Action (Observation × Bool)
unfolding query
last_observation = query (λ d. found_observation d.observation)

abbrev pub plain_event : ℕ → TicketUrl → EventKind → String → Event
plain_event at url kind detail = record {
  id = 0;
  at = at;
  ticket_url = url;
  kind = kind;
  detail = detail;
}

unfoldable pub record_tick_error : TickError → Action Unit
unfolding execute append_event
record_tick_error e =
    execute (λ d. record d { last_error = some e })
    >> append_event (plain_event e.at "" event_tick_error e.message)

unfoldable pub last_error : Action (Option TickError)
unfolding query
last_error = query (λ d. d.last_error)

unfoldable pub last_import_error : Action (Option ImportError)
unfolding query
last_import_error = query (λ d. d.import_error)

-- Go's `%q` of a text without characters to escape.
abbrev pub quote : String → String
quote s = "\"" ⧺ s ⧺ "\""

unfoldable pub closure_message : FeatureClosure → String
closure_message c =
    if c.blocker_feature == ""
    then "ticket "
      ⧺ c.url
      ⧺ " is blocked by "
      ⧺ c.blocker
      ⧺ ", which is not in feature "
      ⧺ quote c.feature
      ⧺ " or any other, refusing to import it"
    else "ticket "
      ⧺ c.url
      ⧺ " is blocked by "
      ⧺ c.blocker
      ⧺ ", which belongs to feature "
      ⧺ quote c.blocker_feature
      ⧺ ", not "
      ⧺ quote c.feature

unfoldable pub conflict_message : FeatureConflict → String
conflict_message c =
    "ticket "
    ⧺ c.url
    ⧺ " already belongs to feature "
    ⧺ quote c.existing
    ⧺ ", refusing to import it into "
    ⧺ quote c.importing

-- The two errors that are import refusals.
pub data ImportRefusal : Type 0 where
  conflicting : FeatureConflict → ImportRefusal
  unclosed : FeatureClosure → ImportRefusal

abbrev pub refusal_message : ImportRefusal → String
refusal_message (conflicting c) = conflict_message c
refusal_message (unclosed c) = closure_message c

abbrev pub refused_ticket : ImportRefusal → TicketUrl
refused_ticket (conflicting c) = c.url
refused_ticket (unclosed c) = ""

unfoldable pub record_import_refusal : String → ImportRefusal → ℕ → Action Unit
unfolding execute append_event
record_import_refusal feature refusal now =
    execute (λ d. record d {
      import_error =
          some (record { at = now; feature = feature; message = refusal_message refusal });
    })
    >> append_event
        (plain_event now (refused_ticket refusal) event_import_refused (refusal_message refusal))
