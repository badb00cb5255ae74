-- ===== src/Store/Pushes.antt =====
-- internal/store/pushes.go, refresh.go and removal.go: the facts that the events and the pushes of a
-- ticket give to the derivation.
use command_center.Prelude.{
  ℕ, String, cut, Bool, true, Option, none, some, List, [], ◌∷◌, if◌then◌else◌, nat_eq, string_eq,
  ◌==◌, Map, insert, map,
}
use command_center.Plan.Ids.{TicketUrl, Sha}
use command_center.Plan.Input.{PushRow, PushFact, zero_push_fact, RefreshFact, ConflictAt}
use command_center.Store.Db.{
  Action, Result, ok, err, malformed, EventRow, PushRecord, ◌>>=◌, ◌>>◌, pure, of_result, query,
  execute,
}
use command_center.Store.Queries.Events.{
  RecordPushParams, record_push_query, list_latest_pushes, list_push_facts,
  list_latest_refresh_outcomes, restacked_since_last_push_query, list_latest_removal_refusals,
}
use command_center.Store.Events.{
  EventKind, parse_event_kind, reset_checking_ticks, event_push_refused, event_push_failed,
  event_refresh_refused, event_refresh_conflicted, event_verification_failed, event_refreshed,
  event_restacked, event_remove_worktree_refused,
}

pub record Push : Type 0 where
  pub ticket : TicketUrl
  pub tip : Sha
  pub base_sha : Sha
  pub base_branch : String
  pub at : ℕ

abbrev pub push_params : Push → RecordPushParams
push_params p = record {
  ticket_id = p.ticket;
  pushed_tip = p.tip;
  base_branch = p.base_branch;
  base_sha_at_push = p.base_sha;
  pushed_at = p.at;
}

unfoldable pub record_push : Push → Action Unit
unfolding execute record_push_query reset_checking_ticks
record_push p = execute (record_push_query (push_params p)) >> reset_checking_ticks p.ticket

unfoldable pub fill_restacked : List EventRow → Map TicketUrl Bool → Map TicketUrl Bool
fill_restacked [] m = m
fill_restacked (e ∷ es) m =
    fill_restacked es (elim e.ticket [ none ↦ m | some url ↦ insert url true m ])

unfoldable pub restacked_since_last_push : Action (Map TicketUrl Bool)
unfolding query restacked_since_last_push_query fill_restacked
restacked_since_last_push = do
  rows ← query (restacked_since_last_push_query event_restacked)
  pure (fill_restacked rows [])

abbrev pub push_row_of : PushRecord → PushRow
push_row_of r = record {
  pushed_tip = r.pushed_tip;
  base_branch = r.base_branch;
  base_sha_at_push = r.base_sha_at_push;
  pushed_at = r.pushed_at;
}

unfoldable pub fill_pushes : List PushRecord → Map TicketUrl PushRow → Map TicketUrl PushRow
fill_pushes [] m = m
fill_pushes (r ∷ rs) m = fill_pushes rs (insert r.ticket (push_row_of r) m)

unfoldable pub latest_pushes : Action (Map TicketUrl PushRow)
unfolding query list_latest_pushes fill_pushes
latest_pushes = do rows ← query list_latest_pushes; pure (fill_pushes rows [])

unfoldable pub last_pushed_tips : Action (Map TicketUrl Sha)
unfolding latest_pushes
last_pushed_tips = do pushes ← latest_pushes; pure (map (λ e. (e.0, e.1.pushed_tip)) pushes)

abbrev pub push_fact : TicketUrl → String → String → Map TicketUrl PushFact → Map TicketUrl PushFact
push_fact url kind detail m =
    if kind == event_push_refused
    then insert url (record zero_push_fact { refused = true; refused_path = detail }) m
    else if kind == event_push_failed
    then insert url (record zero_push_fact { failed = true }) m
    else m

-- Of each row with a ticket the kind is parsed, and `add` is applied.
unfoldable pub collect_facts :
    {F : Type 0}
    → (TicketUrl → EventKind → String → Map TicketUrl F → Map TicketUrl F)
    → List EventRow
    → Map TicketUrl F
    → Result (Map TicketUrl F)
unfolding parse_event_kind
collect_facts add [] m = ok m
collect_facts add (e ∷ es) m = elim e.ticket [
  | none ↦ collect_facts add es m
  | some url ↦ elim (parse_event_kind e.kind) [
    | none ↦ err (malformed e.kind)
    | some kind ↦ collect_facts add es (add url kind e.detail m)
  ]
]

unfoldable pub push_facts : Action (Map TicketUrl PushFact)
unfolding query list_push_facts collect_facts
push_facts = do
  rows ← query (list_push_facts (event_push_refused ∷ event_push_failed ∷ []))
  of_result (collect_facts push_fact rows [])

pub record RefreshOutcome : Type 0 where
  pub kind : EventKind
  pub detail : String

abbrev pub refresh_kinds : List EventKind
refresh_kinds =
    event_refresh_refused ∷ event_refresh_conflicted ∷ event_verification_failed ∷ event_refreshed
    ∷ event_restacked ∷ []

abbrev pub refresh_outcome :
    TicketUrl → EventKind → String → Map TicketUrl RefreshOutcome → Map TicketUrl RefreshOutcome
refresh_outcome url kind detail m = insert url (record { kind = kind; detail = detail }) m

unfoldable pub latest_refresh_outcomes : Action (Map TicketUrl RefreshOutcome)
unfolding query list_latest_refresh_outcomes collect_facts
latest_refresh_outcomes = do
  rows ← query (list_latest_refresh_outcomes refresh_kinds)
  of_result (collect_facts refresh_outcome rows [])

-- `strings.SplitN(detail, " ", 3)`, of which the first two fields are read.
unfoldable pub parse_conflict_detail : String → Option ConflictAt
unfolding cut
parse_conflict_detail detail = elim (cut detail " ") [
  | none ↦ none
  | some (branch_tip, rest) ↦ elim (cut rest " ") [
    | none ↦ none
    | some (base_tip, message) ↦ some (record { branch_tip = branch_tip; base_tip = base_tip })
  ]
]

abbrev pub conflict_of : RefreshOutcome → Option ConflictAt
conflict_of o = if o.kind == event_refresh_conflicted then parse_conflict_detail o.detail else none

unfoldable pub refresh_fact : RefreshOutcome → RefreshFact
unfolding parse_conflict_detail
refresh_fact o =
    let refused = o.kind == event_refresh_refused in
    let failed = o.kind == event_verification_failed in
    record {
      tried = true;
      refused = refused;
      reason = if refused then o.detail else "";
      verification_failed = failed;
      verification_failed_detail = if failed then o.detail else "";
      conflict = conflict_of o;
    }

unfoldable pub refresh_facts : Action (Map TicketUrl RefreshFact)
unfolding latest_refresh_outcomes refresh_fact
refresh_facts = do
  outcomes ← latest_refresh_outcomes
  pure (map (λ e. (e.0, refresh_fact e.1)) outcomes)

unfoldable pub fill_refusals : List EventRow → Map TicketUrl String → Map TicketUrl String
fill_refusals [] m = m
fill_refusals (e ∷ es) m =
    fill_refusals es (elim e.ticket [ none ↦ m | some url ↦ insert url e.detail m ])

unfoldable pub removal_refusals : Action (Map TicketUrl String)
unfolding query list_latest_removal_refusals fill_refusals
removal_refusals = do
  rows ← query (list_latest_removal_refusals event_remove_worktree_refused)
  pure (fill_refusals rows [])
