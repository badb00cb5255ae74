-- ===== src/Store/Queries/Events.antt =====
-- internal/store/ccdb/store.sql.go, pushes.sql.go, refresh.sql.go and removal.sql.go: the queries on the
-- tables `events`, `pushes` and `meta`.
use command_center.Prelude.{
  ℕ, suc, max, String, Bool, true, false, not, ◌&&◌, ◌||◌, Option, none, some, List, [], ◌∷◌, ◌++◌,
  if◌then◌else◌, length, select, any, every, take, contains, is_some, nat_eq, string_eq, ◌==◌, ltb,
  leb,
}
use command_center.Plan.Ids.{TicketUrl, Sha}
use command_center.Store.Db.{Db, EventRow, PushRecord}
use command_center.Store.Queries.Runs.{holds}
use command_center.Store.Queries.Launch.{add_event}

pub record AppendEventParams : Type 0 where
  pub at : ℕ
  pub ticket_id : Option TicketUrl
  pub kind : String
  pub detail : String

unfoldable pub append_event_query : AppendEventParams → Db → Db
append_event_query p = add_event p.at p.ticket_id p.kind p.detail

abbrev pub event_is : TicketUrl → String → EventRow → Bool
event_is url kind e = holds e.ticket url && e.kind == kind

-- `EXISTS`, where a NULL ticket id equals nothing.
unfoldable pub has_event_query : Option TicketUrl → String → Db → Bool
has_event_query none kind d = false
has_event_query (some url) kind d = any (event_is url kind) d.events

-- The newest rows, in the order of their ids.
abbrev pub last_rows : {Row : Type 0} → ℕ → List Row → List Row
last_rows n [] = []
last_rows n (r ∷ rs) = let rest = last_rows n rs in if ltb (length rest) n then r ∷ rest else rest

unfoldable pub list_events_query : ℕ → Db → List EventRow
list_events_query max_rows d = last_rows max_rows d.events

unfoldable pub list_ticket_events_after : Option TicketUrl → ℕ → ℕ → Db → List EventRow
list_ticket_events_after none after_id max_rows d = []
list_ticket_events_after (some url) after_id max_rows d =
    take max_rows (select (λ (e : EventRow). holds e.ticket url && ltb after_id e.id) d.events)

pub record RecordPushParams : Type 0 where
  pub ticket_id : TicketUrl
  pub pushed_tip : Sha
  pub base_branch : String
  pub base_sha_at_push : Sha
  pub pushed_at : ℕ

unfoldable pub record_push_query : RecordPushParams → Db → Db
record_push_query p d =
    let id = suc d.push_seq in
    record d {
      push_seq = id;
      pushes =
          d.pushes
          ++ record {
            id = id;
            ticket = p.ticket_id;
            pushed_tip = p.pushed_tip;
            base_branch = p.base_branch;
            base_sha_at_push = p.base_sha_at_push;
            pushed_at = p.pushed_at;
          }
            ∷ [];
    }

-- `DISTINCT ON (ticket_id) … ORDER BY ticket_id, id DESC`.
abbrev pub is_last_push : List PushRecord → PushRecord → Bool
is_last_push rows p = every (λ (q : PushRecord). not (q.ticket == p.ticket) || leb q.id p.id) rows

unfoldable pub list_latest_pushes : Db → List PushRecord
list_latest_pushes d = select (is_last_push d.pushes) d.pushes

-- The subquery `MAX(pushed_at)` of a ticket; `none` where the left join finds no push.
unfoldable pub last_pushed_at : TicketUrl → List PushRecord → Option ℕ
last_pushed_at url [] = none
last_pushed_at url (p ∷ ps) =
    let rest = last_pushed_at url ps in
    if p.ticket == url
    then elim rest [ none ↦ some p.pushed_at | some at ↦ some (max p.pushed_at at) ]
    else rest

-- `p.pushed_at IS NULL OR e.at > p.pushed_at`.
abbrev pub after_push : Db → TicketUrl → ℕ → Bool
after_push d url at = elim (last_pushed_at url d.pushes) [ none ↦ true | some p ↦ ltb p at ]

abbrev pub at_or_after_push : Db → TicketUrl → ℕ → Bool
at_or_after_push d url at = elim (last_pushed_at url d.pushes) [ none ↦ true | some p ↦ leb p at ]

abbrev pub concerns : Db → List String → EventRow → Bool
concerns d kinds e = elim e.ticket [
  | none ↦ false
  | some url ↦ contains kinds e.kind && after_push d url e.at
]

abbrev pub same_ticket : EventRow → EventRow → Bool
same_ticket e f = elim e.ticket [ none ↦ false | some url ↦ holds f.ticket url ]

abbrev pub is_last_event : List EventRow → EventRow → Bool
is_last_event rows e = every (λ (f : EventRow). not (same_ticket e f) || leb f.id e.id) rows

abbrev pub last_of_each : List EventRow → List EventRow
last_of_each rows = select (is_last_event rows) rows

-- ListPushFacts and ListLatestRefreshOutcomes are the same query, on other kinds.
unfoldable pub list_push_facts : List String → Db → List EventRow
unfolding last_pushed_at
list_push_facts kinds d = last_of_each (select (concerns d kinds) d.events)

unfoldable pub list_latest_refresh_outcomes : List String → Db → List EventRow
unfolding last_pushed_at
list_latest_refresh_outcomes kinds d = last_of_each (select (concerns d kinds) d.events)

-- A ticket may come more than once where SQL says `DISTINCT`; the caller fills a map.
abbrev pub restacks : Db → String → EventRow → Bool
restacks d kind e =
    e.kind == kind && elim e.ticket [ none ↦ true | some url ↦ at_or_after_push d url e.at ]

unfoldable pub restacked_since_last_push_query : String → Db → List EventRow
unfolding last_pushed_at
restacked_since_last_push_query kind d = select (restacks d kind) d.events

unfoldable pub list_latest_removal_refusals : String → Db → List EventRow
list_latest_removal_refusals kind d =
    last_of_each (select (λ (e : EventRow). is_some e.ticket && e.kind == kind) d.events)
