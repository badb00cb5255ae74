-- ===== src/Store/Tickets.antt =====
-- internal/store/store.go, feature_closure.go and ticket_edit.go: tickets are imported, edited and
-- withdrawn, and what a feature may be blocked by. The queries on the table `tickets` are those of
-- ccdb/store.sql.go. The JSON of `blocked_by` is the list that it encodes.
use command_center.Prelude.{
  ℕ, String, Bool, false, not, ◌&&◌, ◌||◌, Option, none, some, List, [], ◌∷◌, ◌++◌, map,
  if◌then◌else◌, length, select, any, contains, find_first, is_none, is_some, is_empty, nat_eq,
  string_eq, ◌==◌, unwrap_or,
}
use command_center.Plan.Ids.{TicketUrl, BranchRef, branch_ref_eq}
use command_center.Plan.Ticket.{merged, pr_state_eq}
use command_center.Plan.Observation.{Observation, pr_at}
use command_center.Store.Db.{
  Db, Action, feature_conflict, feature_closure, FeatureConflict, FeatureClosure, TicketRow, ◌>>=◌,
  ◌>>◌, pure, raise, query, execute, statement, returning, in_tx, matched_row, update_where,
}
use command_center.Store.Queries.Runs.{run_ids_for_ticket_query}
use command_center.Store.Runs.{update_one}
use command_center.Store.Events.{last_observation}

abbrev pub is_active : TicketRow → Bool
is_active t = is_none t.withdrawn_at

unfoldable pub list_tickets : Db → List TicketRow
list_tickets d = select is_active d.tickets

abbrev pub ticket_row_by_url : TicketUrl → List TicketRow → Option TicketRow
ticket_row_by_url url rows = find_first (λ (t : TicketRow). t.url == url) rows

-- The feature of an active ticket; `none` is `sql.ErrNoRows`.
unfoldable pub get_ticket_feature : TicketUrl → Db → Option String
get_ticket_feature url d = elim (ticket_row_by_url url (list_tickets d)) [
  | none ↦ none
  | some t ↦ some t.feature
]

unfoldable pub list_tickets_in_feature : String → Db → List TicketRow
list_tickets_in_feature feature d =
    select (λ (t : TicketRow). t.feature == feature && is_active t) d.tickets

-- Rows of withdrawn tickets too.
unfoldable pub list_ticket_rows : List TicketUrl → Db → List TicketRow
list_ticket_rows urls d = select (λ (t : TicketRow). contains urls t.url) d.tickets

pub record TicketBlockedBy : Type 0 where
  pub url : TicketUrl
  pub blocked_by : List TicketUrl

-- The loop of `closeUnderBlockedBy` over the blockers of a ticket.
unfoldable pub first_violation :
    String
    → (TicketUrl → String)
    → (TicketUrl → Bool)
    → TicketUrl
    → List TicketUrl
    → Option FeatureClosure
first_violation feature feature_of is_merged url [] = none
first_violation feature feature_of is_merged url (b ∷ bs) =
    let rest = first_violation feature feature_of is_merged url bs in
    if feature_of b == feature || is_merged b
    then rest
    else some (record { feature = feature; url = url; blocker = b; blocker_feature = feature_of b })

unfoldable pub close_under_blocked_by :
    String
    → List TicketBlockedBy
    → (TicketUrl → String)
    → (TicketUrl → Bool)
    → Option FeatureClosure
unfolding first_violation
close_under_blocked_by feature [] feature_of is_merged = none
close_under_blocked_by feature (t ∷ ts) feature_of is_merged =
    let rest = close_under_blocked_by feature ts feature_of is_merged in
    elim (first_violation feature feature_of is_merged t.url t.blocked_by) [
      | some violation ↦ some violation
      | none ↦ rest
    ]

-- The two lookups of `closureLookups`, which read a blocker outside the table as no feature and as
-- not merged.
abbrev pub feature_in : List TicketRow → TicketUrl → String
feature_in rows url = elim (ticket_row_by_url url rows) [ none ↦ "" | some t ↦ t.feature ]

abbrev pub row_ref : TicketRow → BranchRef
row_ref t = record { repo = t.repo; branch = t.branch }

abbrev pub merged_in : Observation → List TicketRow → TicketUrl → Bool
merged_in obs rows url = elim (ticket_row_by_url url rows) [
  | none ↦ false
  | some t ↦ (pr_at obs (row_ref t)).state == merged
]

unfoldable pub note_blockers : List TicketUrl → List TicketUrl → List TicketUrl
note_blockers [] seen = seen
note_blockers (b ∷ bs) seen = note_blockers bs (if contains seen b then seen else seen ++ b ∷ [])

unfoldable pub blockers_of : List TicketBlockedBy → List TicketUrl → List TicketUrl
unfolding note_blockers
blockers_of [] seen = seen
blockers_of (t ∷ ts) seen = blockers_of ts (note_blockers t.blocked_by seen)

-- The two queries of `closureLookups` read the same rows.
unfoldable pub check_closure : String → List TicketBlockedBy → Observation → Action Unit
unfolding query list_ticket_rows blockers_of close_under_blocked_by
check_closure feature tickets obs = do
  let urls = blockers_of tickets []
  features ← query (list_ticket_rows urls)
  branches ← query (list_ticket_rows urls)
  elim (close_under_blocked_by feature tickets (feature_in features) (merged_in obs branches)) [
    | some violation ↦ raise (feature_closure violation)
    | none ↦ pure tt
  ]

-- A ticket of the tracker with its repository; `branch` is what `BranchSlug` makes of its number and
-- title.
pub record ImportedTicket : Type 0 where
  pub url : TicketUrl
  pub title : String
  pub body : String
  pub status : String
  pub blocked_by : List TicketUrl
  pub branch : String
  pub repo : String
  pub source : String

abbrev pub imported_row : String → ℕ → ImportedTicket → TicketRow
imported_row feature now t = record {
  url = t.url;
  repo = t.repo;
  branch = t.branch;
  blocked_by = t.blocked_by;
  source = t.source;
  title = t.title;
  body = t.body;
  status = t.status;
  feature = feature;
  synced_at = some now;
  withdrawn_at = none;
}

-- The first ticket that is stored under another feature.
unfoldable pub first_conflict :
    String → List TicketRow → List ImportedTicket → Option FeatureConflict
first_conflict feature existing [] = none
first_conflict feature existing (t ∷ ts) =
    let rest = first_conflict feature existing ts in
    let prior = feature_in existing t.url in
    if prior == "" || prior == feature
    then rest
    else some (record { url = t.url; existing = prior; importing = feature })

-- `lastPerURL`: of the rows of a URL the last, at the place of the first.
unfoldable pub put_row : TicketRow → List TicketRow → List TicketRow
put_row r [] = r ∷ []
put_row r (q ∷ qs) = let rest = put_row r qs in if q.url == r.url then r ∷ qs else q ∷ rest

unfoldable pub last_per_url : List TicketRow → List TicketRow → List TicketRow
unfolding put_row
last_per_url [] unique = unique
last_per_url (r ∷ rs) unique = last_per_url rs (put_row r unique)

-- `ON CONFLICT (url) DO UPDATE`, which keeps the branch and the blockers of a ticket.
abbrev pub refreshed_row : TicketRow → TicketRow → TicketRow
refreshed_row old new = record new { branch = old.branch; blocked_by = old.blocked_by }

unfoldable pub import_row : TicketRow → List TicketRow → List TicketRow
import_row r [] = r ∷ []
import_row r (q ∷ qs) =
    let rest = import_row r qs in if q.url == r.url then refreshed_row q r ∷ qs else q ∷ rest

unfoldable pub import_rows : List TicketRow → List TicketRow → List TicketRow
unfolding import_row
import_rows [] rows = rows
import_rows (r ∷ rs) rows = import_rows rs (import_row r rows)

abbrev pub import_tickets_query : List TicketRow → Db → Db
import_tickets_query rows d = record d { tickets = import_rows rows d.tickets }

abbrev pub intended_of : TicketRow → TicketBlockedBy
intended_of t = record { url = t.url; blocked_by = t.blocked_by }

abbrev pub withdrawable : List TicketUrl → TicketRow → Bool
withdrawable urls t = contains urls t.url && is_active t

unfoldable pub withdraw_tickets_query : ℕ → List TicketUrl → Db → ℕ × Db
withdraw_tickets_query now urls d = (
  length (select (withdrawable urls) d.tickets),
  record d {
    tickets =
        update_where (withdrawable urls) (λ (t : TicketRow). record t { withdrawn_at = some now })
          d.tickets;
  },
)

-- The blockers that are not among the withdrawn.
abbrev pub prune : List TicketUrl → List TicketUrl → List TicketUrl
prune withdrawn blocked_by = select (λ b. not (contains withdrawn b)) blocked_by

abbrev pub needs_repair : List TicketUrl → TicketRow → Bool
needs_repair withdrawn t = is_active t && any (λ b. contains withdrawn b) t.blocked_by

abbrev pub set_blocked_bys : List TicketUrl → Db → ℕ × Db
set_blocked_bys withdrawn d = (
  length (select (needs_repair withdrawn) d.tickets),
  record d {
    tickets =
        update_where (needs_repair withdrawn)
          (λ (t : TicketRow). record t { blocked_by = prune withdrawn t.blocked_by }) d.tickets;
  },
)

-- Without withdrawn tickets, or without a row to repair, nothing is written.
unfoldable pub repair_blocked_by : List TicketUrl → Action Unit
unfolding query update_one
repair_blocked_by withdrawn =
    if is_empty withdrawn
    then pure tt
    else (query (λ d. select (needs_repair withdrawn) d.tickets) >>= λ rows.
        if is_empty rows then pure tt else update_one (set_blocked_bys withdrawn))

abbrev pub merged_withdrawn : Observation → Db → List TicketUrl
merged_withdrawn obs d =
    map (λ (t : TicketRow). t.url)
      (select (λ (t : TicketRow). is_some t.withdrawn_at && (pr_at obs (row_ref t)).state == merged)
        d.tickets)

abbrev pub returned_of : List ImportedTicket → List TicketUrl
returned_of = map (λ (t : ImportedTicket). t.url)

-- A withdrawal that finds none of the dropped tickets is an error.
abbrev pub withdraw_dropped : ℕ → List TicketUrl → Action Unit
withdraw_dropped now dropped = do
  n ← statement (returning (withdraw_tickets_query now dropped))
  if is_empty dropped then pure tt else matched_row n

abbrev pub import_body : String → List ImportedTicket → ℕ → Action Unit
import_body feature tickets now = do
  let returned = returned_of tickets
  existing ← query (λ d. select is_active (list_ticket_rows returned d))
  elim (first_conflict feature existing tickets) [
    | some conflict ↦ raise (feature_conflict conflict)
    | none ↦ pure tt
  ]
  execute (import_tickets_query (last_per_url (map (imported_row feature now) tickets) []))
  previous ← query (list_tickets_in_feature feature)
  found ← last_observation
  check_closure feature
      (map intended_of (select (λ (t : TicketRow). contains returned t.url) previous)) found.0
  withdraw_dropped now (
      map (λ (t : TicketRow). t.url)
        (select (λ (t : TicketRow). not (contains returned t.url)) previous))
  merged_ones ← query (merged_withdrawn found.0)
  repair_blocked_by merged_ones

unfoldable pub import_tickets : String → List ImportedTicket → ℕ → Action Unit
unfolding in_tx query execute statement matched_row list_ticket_rows first_conflict last_per_url
    import_rows list_tickets_in_feature last_observation check_closure withdraw_tickets_query
    repair_blocked_by
import_tickets feature tickets now = in_tx (import_body feature tickets now)

abbrev pub withdraw_body : TicketUrl → ℕ → Bool → Action (List ℕ)
withdraw_body url now was_merged = do
  update_one (withdraw_tickets_query now (url ∷ []))
  runs ← query (run_ids_for_ticket_query url)
  if was_merged then repair_blocked_by (url ∷ []) else pure tt
  pure runs

unfoldable pub withdraw_ticket : TicketUrl → ℕ → Bool → Action (List ℕ)
unfolding in_tx query update_one withdraw_tickets_query run_ids_for_ticket_query repair_blocked_by
withdraw_ticket url now was_merged = in_tx (withdraw_body url now was_merged)

-- The tickets of the feature, with the blockers of the edited one replaced.
abbrev pub overridden : TicketUrl → List TicketUrl → TicketRow → TicketBlockedBy
overridden url blocked_by t = record {
  url = t.url;
  blocked_by = if t.url == url then blocked_by else t.blocked_by;
}

abbrev pub check_edit : TicketUrl → List TicketUrl → String → Action Unit
check_edit url blocked_by feature = do
  rows ← query (list_tickets_in_feature feature)
  found ← last_observation
  check_closure feature (map (overridden url blocked_by) rows) found.0

unfoldable pub edit_ticket_query : TicketUrl → String → List TicketUrl → Db → ℕ × Db
edit_ticket_query url branch blocked_by d = (
  length (select (λ (t : TicketRow). t.url == url) d.tickets),
  record d {
    tickets =
        update_where (λ (t : TicketRow). t.url == url)
          (λ (t : TicketRow). record t { branch = branch; blocked_by = blocked_by }) d.tickets;
  },
)

abbrev pub edit_body : TicketUrl → String → List TicketUrl → Action Unit
edit_body url branch blocked_by = do
  found ← query (get_ticket_feature url)
  let feature = unwrap_or found ""
  if feature == "" then pure tt else check_edit url blocked_by feature
  update_one (edit_ticket_query url branch blocked_by)

unfoldable pub edit_ticket : TicketUrl → String → List TicketUrl → Action Unit
unfolding in_tx query update_one get_ticket_feature list_tickets_in_feature last_observation
    check_closure edit_ticket_query
edit_ticket url branch blocked_by = in_tx (edit_body url branch blocked_by)

unfoldable pub tickets : Action (List TicketRow)
unfolding query list_tickets
tickets = query list_tickets
