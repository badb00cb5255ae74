-- ===== src/Store/Launch.antt =====
-- internal/store/launch.go: launch intents become launches, and launches are withdrawn.
pub mod Groups
pub mod Inserted
pub mod Applied
pub mod Twice
pub mod Cancelled
use command_center.Prelude.{
  ℕ, ◌+◌, String, ◌⧺◌, decimal, Bool, true, false, not, Option, none, some, List, [], ◌∷◌, ◌++◌,
  map, arith, if◌then◌else◌, length, has, contains, unwrap_or, nat_eq, string_eq, ◌==◌, Map, insert,
  lookup, get_or,
}
use command_center.Plan.Ids.{TicketUrl}
use command_center.Plan.Ticket.{AgentChoice, zero_choice}
use command_center.Plan.Input.{LaunchMembership, zero_membership}
use command_center.Store.Db.{
  Db, Action, Result, ok, err, Error, malformed, not_found, Payload, null, text, launch_object,
  edit_object, LaunchPayload, IntentRow, ◌>>=◌, ◌>>◌, pure, raise, or_raise, of_result, query,
  execute, statement, returning, in_tx,
}
use command_center.Store.Queries.Launch.{
  InsertLaunchParams, ListLaunchMembershipsRow, claim_launch_intents_query, insert_launch_query,
  insert_launch_members_query, insert_launch_event_query, queue_launch_intent_query,
  active_launch_member_count, cancel_active_launches, list_launch_memberships,
  feature_first_launch_query,
}
use command_center.Store.Queries.Runs.{active_launch_hashes_query}
use command_center.Store.Runs.{choice_columns, choice_from, append_to}

abbrev pub max_launch_memberships : ℕ
max_launch_memberships = 5000

pub record LaunchRequest : Type 0 where
  pub ticket : TicketUrl
  pub prompt_hash : String
  pub group : String
  pub context : String
  pub choice : AgentChoice
  pub workflow : String
  pub at : ℕ

abbrev pub launch_payload : LaunchRequest → LaunchPayload
launch_payload l = record {
  prompt_hash = l.prompt_hash;
  group = l.group;
  context = l.context;
  choice = l.choice;
  workflow = l.workflow;
}

unfoldable pub queue_launch_intent : LaunchRequest → Action Unit
unfolding execute queue_launch_intent_query
queue_launch_intent l = execute (queue_launch_intent_query l.at l.ticket (launch_payload l))

pub record PendingIntent : Type 0 where
  pub ticket_id : TicketUrl
  pub prompt_hash : String
  pub context : String
  pub choice : AgentChoice
  pub workflow : String

-- `json.Unmarshal` into a launch payload, whose fields stay empty on `null`.
abbrev pub empty_payload : LaunchPayload
empty_payload = record {
  prompt_hash = "";
  group = "";
  context = "";
  choice = zero_choice;
  workflow = "";
}

abbrev pub decode_launch : Payload → Option LaunchPayload
decode_launch null = some empty_payload
decode_launch (text s) = none
decode_launch (launch_object l) = some l
decode_launch (edit_object branch blocked_by) = some empty_payload

abbrev pub pending_intent : TicketUrl → LaunchPayload → PendingIntent
pending_intent ticket p = record {
  ticket_id = ticket;
  prompt_hash = p.prompt_hash;
  context = p.context;
  choice = p.choice;
  workflow = p.workflow;
}

-- The groups of the claimed intents, and the order in which they first come.
abbrev pub Groups : Type 0
Groups = Map String (List PendingIntent) × List String

abbrev pub note_group : String → Groups → List String
note_group group (groups, order) = if has group groups then order else order ++ group ∷ []

abbrev pub add_claimed : TicketUrl → LaunchPayload → Groups → Groups
add_claimed ticket p g = (append_to p.group (pending_intent ticket p) g.0, note_group p.group g)

unfoldable pub claim_loop : List IntentRow → Groups → Result Groups
unfolding has
claim_loop [] g = ok g
claim_loop (r ∷ rs) g = elim (decode_launch r.payload) [
  | none ↦ err (malformed r.ticket)
  | some p ↦ claim_loop rs (add_claimed r.ticket p g)
]

unfoldable pub claim_launch_intents : ℕ → Action Groups
unfolding statement claim_launch_intents_query claim_loop
claim_launch_intents at = do
  rows ← statement (returning (claim_launch_intents_query at))
  of_result (claim_loop rows ([], []))

abbrev pub zero_pending : PendingIntent
zero_pending = pending_intent "" empty_payload

abbrev pub head_or : {A : Type 0} → A → List A → A
head_or a [] = a
head_or a (x ∷ xs) = x

-- The first member decides the context, the choice and the workflow of the launch.
abbrev pub launch_params : ℕ → PendingIntent → InsertLaunchParams
launch_params at m = record {
  created_at = at;
  context = m.context;
  model = (choice_columns m.choice).0;
  effort = (choice_columns m.choice).1;
  workflow = m.workflow;
}

abbrev pub member_of : PendingIntent → TicketUrl × String
member_of m = (m.ticket_id, m.prompt_hash)

abbrev pub launch_detail : ℕ → List PendingIntent → String
launch_detail id members =
    "launch " ⧺ decimal id ⧺ " authorised with " ⧺ decimal (length members) ⧺ " member(s)"

unfoldable pub insert_launch : ℕ → List PendingIntent → Action Unit
unfolding statement execute insert_launch_query insert_launch_members_query
    insert_launch_event_query
insert_launch at members = do
  id ← statement (returning (insert_launch_query (launch_params at (head_or zero_pending members))))
  statement (insert_launch_members_query id (map member_of members))
  execute (insert_launch_event_query at (launch_detail id members))

unfoldable pub insert_launches : ℕ → Map String (List PendingIntent) → List String → Action Unit
unfolding insert_launch
insert_launches at groups [] = pure tt
insert_launches at groups (group ∷ order) =
    insert_launch at (get_or group [] groups) >> insert_launches at groups order

abbrev pub apply_claimed : ℕ → Action Unit
apply_claimed now = do claimed ← claim_launch_intents now; insert_launches now claimed.0 claimed.1

unfoldable pub apply_launch_intents : ℕ → Action Unit
unfolding in_tx claim_launch_intents insert_launches
apply_launch_intents now = in_tx (apply_claimed now)

abbrev pub membership_of : ListLaunchMembershipsRow → LaunchMembership
membership_of r = record {
  launch_id = r.launch_id;
  members = r.members;
  cancelled = false;
  prompt_hash = r.prompt_hash;
  context = r.context;
  choice = choice_from r.model r.effort;
  workflow = r.workflow;
}

-- The loop over the rows: the memberships of active launches, and the tickets of cancelled ones.
unfoldable pub membership_loop :
    List ListLaunchMembershipsRow
    → Map TicketUrl LaunchMembership
    → Map TicketUrl Bool
    → Map TicketUrl LaunchMembership × Map TicketUrl Bool
membership_loop [] memberships cancelled = (memberships, cancelled)
membership_loop (r ∷ rs) memberships cancelled =
    let withdrawn = membership_loop rs memberships (insert r.ticket_id true cancelled) in
    let active = membership_loop rs (insert r.ticket_id (membership_of r) memberships) cancelled in
    if r.state == "cancelled" then withdrawn else active

unfoldable pub mark_cancelled :
    Map TicketUrl Bool → Map TicketUrl LaunchMembership → Map TicketUrl LaunchMembership
unfolding has
mark_cancelled [] memberships = memberships
mark_cancelled ((url, c) ∷ cancelled) memberships = mark_cancelled cancelled (
    if has url memberships
    then memberships
    else insert url (record zero_membership { cancelled = true }) memberships)

unfoldable pub memberships_of : List ListLaunchMembershipsRow → Map TicketUrl LaunchMembership
unfolding membership_loop mark_cancelled
memberships_of rows =
    let (memberships, cancelled) = membership_loop rows [] [] in
    mark_cancelled cancelled memberships

unfoldable pub launch_memberships : Action (Map TicketUrl LaunchMembership)
unfolding query list_launch_memberships memberships_of
launch_memberships = do
  rows ← query (list_launch_memberships max_launch_memberships)
  pure (memberships_of rows)

abbrev pub cancel_body : TicketUrl → Action ℕ
cancel_body ticket = do
  count ← query (active_launch_member_count ticket)
  cancelled ← statement (returning (cancel_active_launches ticket))
  pure count

unfoldable pub cancel_launches_for : TicketUrl → Action ℕ
unfolding in_tx query statement active_launch_member_count cancel_active_launches
cancel_launches_for ticket = in_tx (cancel_body ticket)

unfoldable pub fill_hashes : List (TicketUrl × String) → Map TicketUrl String → Map TicketUrl String
fill_hashes [] m = m
fill_hashes ((ticket, hash) ∷ rows) m = fill_hashes rows (insert ticket hash m)

unfoldable pub active_launch_hashes : Action (Map TicketUrl String)
unfolding query active_launch_hashes_query fill_hashes
active_launch_hashes = do rows ← query active_launch_hashes_query; pure (fill_hashes rows [])

unfoldable pub feature_first_launch : String → Action ℕ
unfolding query feature_first_launch_query
feature_first_launch feature = do
  found ← query (feature_first_launch_query feature)
  or_raise found not_found
