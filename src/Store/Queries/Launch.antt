-- ===== src/Store/Queries/Launch.antt =====
-- internal/store/ccdb/launch.sql.go: the queries on the tables `launches` and `launch_members`.
use command_center.Prelude.{
  ℕ, suc, String, Bool, not, ◌&&◌, Option, none, some, List, [], ◌∷◌, ◌++◌, map, if◌then◌else◌,
  length, select, any, take, min, nat_eq, string_eq, ◌==◌,
}
use command_center.Plan.Ids.{TicketUrl}
use command_center.Plan.Vocab.{verb_launch}
use command_center.Store.Db.{
  Db, Result, ok, err, unique_violation, LaunchRow, MemberRow, TicketRow, IntentRow, launch_object,
  LaunchPayload, update_where,
}
use command_center.Store.Queries.Runs.{launch_is, awaits, queue_verb_intent_query}

-- The subquery of the launches that are active and hold the ticket, as a test on launch ids.
abbrev pub is_member : ℕ → TicketUrl → MemberRow → Bool
is_member id url m = m.launch_id == id && m.ticket == url

abbrev pub active_with : TicketUrl → Db → ℕ → Bool
active_with url d id = any (launch_is "active" id) d.launches && any (is_member id url) d.members

unfoldable pub active_launch_member_count : TicketUrl → Db → ℕ
active_launch_member_count url d =
    length (select (λ (m : MemberRow). active_with url d m.launch_id) d.members)

unfoldable pub cancel_active_launches : TicketUrl → Db → ℕ × Db
cancel_active_launches url d = (
  length (select (λ (l : LaunchRow). active_with url d l.id) d.launches),
  record d {
    launches =
        update_where (λ (l : LaunchRow). active_with url d l.id)
          (λ (l : LaunchRow). record l { state = "cancelled" }) d.launches;
  },
)

-- `RETURNING` gives the rows that the update found.
unfoldable pub claim_launch_intents_query : ℕ → Db → List IntentRow × Db
claim_launch_intents_query at d = (
  select (awaits verb_launch) d.intents,
  record d {
    intents =
        update_where (awaits verb_launch) (λ (i : IntentRow). record i { consumed_at = some at })
          d.intents;
  },
)

pub record InsertLaunchParams : Type 0 where
  pub created_at : ℕ
  pub context : String
  pub model : Option String
  pub effort : Option String
  pub workflow : String

-- `COALESCE(NULLIF(workflow, ''), 'v0')`.
abbrev pub launch_row : ℕ → InsertLaunchParams → LaunchRow
launch_row id p = record {
  id = id;
  created_at = p.created_at;
  state = "active";
  context = p.context;
  model = p.model;
  effort = p.effort;
  workflow = if p.workflow == "" then "v0" else p.workflow;
}

unfoldable pub insert_launch_query : InsertLaunchParams → Db → ℕ × Db
insert_launch_query p d =
    let id = suc d.launch_seq in
    (id, record d { launch_seq = id; launches = d.launches ++ launch_row id p ∷ [] })

-- The primary key of a member is its launch and its ticket.
abbrev pub same_member : MemberRow → MemberRow → Bool
same_member m n = n.launch_id == m.launch_id && n.ticket == m.ticket

unfoldable pub add_members : List MemberRow → List MemberRow → Option (List MemberRow)
add_members [] rows = some rows
add_members (m ∷ ms) rows =
    let rest = add_members ms (rows ++ m ∷ []) in if any (same_member m) rows then none else rest

abbrev pub member_row : ℕ → TicketUrl × String → MemberRow
member_row id (ticket, hash) = record { launch_id = id; ticket = ticket; prompt_hash = hash }

-- That the tickets are in their table, as the foreign key demands, is not checked here.
unfoldable pub insert_launch_members_query : ℕ → List (TicketUrl × String) → Db → Result Unit × Db
unfolding add_members
insert_launch_members_query id members d =
    elim (add_members (map (member_row id) members) d.members) [
      | none ↦ (err unique_violation, d)
      | some rows ↦ (ok tt, record d { members = rows })
    ]

abbrev pub add_event : ℕ → Option TicketUrl → String → String → Db → Db
add_event at ticket kind detail d =
    let id = suc d.event_seq in
    record d {
      event_seq = id;
      events =
          d.events
          ++ record { id = id; at = at; ticket = ticket; kind = kind; detail = detail } ∷ [];
    }

unfoldable pub insert_launch_event_query : ℕ → String → Db → Db
insert_launch_event_query at detail = add_event at none "launch" detail

unfoldable pub queue_launch_intent_query : ℕ → TicketUrl → LaunchPayload → Db → Db
unfolding queue_verb_intent_query
queue_launch_intent_query at ticket payload =
    queue_verb_intent_query
      (record { at = at; ticket_id = ticket; verb = verb_launch; payload = launch_object payload })

pub record ListLaunchMembershipsRow : Type 0 where
  pub ticket_id : TicketUrl
  pub launch_id : ℕ
  pub state : String
  pub prompt_hash : String
  pub context : String
  pub model : Option String
  pub effort : Option String
  pub workflow : String
  pub members : ℕ

abbrev pub membership_row : Db → LaunchRow → MemberRow → ListLaunchMembershipsRow
membership_row d l m = record {
  ticket_id = m.ticket;
  launch_id = l.id;
  state = l.state;
  prompt_hash = m.prompt_hash;
  context = l.context;
  model = l.model;
  effort = l.effort;
  workflow = l.workflow;
  members = length (select (λ (n : MemberRow). n.launch_id == l.id) d.members);
}

-- The launches by descending id, with the members of each. Within a launch SQL orders the members by
-- ticket, and here they keep the order of their table.
unfoldable pub rows_of_launch : Db → LaunchRow → List MemberRow → List ListLaunchMembershipsRow
rows_of_launch d l [] = []
rows_of_launch d l (m ∷ ms) =
    let rest = rows_of_launch d l ms in
    if m.launch_id == l.id then membership_row d l m ∷ rest else rest

unfoldable pub rows_of_state : String → Db → List LaunchRow → List ListLaunchMembershipsRow
unfolding rows_of_launch
rows_of_state state d [] = []
rows_of_state state d (l ∷ ls) =
    let rest = rows_of_state state d ls in
    if l.state == state then rest ++ rows_of_launch d l d.members else rest

-- `ORDER BY (state = 'active') DESC, launch_id DESC, ticket_id LIMIT max_rows`.
unfoldable pub list_launch_memberships : ℕ → Db → List ListLaunchMembershipsRow
unfolding rows_of_state
list_launch_memberships max_rows d =
    take max_rows (rows_of_state "active" d d.launches ++ rows_of_state "cancelled" d d.launches)

-- `feature_first_launch_query` orders by the time of creation.
abbrev pub launched_in : String → Db → LaunchRow → Bool
launched_in feature d l =
    not (l.state == "cancelled")
    && any
        (λ (m : MemberRow).
          m.launch_id == l.id
          && any (λ (t : TicketRow). t.url == m.ticket && t.feature == feature) d.tickets)
        d.members

unfoldable pub earliest : List LaunchRow → Option ℕ
earliest [] = none
earliest (l ∷ ls) = elim (earliest ls) [
  | none ↦ some l.created_at
  | some at ↦ some (min l.created_at at)
]

unfoldable pub feature_first_launch_query : String → Db → Option ℕ
unfolding earliest
feature_first_launch_query feature d = earliest (select (launched_in feature d) d.launches)
