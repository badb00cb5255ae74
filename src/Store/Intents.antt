-- ===== src/Store/Intents.antt =====
-- internal/store/runs.go and ticket_edit.go: the queue of intents, by which the web pages ask the loop
-- for something. A payload is JSON in the database.
use command_center.Prelude.{
  ℕ, String, Option, none, some, List, [], ◌∷◌, if◌then◌else◌, nat_eq, string_eq, ◌==◌, Map, ltb,
}
use command_center.Prelude.Sorting.{sort_by}
use command_center.Plan.Ids.{TicketUrl}
use command_center.Plan.Vocab.{Verb, verb_launch, all_verbs}
use command_center.Plan.Input.{Intent}
use command_center.Store.Db.{
  Action, Result, ok, err, malformed, Payload, null, text, launch_object, edit_object, IntentRow,
  ◌>>=◌, pure, of_result, query, execute,
}
use command_center.Store.Queries.Runs.{
  QueueVerbIntentParams, queue_verb_intent_query, pending_verb_intents_query,
  consume_verb_intent_query,
}
use command_center.Store.Runs.{update_one, append_to}

pub record VerbIntent : Type 0 where
  pub id : ℕ
  pub ticket_id : TicketUrl
  pub payload : String

pub record VerbRequest : Type 0 where
  pub ticket : TicketUrl
  pub verb : Verb
  pub payload : String
  pub at : ℕ

-- An empty payload is NULL in the database.
abbrev pub encode_payload : String → Payload
encode_payload s = if s == "" then null else text s

abbrev pub verb_params : VerbRequest → QueueVerbIntentParams
verb_params v = record {
  at = v.at;
  ticket_id = v.ticket;
  verb = v.verb;
  payload = encode_payload v.payload;
}

unfoldable pub queue_verb_intent : VerbRequest → Action Unit
unfolding execute queue_verb_intent_query
queue_verb_intent v = execute (queue_verb_intent_query (verb_params v))

-- `json.Unmarshal` into a text, which leaves it empty on `null`.
abbrev pub decode_text : Payload → Option String
decode_text null = some ""
decode_text (text s) = some s
decode_text (launch_object l) = none
decode_text (edit_object branch blocked_by) = none

abbrev pub verb_intent_of : IntentRow → String → VerbIntent
verb_intent_of r payload = record { id = r.id; ticket_id = r.ticket; payload = payload }

-- `json` gives the JSON text of a payload, which a launch intent keeps as it is.
module _ (json : Payload → String) where
  unfoldable pub payload_of : Verb → IntentRow → Option String
  payload_of verb r = if verb == verb_launch then some (json r.payload) else decode_text r.payload

  unfoldable pub collect_intents : Verb → List IntentRow → Result (List VerbIntent)
  unfolding payload_of
  collect_intents verb [] = ok []
  collect_intents verb (r ∷ rs) =
      let rest = collect_intents verb rs in
      elim (payload_of verb r) [
        | none ↦ err (malformed r.ticket)
        | some payload ↦ elim rest [ err e ↦ err e | ok is ↦ ok (verb_intent_of r payload ∷ is) ]
      ]

  unfoldable pub pending_verb_intents : Verb → Action (List VerbIntent)
  unfolding query pending_verb_intents_query collect_intents
  pending_verb_intents verb = do
    rows ← query (pending_verb_intents_query verb)
    of_result (collect_intents verb rows)

  abbrev pub intent_of : Verb → VerbIntent → Intent
  intent_of verb p = record { id = p.id; ticket = p.ticket_id; verb = verb; payload = p.payload }

  unfoldable pub group_by_ticket :
      Verb → List VerbIntent → Map TicketUrl (List Intent) → Map TicketUrl (List Intent)
  group_by_ticket verb [] m = m
  group_by_ticket verb (p ∷ ps) m =
      group_by_ticket verb ps (append_to p.ticket_id (intent_of verb p) m)

  unfoldable pub collect_verbs :
      List Verb → Map TicketUrl (List Intent) → Action (Map TicketUrl (List Intent))
  unfolding pending_verb_intents group_by_ticket
  collect_verbs [] m = pure m
  collect_verbs (verb ∷ verbs) m = do
    pending ← pending_verb_intents verb
    collect_verbs verbs (group_by_ticket verb pending m)

  unfoldable pub sort_each : Map TicketUrl (List Intent) → Map TicketUrl (List Intent)
  unfolding sort_by
  sort_each [] = []
  sort_each ((url, is) ∷ m) = (url, sort_by (λ (a b : Intent). ltb a.id b.id) is) ∷ sort_each m

  unfoldable pub pending_intents : Action (Map TicketUrl (List Intent))
  unfolding collect_verbs sort_each
  pending_intents = do by_ticket ← collect_verbs all_verbs []; pure (sort_each by_ticket)

unfoldable pub consume_verb_intent : ℕ → ℕ → Action Unit
unfolding update_one consume_verb_intent_query
consume_verb_intent id at = update_one (consume_verb_intent_query at id)

-- The verb of an edit, which is in no list of verbs.
abbrev pub verb_edit_ticket : Verb
verb_edit_ticket = "edit_ticket"

pub record EditRequest : Type 0 where
  pub ticket : TicketUrl
  pub branch : String
  pub blocked_by : List TicketUrl
  pub at : ℕ

abbrev pub edit_params : EditRequest → QueueVerbIntentParams
edit_params e = record {
  at = e.at;
  ticket_id = e.ticket;
  verb = verb_edit_ticket;
  payload = edit_object e.branch e.blocked_by;
}

unfoldable pub queue_edit_ticket_intent : EditRequest → Action Unit
unfolding execute queue_verb_intent_query
queue_edit_ticket_intent e = execute (queue_verb_intent_query (edit_params e))

pub record EditTicketIntent : Type 0 where
  pub id : ℕ
  pub ticket_id : TicketUrl
  pub branch : String
  pub blocked_by : List TicketUrl

-- `json.Unmarshal` into the fields of an edit: `null` leaves them empty, and so does an object
-- without them.
abbrev pub decode_edit : Payload → Option (String × List TicketUrl)
decode_edit null = some ("", [])
decode_edit (text s) = none
decode_edit (launch_object l) = some ("", [])
decode_edit (edit_object branch blocked_by) = some (branch, blocked_by)

unfoldable pub collect_edits : List IntentRow → Result (List EditTicketIntent)
collect_edits [] = ok []
collect_edits (r ∷ rs) =
    let rest = collect_edits rs in
    elim (decode_edit r.payload) [
      | none ↦ err (malformed r.ticket)
      | some (branch, blocked_by) ↦ elim rest [
        | err e ↦ err e
        | ok es ↦ ok (
            record { id = r.id; ticket_id = r.ticket; branch = branch; blocked_by = blocked_by }
            ∷ es)
      ]
    ]

unfoldable pub pending_edit_ticket_intents : Action (List EditTicketIntent)
unfolding query pending_verb_intents_query collect_edits
pending_edit_ticket_intents = do
  rows ← query (pending_verb_intents_query verb_edit_ticket)
  of_result (collect_edits rows)
