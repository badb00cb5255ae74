-- ===== src/Loop/Intents.antt =====
-- internal/loop/loop.go and verbs.go: the intents are handled one by one and consumed, and what the
-- loop does at once with those that withdraw a launch or stop a run.
pub mod Consumed
pub mod Cancelled
use command_center.Prelude.{
  ℕ, String, ◌⧺◌, decimal, Bool, true, false, ◌&&◌, ◌||◌, not, Option, none, some, List, [], ◌∷◌,
  map, if◌then◌else◌, is_none, is_some, is_empty, nat_eq, string_eq, ◌==◌, contains, Map, lookup,
}
use command_center.Plan.Ids.{TicketUrl}
use command_center.Plan.Vocab.{
  Verb, verb_kill, verb_cancel, verb_follow_up, RunKind, run_kind_agent, run_kind_follow_up,
}
use command_center.Plan.Input.{Intent, RunSummary}
use command_center.Plan.Snapshot.{Snapshot}
use command_center.Plan.Gates.{intents_of}
use command_center.Store.Db.{Result, ok, err, Error, Payload, ◌>>=◌, ◌>>◌, pure, raise}
use command_center.Store.Intents.{VerbIntent, pending_verb_intents, intent_of, consume_verb_intent}
use command_center.Store.Launch.{cancel_launches_for}
use command_center.Store.Runs.{latest_runs_by_ticket}
use command_center.Store.Events.{event_launch_cancelled}
use command_center.Loop.Machine.{
  LoopState, Act, Outside, Call, cancel_group, in_store, ask, now, event,
}

-- The agent and the follow-ups can be steered.
abbrev pub is_steerable_kind : RunKind → Bool
is_steerable_kind k = k == run_kind_agent || k == run_kind_follow_up

-- The process group of a run that has one and has no outcome.
abbrev pub open_group : RunSummary → Option ℕ
open_group r = if is_none r.outcome then r.pgid else none

-- What a handler makes of its intent where it does not fail. `stays_pending` is Go's error
-- `errIntentPending`, which no caller treats as an error.
pub data Handled : Type 0 where
  handled : Handled
  stays_pending : Handled

abbrev pub after_handled : Act Unit → Act Unit → Handled → Act Unit
after_handled consume rest handled = consume >> rest
after_handled consume rest stays_pending = rest

module _ (o : Outside) (json : Payload → String) where
  unfoldable pub consume : Intent → Act Unit
  unfolding consume_verb_intent
  consume intent = do at ← now o; in_store (consume_verb_intent intent.id at)

  unfoldable pub consume_each : List Intent → (Intent → Act Handled) → Act Unit
  unfolding consume
  consume_each [] handle = pure tt
  consume_each (intent ∷ intents) handle =
      handle intent >>= after_handled (consume intent) (consume_each intents handle)

  unfoldable pub each_intent : Snapshot → Verb → (Intent → Act Handled) → Act Unit
  unfolding consume_each intents_of
  each_intent snap verb handle = consume_each (intents_of snap verb) handle

  unfoldable pub each_pending_intent : Verb → (Intent → Act Handled) → Act Unit
  unfolding consume_each pending_verb_intents
  each_pending_intent verb handle = do
    pending ← in_store (pending_verb_intents json verb)
    consume_each (map (intent_of json verb) pending) handle

  abbrev pub cancel_detail : ℕ → String
  cancel_detail members = "launch cancelled, " ⧺ decimal members ⧺ " member(s)"

  abbrev pub cancel_one : Intent → Act Handled
  cancel_one intent = do
    members ← in_store (cancel_launches_for intent.ticket)
    event o intent.ticket event_launch_cancelled (cancel_detail members)
    pure handled

  unfoldable pub apply_cancel_intents : Act Unit
  unfolding each_pending_intent cancel_launches_for event
  apply_cancel_intents = each_pending_intent verb_cancel cancel_one

  unfoldable pub cancel_run : ℕ → Act Unit
  cancel_run pgid = do
    done ← ask (cancel_group pgid) o.done
    λ s. (ok tt, record s { cancelled = pgid ∷ s.cancelled })

  abbrev pub kill_found : Option RunSummary → Act Unit
  kill_found none = pure tt
  kill_found (some run) = elim (open_group run) [ none ↦ pure tt | some pgid ↦ cancel_run pgid ]

  unfoldable pub kill_one : Intent → Act Handled
  unfolding latest_runs_by_ticket cancel_run
  kill_one intent = do
    latest ← in_store latest_runs_by_ticket
    kill_found (lookup intent.ticket latest)
    pure handled

  unfoldable pub apply_kill_intents : Act Unit
  unfolding each_pending_intent kill_one
  apply_kill_intents = each_pending_intent verb_kill kill_one

  -- The run that a follow-up of the ticket interrupts, where it has not been cancelled yet.
  abbrev pub interrupted : Map TicketUrl RunSummary → TicketUrl → List TicketUrl → Option ℕ
  interrupted latest url cancelled = elim (lookup url latest) [
    | none ↦ none
    | some run ↦
        if contains cancelled url || not (is_steerable_kind run.kind) then none else open_group run
  ]

  unfoldable pub interrupt_loop :
      Map TicketUrl RunSummary → List TicketUrl → List VerbIntent → Act Unit
  unfolding cancel_run
  interrupt_loop latest cancelled [] = pure tt
  interrupt_loop latest cancelled (i ∷ is) =
      let passed = interrupt_loop latest cancelled is in
      let more = interrupt_loop latest (i.ticket_id ∷ cancelled) is in
      elim (interrupted latest i.ticket_id cancelled) [
        | none ↦ passed
        | some pgid ↦ cancel_run pgid >> more
      ]

  abbrev pub interrupt_any : List VerbIntent → Act Unit
  interrupt_any [] = pure tt
  interrupt_any (i ∷ is) = do
    latest ← in_store latest_runs_by_ticket
    interrupt_loop latest [] (i ∷ is)

  unfoldable pub interrupt_for_follow_ups : Act Unit
  unfolding pending_verb_intents latest_runs_by_ticket interrupt_loop
  interrupt_for_follow_ups = do
    intents ← in_store (pending_verb_intents json verb_follow_up)
    interrupt_any intents
