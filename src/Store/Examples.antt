-- ===== src/Store/Examples.antt =====
-- The theorems about the store at concrete inputs.
use command_center.Prelude.{ℕ, ◌≡◌, true, none, some, [], ◌∷◌, arith, nat_eq, string_eq, String}
use command_center.Plan.Vocab.{verb_launch, run_kind_agent}
use command_center.Plan.Ticket.{zero_choice}
use command_center.Plan.Outcome.{Outcome}
use command_center.Store.Db.{Db, World, LaunchPayload, launch_object, IntentRow, is_err}
use command_center.Store.Runs.{
  RunSkeleton, Disposition, insert_session_run_skeleton, record_disposition, record_question,
}
use command_center.Store.Runs.History.{start, next, asked, Final, History-Final}
use command_center.Store.Launch.{apply_launch_intents}
use command_center.Store.Launch.Twice.{asks_for, apply_launch_intents-is_err}

abbrev payload : String → LaunchPayload
payload group = record {
  prompt_hash = "3f9a";
  group = group;
  context = "";
  choice = zero_choice;
  workflow = "default";
}

abbrev launch_intent : ℕ → String → String → IntentRow
launch_intent id ticket group = record {
  id = id;
  at = 10;
  ticket = ticket;
  verb = verb_launch;
  payload = launch_object (payload group);
  consumed_at = none;
}

abbrev pub empty_db : Db
empty_db = record {
  launch_seq = 0;
  run_seq = 0;
  push_seq = 0;
  event_seq = 0;
  intent_seq = 0;
  tickets = [];
  launches = [];
  members = [];
  runs = [];
  pushes = [];
  events = [];
  intents = [];
  repos = [];
  readings = [];
  intervals = [];
  observation = none;
  last_error = none;
  import_error = none;
  checking_ticks = [];
  last_verdicts = [];
}

abbrev asked_twice : World
asked_twice = record {
  faults = [];
  db = record empty_db {
    intent_seq = 2;
    intents = launch_intent 1 "t/1" "a" ∷ launch_intent 2 "t/1" "a" ∷ [];
  };
}

abbrev asked_once : World
asked_once = record {
  faults = [];
  db = record empty_db {
    intent_seq = 2;
    intents = launch_intent 1 "t/1" "a" ∷ launch_intent 2 "t/2" "a" ∷ [];
  };
}

apply_launch_intents-is_err_example :
    (is_err (apply_launch_intents 12 asked_twice).0 ≡ true)
    × ((apply_launch_intents 12 asked_twice).1.db ≡ asked_twice.db)
unfolding asks_for
apply_launch_intents-is_err_example =
    apply_launch_intents-is_err 12 "a" "t/1" asked_twice (omega arith)

abbrev launched : World
launched = (apply_launch_intents 12 asked_once).1

abbrev skeleton : RunSkeleton
skeleton = record {
  ticket = "t/1";
  kind = run_kind_agent;
  baseline_sha = "c0ffee";
  prompt_hash = "3f9a";
  choice = zero_choice;
  session = record { start_new = true; join_id = ""; message = "" };
  step = "implement";
  workflow = "default";
  workflow_hash = "77";
}

abbrev ending : Disposition
ending = record {
  run_id = 1;
  outcome = Outcome.push;
  exit_code = none;
  cost = none;
  last_message = some "done";
  metrics = none;
  ended_at = 20;
}

abbrev idle_world : World
idle_world = record { faults = []; db = empty_db }

abbrev running : World
running = (insert_session_run_skeleton "s-1" skeleton idle_world).1

abbrev ended : World
ended = (record_disposition ending running).1

abbrev after_question : World
after_question = (record_question 1 "which?" ended).1

History-Final_example : Final ended.db after_question.db
History-Final_example = History-Final ended after_question (next start (asked 1 "which?" ended))
