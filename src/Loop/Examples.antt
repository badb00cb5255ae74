-- ===== src/Loop/Examples.antt =====
-- The theorems about the loop at concrete inputs.
use command_center.Prelude.{
  ◌≡◌, refl, String, inl, inr, true, false, none, some, List, [], ◌∷◌, ◌++◌, In, nat_eq, string_eq,
  select, lookup, get_or, Map,
}
use command_center.Plan.Vocab.{verb_cancel}
use command_center.Plan.Observation.{new_observation}
use command_center.Plan.Input.{Entry}
use command_center.Plan.Gates.{Push}
use command_center.Store.Db.{IntentRow, LaunchRow, TicketRow, MemberRow, null, Payload}
use command_center.Store.Examples.{empty_db}
use command_center.Store.Queries.Runs.{awaits}
use command_center.Store.Launch.Cancelled.{Withdrawn}
use command_center.Loop.Machine.{
  LoopState, Outside, Config, Call, removal_unknown, zero_entry, zero_ticket_row,
}
use command_center.Loop.Intents.{apply_cancel_intents}
use command_center.Loop.Intents.Consumed.{Withdraws}
use command_center.Loop.Intents.Cancelled.{apply_cancel_intents-Withdrawn}
use command_center.Plan.Snapshot.{Snapshot, entry}
use command_center.Plan.Launch.{LaunchCandidate, launch_plan, picked, eligible}
use command_center.Loop.Launches.{launch_eligible}
use command_center.Loop.Push.{push_one}
use command_center.Loop.Push.Sent.{Sent, push_one-Sent}

-- Every call succeeds, one file has changed, and no branch descends from its recorded tip.
abbrev world_outside : Outside
world_outside = record {
  clock = λ n. n;
  uuid = λ cs. "session";
  texts = λ cs. inr ("main.go" ∷ []);
  done = λ cs. inr tt;
  flag = λ cs. inr false;
  sha = λ cs. inr "b0";
  number = λ cs. inr 1;
  pairs = λ cs. inr [];
  removal = λ cs. inr removal_unknown;
  content = λ cs. inr none;
  exit_code = λ cs. none;
  metrics = λ cs. inl "no log";
  message = λ cs. inr none;
  readings = λ cs. inr [];
  repo = λ cs. inl "no repository";
  text = λ cs. inl "no remote";
  issues = λ cs. inr [];
  observation = λ cs. inl "offline";
  intervals = λ cs new old. inr [];
}

abbrev config : Config
config = record {
  data_dir = "/data";
  runs_dir = "/runs";
  settings_path = "/settings";
  system_prompt_path = "/system";
  projects_dir = "/projects";
  agent_command = "claude" ∷ [];
  workflows = [];
  max_agents = 2;
  spend_limit_5h = 0;
}

abbrev json_text : Payload → String
json_text p = "null"

abbrev cancel_intent : IntentRow
cancel_intent = record {
  id = 1;
  at = 10;
  ticket = "t/1";
  verb = verb_cancel;
  payload = null;
  consumed_at = none;
}

abbrev active_launch : LaunchRow
active_launch = record {
  id = 1;
  created_at = 5;
  state = "active";
  context = "";
  model = none;
  effort = none;
  workflow = "v0";
}

abbrev member : MemberRow
member = record { launch_id = 1; ticket = "t/1"; prompt_hash = "3f9a" }

abbrev loop_state : LoopState
loop_state = record {
  store = record {
    faults = [];
    db = record empty_db {
      launch_seq = 1;
      intent_seq = 1;
      launches = active_launch ∷ [];
      members = member ∷ [];
      intents = cancel_intent ∷ [];
    };
  };
  calls = [];
  reads = 11;
  obs = new_observation 0;
  prev = new_observation 0;
  spawned = [];
  cancelled = [];
}

abbrev after_cancel : LoopState
after_cancel = (apply_cancel_intents world_outside json_text loop_state).1

apply_cancel_intents-Withdrawn_example :
    (select (awaits verb_cancel) after_cancel.store.db.intents ≡ [])
    × ((r : IntentRow)
        → In r (select (awaits verb_cancel) loop_state.store.db.intents)
        → Withdrawn r.ticket after_cancel.store.db)
    × Withdraws loop_state.store.db after_cancel.store.db
unfolding apply_cancel_intents
apply_cancel_intents-Withdrawn_example =
    apply_cancel_intents-Withdrawn world_outside json_text loop_state after_cancel refl

abbrev pushed_entry : Entry
pushed_entry = record zero_entry {
  last_push =
      some (record {
        pushed_tip = "a0";
        base_branch = "main";
        base_sha_at_push = "b0";
        pushed_at = 3;
      });
}

abbrev forced_push : Push
forced_push = record {
  ticket = "t/1";
  local_tip = "a1";
  force = true;
  opens_as_draft = false;
  body = "";
}

push_one-Sent_example :
    (cs : List Call) × ((push_one world_outside config pushed_entry forced_push loop_state).1.calls
      ≡ [] ++ cs)
    × Sent world_outside config pushed_entry forced_push loop_state cs
push_one-Sent_example = push_one-Sent world_outside config pushed_entry forced_push loop_state

abbrev launch_candidate : String → LaunchCandidate
launch_candidate url = record {
  url = url;
  unlock = record zero_entry.unlock { unlocked = true; base_branch = "main" };
  authorised = true;
  prompt_hash_matches = true;
  has_run = false;
  conflicted_base = "";
  next = zero_entry.next;
  in_flight = false;
}

-- Two tickets are eligible, one run is under way, and there are two slots.
abbrev launch_snapshot : Snapshot
launch_snapshot = record {
  entries = [];
  by_url = [];
  launch = launch_candidate "t/1" ∷ launch_candidate "t/2" ∷ [];
  running = 1;
  max_agents = 2;
  spend_paused = false;
  intents = [];
  sessions = [];
  removals = [];
  transitions = [];
  verdicts = [];
  repos = [];
  obs = new_observation 0;
  refreshes = [];
}

abbrev launched_row : String → TicketRow
launched_row url = record zero_ticket_row { url = url; branch = "cc-1" }

abbrev launch_tickets : Map String TicketRow
launch_tickets = ("t/1", launched_row "t/1") ∷ ("t/2", launched_row "t/2") ∷ []

abbrev cutting_outside : Outside
cutting_outside = record world_outside { pairs = λ cs. inr (("cc-1", "/wt/cc-1") ∷ []) }

launched_first :
    (launch_eligible cutting_outside config "" launch_snapshot launch_tickets loop_state).1.spawned
    ≡ "t/1" ∷ []
unfolding launch_eligible launch_plan picked eligible entry lookup get_or
launched_first = refl
