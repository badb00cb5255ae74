-- ===== src/Plan/Input.antt =====
-- internal/plan/derive.go and gates.go, their types: the facts that a derivation starts from, and what
-- it gives for each ticket. Times are nanoseconds since the zero time, and ids are positive.
use command_center.Prelude.{
  ℕ, String, Bool, false, not, ◌&&◌, Option, none, some, List, is_some, nat_eq, string_eq, Map,
}
use command_center.Prelude.Int.{ℤ}
use command_center.Plan.Ids.{TicketUrl, Sha, StepName, Reason}
use command_center.Plan.Vocab.{Verb, RunKind}
use command_center.Plan.Outcome.{Outcome, ended_as}
use command_center.Plan.Workflow.{Next, StepRun}
use command_center.Plan.Ticket.{Ticket, Unlock, AgentChoice, zero_choice}
use command_center.Plan.Observation.{Observation}
use command_center.Plan.Repos.{RepoStatus}
use command_center.Plan.State.{State}
use command_center.Plan.Status.{RunFact}

pub record Intent : Type 0 where
  pub id : ℕ
  pub ticket : TicketUrl
  pub verb : Verb
  pub payload : String

pub record LaunchMembership : Type 0 where
  pub launch_id : ℕ
  pub members : ℕ
  pub cancelled : Bool
  pub prompt_hash : String
  pub context : String
  pub choice : AgentChoice
  pub workflow : String

abbrev pub zero_membership : LaunchMembership
zero_membership = record {
  launch_id = 0;
  members = 0;
  cancelled = false;
  prompt_hash = "";
  context = "";
  choice = zero_choice;
  workflow = "";
}

pub record RunSummary : Type 0 where
  pub id : ℕ
  pub pgid : Option ℕ
  pub proc_started_at : Option ℕ
  pub outcome : Option Outcome
  pub exit_code : Option ℤ
  pub ended_at : Option ℕ
  pub log_path : String
  pub baseline_sha : Sha
  pub prompt_hash : String
  pub kind : RunKind
  pub question : String
  pub step : StepName
  pub workflow_hash : String

pub record PushRow : Type 0 where
  pub pushed_tip : Sha
  pub base_branch : String
  pub base_sha_at_push : Sha
  pub pushed_at : ℕ

abbrev pub zero_push_row : PushRow
zero_push_row = record { pushed_tip = ""; base_branch = ""; base_sha_at_push = ""; pushed_at = 0 }

pub record PushFact : Type 0 where
  pub refused : Bool
  pub refused_path : String
  pub failed : Bool

abbrev pub zero_push_fact : PushFact
zero_push_fact = record { refused = false; refused_path = ""; failed = false }

pub record ConflictAt : Type 0 where
  pub branch_tip : Sha
  pub base_tip : Sha

pub record RefreshFact : Type 0 where
  pub tried : Bool
  pub refused : Bool
  pub reason : String
  pub verification_failed : Bool
  pub verification_failed_detail : String
  pub conflict : Option ConflictAt

abbrev pub zero_refresh_fact : RefreshFact
zero_refresh_fact = record {
  tried = false;
  refused = false;
  reason = "";
  verification_failed = false;
  verification_failed_detail = "";
  conflict = none;
}

pub record Recorded : Type 0 where
  pub opened : Bool
  pub merged : Bool

abbrev pub zero_recorded : Recorded
zero_recorded = record { opened = false; merged = false }

pub record VerdictFacts : Type 0 where
  pub push_rows : Map TicketUrl PushRow
  pub checking_for : Map TicketUrl ℕ

-- `F` is the type of the utilization of the five-hour window, a `float64`.
pub record Input (F : Type 0) : Type 0 where
  pub now : ℕ
  pub observed : Bool
  pub tickets : List Ticket
  pub obs : Observation
  pub prev : Observation
  pub repos : List RepoStatus
  pub memberships : Map TicketUrl LaunchMembership
  pub runs : Map TicketUrl RunSummary
  pub pushes : Map TicketUrl PushFact
  pub refreshes : Map TicketUrl RefreshFact
  pub restacked : Map TicketUrl Bool
  pub sessions : Map TicketUrl String
  pub recorded : Map TicketUrl Recorded
  pub last_verdicts : Map TicketUrl String
  pub verdict : VerdictFacts
  pub intents : Map TicketUrl (List Intent)
  pub removals : Map TicketUrl String
  pub five_hour : F
  pub passes : Map TicketUrl (List StepRun)

pub record Entry : Type 0 where
  pub ticket : Ticket
  pub unlock : Unlock
  pub state : State
  pub reason : Reason
  pub run : Option RunFact
  pub elapsed : Option ℤ
  pub log_path : String
  pub conflicted_base : String
  pub draft_reason : String
  pub launch_id : ℕ
  pub base : String
  pub ready_to_undraft : Bool
  pub opens_as_draft : Bool
  pub prompt_hash : String
  pub last_push : Option PushRow
  pub restacked : Bool
  pub next : Next
  pub workflow : String

-- The latest run has ended as the outcome.
abbrev pub run_ended_as : Option RunFact → Outcome → Bool
run_ended_as none o = false
run_ended_as (some run) o = ended_as run.outcome o

abbrev pub run_alive : Option RunFact → Bool
run_alive none = false
run_alive (some run) = run.alive

unfoldable pub holds_worktree : Entry → Bool
holds_worktree e = is_some e.run && not (run_alive e.run) && run_ended_as e.run Outcome.asked
