-- ===== src/Plan/Workflow.antt =====
-- internal/plan/workflow.go: the steps of a workflow, and the next one of a pass over them.
pub mod Passes
pub mod Rounds
pub mod Causes
pub mod Progress
use command_center.Prelude.{
  ℕ, zero, suc, ◌+◌, String, ◌⧺◌, decimal, trim_space, cut_prefix, refl, Bool, false, not, ◌&&◌,
  ◌||◌, Option, none, some, List, [], ◌∷◌, ◌++◌, arith, ltb, if◌then◌else◌, is_none, unwrap_or, any,
  last, ◌==◌, ◌!=◌, nat_eq, string_eq,
}
use command_center.Plan.Ids.{StepName, Reason, TicketUrl}
use command_center.Plan.Outcome.{Outcome, push, failed, passed, outcome_string, outcome_eq}

pub record Step : Type 0 where
  pub name : StepName
  pub command : Bool
  pub model : String
  pub tools : List String
  pub prompt : String
  pub writes : Bool
  pub on_fail : Bool

pub record Workflow : Type 0 where
  pub name : String
  pub hash : String
  pub steps : List Step
  pub max_fix_rounds : ℕ

pub record StepRun : Type 0 where
  pub id : ℕ
  pub step : StepName
  pub command : Bool
  pub alive : Bool
  pub outcome : Option Outcome
  pub handoff : Option String

pub data NextKind : Type 0 where
  next_run next_done next_park : NextKind

pub record Next : Type 0 where
  pub kind : NextKind
  pub step : Option Step
  pub round : ℕ
  pub reason : Reason

-- Go's `Next{}`.
abbrev pub zero_next : Next
zero_next = record { kind = next_run; step = none; round = 0; reason = "" }

-- Go's `Next{Kind: NextDone}`.
abbrev pub done : Next
done = record { kind = next_done; step = none; round = 0; reason = "" }

-- One round of the loop of `split`.
abbrev pub split_one : Bool → Step → List Step × Option Step → List Step × Option Step
split_one has_verify s (forward, fix) =
    if s.on_fail
    then (forward, some s)
    else if s.command && not has_verify
    then (forward, fix)
    else (forward ++ s ∷ [], fix)

unfoldable pub split_loop : Bool → List Step → List Step × Option Step → List Step × Option Step
split_loop has_verify [] acc = acc
split_loop has_verify (s ∷ r) acc = split_loop has_verify r (split_one has_verify s acc)

-- The forward steps, and the fix step.
unfoldable pub split : Workflow → Bool → List Step × Option Step
unfolding split_loop
split w has_verify = split_loop has_verify w.steps ([], none)

unfoldable pub first : Workflow → Bool → Option Step
unfolding split
first w has_verify = elim ((split w has_verify).0) [ [] ↦ none | s ∷ r ↦ some s ]

-- The pass from its latest run of a step on, if it has such a run.
unfoldable pub latest : List StepRun → StepName → Option (List StepRun)
latest [] name = none
latest (r ∷ rs) name = elim (latest rs name) [
  | some runs ↦ some runs
  | none ↦ if r.step == name then some (r ∷ rs) else none
]

unfoldable pub from_latest : List StepRun → StepName → List StepRun
unfolding latest
from_latest pass name = unwrap_or (latest pass name) pass

unfoldable pub pass_of : Workflow → List StepRun → Bool → List StepRun
unfolding split from_latest
pass_of w runs has_verify = elim ((split w has_verify).0) [
  | [] ↦ []
  | s ∷ r ↦ from_latest runs s.name
]

unfoldable pub run_step : Step → ℕ → Next
run_step s round = record { kind = next_run; step = some s; round = round; reason = "" }

unfoldable pub park : StepName → Outcome → Next
unfolding outcome_string
park step o = record {
  kind = next_park;
  step = none;
  round = 0;
  reason = "step " ⧺ step ⧺ " ended " ⧺ outcome_string o;
}

unfoldable pub unknown_step : StepName → Next
unknown_step step = record {
  kind = next_park;
  step = none;
  round = 0;
  reason = "step " ⧺ step ⧺ " is not in the workflow";
}

abbrev pub still_failing : StepName → ℕ → Next
still_failing step rounds = record {
  kind = next_park;
  step = none;
  round = 0;
  reason = "step " ⧺ step ⧺ " still failing after " ⧺ decimal rounds ⧺ " fix rounds";
}

-- The step of a name with the steps behind it: `slices.IndexFunc` and the slice from there.
unfoldable pub steps_from : List Step → StepName → List Step
steps_from [] name = []
steps_from (s ∷ r) name = let rest = steps_from r name in if s.name == name then s ∷ r else rest

unfoldable pub rerun : List Step → StepName → ℕ → Next
unfolding steps_from run_step unknown_step
rerun forward name round = elim (steps_from forward name) [
  | [] ↦ unknown_step name
  | s ∷ r ↦ run_step s round
]

abbrev pub is_fix : Option Step → StepName → Bool
is_fix none name = false
is_fix (some s) name = name == s.name

-- The rounds of the fix step in a pass, and the last step that is not the fix step.
unfoldable pub tally : Option Step → List StepRun → ℕ × StepName → ℕ × StepName
tally fix [] acc = acc
tally fix (r ∷ rs) (rounds, name) =
    tally fix rs (if is_fix fix r.step then (rounds + 1, name) else (rounds, r.step))

-- The `switch` for a last run that is a forward step; `behind` are the steps after it.
unfoldable pub next_forward : ℕ → Option Step → ℕ → StepName → Outcome → List Step → Next
unfolding run_step park
next_forward max_fix_rounds fix rounds name outcome [] =
    if outcome == push then done else park name outcome
next_forward max_fix_rounds fix rounds name outcome (s ∷ behind) =
    if outcome == passed then run_step s rounds else elim fix [
      | none ↦ park name outcome
      | some f ↦
          if outcome == failed && ltb rounds max_fix_rounds
          then run_step f (rounds + 1)
          else if outcome == failed
          then still_failing name rounds
          else park name outcome
    ]

-- The decision after the last run of a pass with no run alive.
unfoldable pub next_after : ℕ → List Step → Option Step → ℕ × StepName → StepName → Outcome → Next
unfolding next_forward rerun
next_after max_fix_rounds forward fix (rounds, failed_step) name outcome =
    if is_fix fix name
    then if outcome == passed then rerun forward failed_step rounds else park name outcome
    else elim (steps_from forward name) [
      | [] ↦ unknown_step name
      | s ∷ behind ↦ next_forward max_fix_rounds fix rounds name outcome behind
    ]

unfoldable pub next_in_pass : ℕ → List Step → Option Step → Step → List StepRun → Next
unfolding next_after tally
next_in_pass max_fix_rounds forward fix start [] = run_step start 0
next_in_pass max_fix_rounds forward fix start (r ∷ rs) =
    let final = last r rs in
    if any (λ (run : StepRun). run.alive) (r ∷ rs)
    then zero_next
    else next_after max_fix_rounds forward fix (tally fix (r ∷ rs) (0, "")) final.step
        (unwrap_or final.outcome failed)

unfoldable pub next_of : ℕ → List Step → Option Step → List StepRun → Next
unfolding next_in_pass from_latest
next_of max_fix_rounds [] fix pass = done
next_of max_fix_rounds (s ∷ r) fix pass =
    next_in_pass max_fix_rounds (s ∷ r) fix s (from_latest pass s.name)

unfoldable pub next : Workflow → List StepRun → Bool → Next
unfolding split next_of
next w pass has_verify =
    let (forward, fix) = split w has_verify in next_of w.max_fix_rounds forward fix pass

-- The last run of a pass that is no command.
unfoldable pub resumable : List StepRun → Option StepRun
resumable [] = none
resumable (r ∷ rs) = elim (resumable rs) [
  | some run ↦ some run
  | none ↦ if r.command then none else some r
]

abbrev pub findings_marker : String
findings_marker = "FINDINGS"

-- An exit code is compared with 0 only, so its sign is left out.
pub record StepEvidence : Type 0 where
  pub exit_code : Option ℕ
  pub commits : ℕ
  pub handoff : Option String

abbrev pub step_succeeded : Step → StepEvidence → Bool
step_succeeded s e =
    let handoff = trim_space (unwrap_or e.handoff "") in
    if s.command
    then elim e.exit_code [ none ↦ false | some code ↦ code == 0 ]
    else if s.writes
    then handoff != "" && is_none (cut_prefix handoff findings_marker)
    else ltb 0 e.commits

unfoldable pub step_outcome : Step → StepEvidence → Outcome
unfolding trim_space cut_prefix
step_outcome s e = if step_succeeded s e then passed else failed
