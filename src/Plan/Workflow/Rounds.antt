-- ===== src/Plan/Workflow/Rounds.antt =====
-- internal/plan/workflow.go: the rounds of the fix step.
use command_center.Prelude.{
  ℕ, zero, suc, ◌+◌, ◌<◌, ◌≡◌, refl, sym, ◌∙◌, ◌≢◌, Bool, false, none, some, List, [], ◌∷◌, ◌++◌,
  arith, if◌then◌else◌, ◌==◌, nat_eq, string_eq, ==_iff, ==_self,
}
use command_center.Plan.Ids.{StepName}
use command_center.Plan.Outcome.{Outcome, failed, passed, outcome_eq}
use command_center.Plan.Workflow.{
  Step, Workflow, StepRun, split, from_latest, run_step, rerun, tally, next_forward, next_after,
  next_in_pass, next_of, next,
}
use command_center.Plan.Workflow.Passes.{latest-append_same, latest-append_other}

from_latest_restart :
    (pass : List StepRun) (r : StepRun) (name : StepName)
    → r.step ≡ name
    → from_latest (pass ++ r ∷ []) name ≡ r ∷ []
unfolding from_latest
from_latest_restart pass r name e = rw (latest-append_same pass r name e)

-- Whatever a pass holds, a failed run of the workflow's first step at its end starts fix round 1
-- again, where the workflow has a further step, a fix step of another name and a bound of at least
-- one round. So the bound is never reached for the first step.
pub next-failed_first :
    (w : Workflow) (has_verify : Bool) (pass : List StepRun) (r : StepRun) (s t f : Step)
    (behind : List Step)
    → split w has_verify ≡ (s ∷ t ∷ behind, some f)
    → 0 < w.max_fix_rounds
    → s.name ≢ f.name
    → r.step ≡ s.name
    → r.alive ≡ false
    → r.outcome ≡ some failed
    → next w (pass ++ r ∷ []) has_verify ≡ run_step f 1
unfolding next next_of next_in_pass next_after next_forward tally
next-failed_first w has_verify pass r s t f behind e m n step dead failure = rw e (
    rw (from_latest_restart pass r s.name step)
      (ground (arith, ==_iff r.step f.name, ==_iff s.name r.step)))

-- The histories of a ticket on which every run is the one that `Next` asked for, however it ended.
pub data Driven (w : Workflow) (has_verify : Bool) : List StepRun → Type 0 where
  start : Driven w has_verify []
  run :
      {pass : List StepRun} (s : Step) (round : ℕ) (r : StepRun)
      → Driven w has_verify pass
      → next w pass has_verify ≡ run_step s round
      → r.step ≡ s.name
      → r.alive ≡ false
      → Driven w has_verify (pass ++ r ∷ [])

-- How many runs of a step a history holds.
abbrev pub runs_of : StepName → List StepRun → ℕ
runs_of name [] = 0
runs_of name (r ∷ rs) = (if r.step == name then 1 else 0) + runs_of name rs

runs_of-append :
    (name : StepName) (xs ys : List StepRun)
    → runs_of name (xs ++ ys) ≡ runs_of name xs + runs_of name ys
runs_of-append name [] ys = omega arith
runs_of-append name (x ∷ xs) ys = omega (arith, runs_of-append name xs ys)

ended : Step → Outcome → StepRun
ended s o = record {
  id = 0;
  step = s.name;
  command = s.command;
  alive = false;
  outcome = some o;
  handoff = none;
}

module _ (w : Workflow) (has_verify : Bool) (s t f : Step) (behind : List Step)
    (parts : split w has_verify ≡ (s ∷ t ∷ behind, some f)) (bound : 0 < w.max_fix_rounds)
    (apart : s.name ≢ f.name) where
  next-fixed_first :
      (pass : List StepRun)
      → next w ((pass ++ ended s failed ∷ []) ++ ended f passed ∷ []) has_verify ≡ run_step s 1
  unfolding next next_of next_in_pass next_after next_forward tally rerun ended from_latest
  next-fixed_first pass = rw parts (
      rw
        (latest-append_other (pass ++ ended s failed ∷ []) (ended f passed) s.name
          (ended s failed ∷ []) (λ e. apart (sym e))
          (latest-append_same pass (ended s failed) s.name refl))
        (ground (arith, ==_iff s.name f.name, ==_self f.name, ==_self s.name)))

  next-empty : next w [] has_verify ≡ run_step s 0
  unfolding next next_of next_in_pass from_latest
  next-empty = rw parts refl

  before_failure : ℕ → List StepRun
  before_failure zero = []
  before_failure (suc n) = (before_failure n ++ ended s failed ∷ []) ++ ended f passed ∷ []

  asks_for_fix :
      (n : ℕ) → next w (before_failure n ++ ended s failed ∷ []) has_verify ≡ run_step f 1
  unfolding ended
  asks_for_fix n =
      next-failed_first w has_verify (before_failure n) (ended s failed) s t f behind parts bound
        apart refl refl refl

  asks_for_first : (n : ℕ) → (round : ℕ) × (next w (before_failure n) has_verify ≡ run_step s round)
  unfolding before_failure
  asks_for_first zero = (0, next-empty)
  asks_for_first (suc n) = (1, next-fixed_first (before_failure n))

  before_failure-Driven : (n : ℕ) → Driven w has_verify (before_failure n)
  unfolding before_failure ended
  before_failure-Driven zero = start
  before_failure-Driven (suc n) =
      let (round, e) = asks_for_first n in
      run f 1 (ended f passed) (run s round (ended s failed) (before_failure-Driven n) e refl refl)
        (asks_for_fix n) refl refl

  runs_of-before_failure : (n : ℕ) → runs_of f.name (before_failure n) ≡ n
  unfolding before_failure ended
  runs_of-before_failure zero = refl
  runs_of-before_failure (suc n) =
      rw (runs_of-append f.name (before_failure n ++ ended s failed ∷ []) (ended f passed ∷ [])) (
        rw (runs_of-append f.name (before_failure n) (ended s failed ∷ []))
          (ground (arith, runs_of-before_failure n, ==_self f.name, ==_iff s.name f.name)))

  -- For every number there is a history on which each run was the one asked for, the fix step ran
  -- that often, and the next run asked for is again the fix step in round 1. The workflow has a
  -- first step, a further step, a fix step of another name than the first, and a bound of at least
  -- one round; on the history the first step fails each time and the fix step passes.
  pub fix_rounds_unbounded :
      (n : ℕ)
      → (pass : List StepRun) × Driven w has_verify pass
        × (runs_of f.name pass ≡ n)
        × (next w pass has_verify ≡ run_step f 1)
  unfolding ended
  fix_rounds_unbounded n =
      let (round, e) = asks_for_first n in
      (
        before_failure n ++ ended s failed ∷ [],
        run s round (ended s failed) (before_failure-Driven n) e refl refl,
        runs_of-append f.name (before_failure n) (ended s failed ∷ [])
            ∙ ground (arith, runs_of-before_failure n, ==_iff s.name f.name),
        asks_for_fix n,
      )
