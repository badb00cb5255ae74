-- ===== src/Plan/Examples/Workflows.antt =====
-- Histories of the steps of a workflow.
use command_center.Prelude.{
  ◌≤◌, String, ◌≡◌, refl, ◌≢◌, true, false, some, List, [], ◌∷◌, arith, length, nat_eq, string_eq,
  ==_iff,
}
use command_center.Plan.Workflow.{
  StepRun, split, steps_from, is_fix, from_latest, tally, run_step, next,
}
use command_center.Plan.Workflow.Progress.{most_runs, pass_bounded}
use command_center.Plan.Workflow.Rounds.{
  Driven, start, run, runs_of, next-failed_first, fix_rounds_unbounded,
}
use command_center.Plan.Examples.Data.{v1, setup, verify, fix, failed_setup}

abbrev one_run : List StepRun
one_run = failed_setup ∷ []

one_run-Driven : Driven v1 true one_run
unfolding next
one_run-Driven = run setup 0 failed_setup start refl refl refl

setup-fix : setup.name ≢ fix.name
setup-fix e = ground (arith, ==_iff setup.name fix.name)

fix_apart :
    (name : String) → steps_from (setup ∷ verify ∷ []) name ≢ [] → is_fix (some fix) name ≡ false
unfolding steps_from
fix_apart name h = ground (
  arith,
  ==_iff name fix.name,
  ==_iff setup.name name,
  ==_iff verify.name name,
  ==_iff setup.name fix.name,
  ==_iff verify.name fix.name,
)

pass_bounded_example :
    (length (from_latest one_run "setup") ≤ most_runs 2 (length (setup ∷ verify ∷ [])))
    × ((tally (some fix) (from_latest one_run "setup") (0, "")).0 ≤ 2)
unfolding split steps_from
pass_bounded_example =
    pass_bounded v1 true setup (verify ∷ []) (some fix) one_run refl (refl, (refl, tt)) fix_apart
      one_run-Driven

next-failed_first_example : next v1 one_run true ≡ run_step fix 1
unfolding split
next-failed_first_example =
    next-failed_first v1 true [] failed_setup setup verify fix [] refl (omega arith) setup-fix refl
      refl refl

fix_rounds_unbounded_example :
    (pass : List StepRun) × Driven v1 true pass
    × (runs_of "fix" pass ≡ 3)
    × (next v1 pass true ≡ run_step fix 1)
unfolding split
fix_rounds_unbounded_example =
    fix_rounds_unbounded v1 true setup verify fix [] refl (omega arith) setup-fix 3
