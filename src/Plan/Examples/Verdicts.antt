-- ===== src/Plan/Examples/Verdicts.antt =====
-- The verdicts on a pushed ticket, and the words of the states.
use command_center.Prelude.{
  ◌≡◌, refl, ◌≢◌, ◌↔◌, true, false, some, [], ◌∷◌, ◌++◌, arith, nat_eq, string_eq, ==_iff, lookup,
  get_or,
}
use command_center.Plan.Verdict
use command_center.Plan.Verdict.{
  Input, review_me, ci_failed, TriState, green, Predicate, evaluate, resolve, observed,
}
use command_center.Plan.Verdict.Outcome.{
  base_has_moved, evaluate-review_me_iff, evaluate_unobserved,
}
use command_center.Plan.Verdict.Stability.{AsksChecks, ReadsNoAbsence, Extends, resolve_stable}
use command_center.Plan.Verdict.Kleene.{meaning, resolve_kleene}
use command_center.Plan.State.{State, parse_state, state_string}
use command_center.Plan.State.Words.{parse_state_iff}
use command_center.Plan.Examples.Data.{both_checks, green_input}

evaluate-review_me_iff_example : ((evaluate both_checks green_input).kind ≡ review_me) ↔ (
    (base_has_moved green_input ≡ false)
    × ((resolve (observed green_input) both_checks).0 ≡ green)
    × (green_input.config_hash_ok ≡ true))
evaluate-review_me_iff_example = evaluate-review_me_iff both_checks green_input

-- The test has not succeeded, and is the compat check.
abbrev compat_input : Input
compat_input = record green_input {
  checks = ("lint", Verdict.CheckState.success) ∷ ("test", Verdict.CheckState.failure) ∷ [];
  compat_check = "test";
}

abbrev other_head : Input
other_head = record green_input { head_oid_match = false }

evaluate_unobserved_example :
    ((evaluate both_checks other_head).kind ≢ review_me)
    × ((evaluate both_checks other_head).kind ≢ ci_failed)
unfolding AsksChecks
evaluate_unobserved_example =
    evaluate_unobserved both_checks other_head refl
      (((tt, tt, refl, refl, refl), ((tt, tt, refl, refl, refl), tt)), tt, refl, refl, refl)

-- One more check has come.
abbrev later_input : Input
later_input = record green_input {
  checks = green_input.checks ++ ("e2e", Verdict.CheckState.failure) ∷ [];
}

later_input-Extends : Extends green_input later_input
unfolding get_or lookup
later_input-Extends = record {
  same_author = refl;
  finished = λ name. ground (arith, ==_iff "lint" name, ==_iff "test" name, ==_iff "e2e" name);
}

resolve_stable_example : (resolve later_input both_checks).0 ≡ (resolve green_input both_checks).0
unfolding ReadsNoAbsence resolve
resolve_stable_example =
    resolve_stable green_input later_input both_checks
      (((tt, tt, tt, refl), ((tt, tt, tt, refl), tt)), tt, tt, refl) later_input-Extends
      (λ e. ground arith)

resolve_kleene_example : (resolve green_input both_checks).0 ≡ meaning green_input both_checks
resolve_kleene_example = resolve_kleene green_input both_checks

parse_state_iff_example :
    (parse_state "ready" ≡ some State.ready)
    ↔ ((state_string State.ready ≡ "ready") × (State.ready ≢ State.unknown))
parse_state_iff_example = parse_state_iff "ready" State.ready
