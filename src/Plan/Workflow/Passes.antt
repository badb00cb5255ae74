-- ===== src/Plan/Workflow/Passes.antt =====
-- internal/plan/workflow.go: how a pass reads when one more run is appended to it.
use command_center.Prelude.{
  ℕ, ◌+◌, ◌≡◌, refl, ◌≢◌, inl, inr, Option, none, some, List, [], ◌∷◌, ◌++◌, arith, if◌then◌else◌,
  Option-cases, last, nat_eq, string_eq, ==_iff,
}
use command_center.Plan.Ids.{StepName}
use command_center.Plan.Outcome.{outcome_eq}
use command_center.Plan.Workflow.{Step, StepRun, latest, is_fix, tally}

pub last-append {ℓ} : {A : Type ℓ} (x r : A) (xs : List A) → last x (xs ++ r ∷ []) ≡ r
last-append x r [] = refl
last-append x r (y ∷ ys) = last-append y r ys

-- What one run adds to the tally.
abbrev pub tally_one : Option Step → StepRun → ℕ × StepName → ℕ × StepName
tally_one fix r (rounds, name) = if is_fix fix r.step then (rounds + 1, name) else (rounds, r.step)

pub tally-append :
    (fix : Option Step) (xs : List StepRun) (r : StepRun) (acc : ℕ × StepName)
    → tally fix (xs ++ r ∷ []) acc ≡ tally_one fix r (tally fix xs acc)
unfolding tally
tally-append fix [] r acc = refl
tally-append fix (x ∷ xs) r acc = tally-append fix xs r (tally_one fix x acc)

-- A run of the step starts its pass anew.
pub latest-append_same :
    (xs : List StepRun) (r : StepRun) (name : StepName)
    → r.step ≡ name
    → latest (xs ++ r ∷ []) name ≡ some (r ∷ [])
unfolding latest
latest-append_same [] r name e = ground (arith, ==_iff r.step name)
latest-append_same (x ∷ xs) r name e = rw (latest-append_same xs r name e)

-- Any other run goes to the end of the pass.
pub latest-append_other :
    (xs : List StepRun) (r : StepRun) (name : StepName) (ys : List StepRun)
    → r.step ≢ name
    → latest xs name ≡ some ys
    → latest (xs ++ r ∷ []) name ≡ some (ys ++ r ∷ [])
unfolding latest
latest-append_other [] r name ys n e = cc
latest-append_other (x ∷ xs) r name ys n e = elim (Option-cases (latest xs name)) [
  | inl none_yet ↦ ground (arith, ==_iff x.step name, latest-append_none xs r name n none_yet)
  | inr (zs, found) ↦ ground (arith, latest-append_other xs r name zs n found)
]
  where
    latest-append_none :
        (xs : List StepRun) (r : StepRun) (name : StepName)
        → r.step ≢ name
        → latest xs name ≡ none
        → latest (xs ++ r ∷ []) name ≡ none
    latest-append_none [] r name n e = ground (arith, ==_iff r.step name)
    latest-append_none (x ∷ xs) r name n e =
        ground (arith, Option-cases (latest xs name), latest-append_none xs r name n)
