-- ===== src/Plan/Workflow/Causes.antt =====
-- internal/plan/workflow.go, `Next`: why a step is asked for after a run.
use command_center.Prelude.{
  ℕ, ◌+◌, ◌≤◌, ◌<◌, ◌≡◌, refl, sym, ap, inl, inr, true, false, ◌&&◌, Option, none, some, List, [],
  ◌∷◌, arith, ltb, if◌then◌else◌, Bool-cases, length, ◌==◌, nat_eq, string_eq, ==_iff,
}
use command_center.Plan.Ids.{StepName}
use command_center.Plan.Outcome.{Outcome, failed, passed, outcome_eq}
use command_center.Plan.Workflow.{
  Step, run_step, park, steps_from, rerun, is_fix, next_forward, next_after, still_failing,
}

-- No two steps share a name.
abbrev pub Distinct : List Step → Type 0
Distinct [] = Unit
Distinct (s ∷ r) = (steps_from r s.name ≡ []) × Distinct r

-- Why a step runs after the last run `name` of a pass whose tally is `(rounds, failed_step)`.
pub data Cause (bound : ℕ) (forward : List Step) (fix : Option Step) (rounds : ℕ)
    (failed_step name : StepName) (s : Step) : Type 0 where
  fixed :
      (behind : List Step)
      → is_fix fix name ≡ true
      → steps_from forward failed_step ≡ s ∷ behind
      → Cause bound forward fix rounds failed_step name s
  onward :
      (t : Step) (behind : List Step)
      → is_fix fix name ≡ false
      → steps_from forward name ≡ t ∷ s ∷ behind
      → Cause bound forward fix rounds failed_step name s
  failing :
      (t : Step) (behind : List Step)
      → is_fix fix name ≡ false
      → steps_from forward name ≡ t ∷ behind
      → fix ≡ some s
      → rounds < bound
      → Cause bound forward fix rounds failed_step name s

pub run_step-eq : (s t : Step) (n m : ℕ) → run_step s n ≡ run_step t m → s ≡ t
unfolding run_step
run_step-eq s t n m e = ground arith

-- The `switch` on a last run that did not pass, the fix step being there.
after_failure-cause :
    (bound rounds : ℕ) (name : StepName) (o : Outcome) (f s : Step) (round : ℕ)
    → (if o == failed && ltb rounds bound
        then run_step f (rounds + 1)
        else if o == failed
        then still_failing name rounds
        else park name o)
      ≡ run_step s round
    → (f ≡ s) × (rounds < bound)
unfolding run_step park
after_failure-cause bound rounds name o f s round e = ground arith

next_forward-Cause :
    (bound : ℕ) (forward : List Step) (fix : Option Step) (rounds : ℕ) (failed_step name : StepName)
    (o : Outcome) (t s : Step) (round : ℕ) (behind : List Step)
    → is_fix fix name ≡ false
    → steps_from forward name ≡ t ∷ behind
    → next_forward bound fix rounds name o behind ≡ run_step s round
    → Cause bound forward fix rounds failed_step name s
unfolding next_forward
next_forward-Cause bound forward fix rounds failed_step name o t s round [] h e n =
    absurd (ground arith)
next_forward-Cause bound forward fix rounds failed_step name passed t s round (u ∷ behind) h e n =
    onward t behind h (ground (arith, run_step-eq u s rounds round n))
next_forward-Cause bound forward (some f) rounds failed_step name failed t s round (u ∷ behind) h e
      n =
    let (same, below) = after_failure-cause bound rounds name failed f s round n in
    failing t (u ∷ behind) h e (ap some same) below
next_forward-Cause bound forward fix rounds failed_step name failed t s round (u ∷ behind) h e n =
    cc
next_forward-Cause bound forward none rounds failed_step name o t s round (u ∷ behind) h e n = cc
next_forward-Cause bound forward (some f) rounds failed_step name o t s round (u ∷ behind) h e n =
    cc

rerun-cause :
    (forward : List Step) (name : StepName) (rounds round : ℕ) (s : Step)
    → rerun forward name rounds ≡ run_step s round
    → (behind : List Step) × (steps_from forward name ≡ s ∷ behind)
unfolding rerun
rerun-cause forward name rounds round s e = go (steps_from forward name) refl
  where
    go :
        (found : List Step)
        → steps_from forward name ≡ found
        → (behind : List Step) × (steps_from forward name ≡ s ∷ behind)
    go [] k = absurd (ground arith)
    go (t ∷ behind) k = (behind, ground arith)

pub next_after-Cause :
    (bound : ℕ) (forward : List Step) (fix : Option Step) (rounds : ℕ) (failed_step name : StepName)
    (o : Outcome) (s : Step) (round : ℕ)
    → next_after bound forward fix (rounds, failed_step) name o ≡ run_step s round
    → Cause bound forward fix rounds failed_step name s
unfolding next_after
next_after-Cause bound forward fix rounds failed_step name o s round e =
    elim (Bool-cases (is_fix fix name)) [
      | inl y ↦
          let (behind, found) = rerun-cause forward failed_step rounds round s (ground arith) in
          fixed behind y found
      | inr z ↦ go (steps_from forward name) refl z
    ]
  where
    go :
        (found : List Step)
        → steps_from forward name ≡ found
        → is_fix fix name ≡ false
        → Cause bound forward fix rounds failed_step name s
    go [] k z = absurd (ground arith)
    go (t ∷ behind) k z =
        next_forward-Cause bound forward fix rounds failed_step name o t s round behind z k
          (ground arith)

pub found-name :
    (forward : List Step) (name : StepName) (t : Step) (behind : List Step)
    → steps_from forward name ≡ t ∷ behind
    → t.name ≡ name
unfolding steps_from
found-name [] name t behind e = cc
found-name (x ∷ r) name t behind e = ground (arith, ==_iff x.name name, found-name r name t behind)

pub found_tail :
    (forward : List Step) (name : StepName) (t u : Step) (behind : List Step)
    → Distinct forward
    → steps_from forward name ≡ t ∷ u ∷ behind
    → steps_from forward u.name ≡ u ∷ behind
unfolding steps_from
found_tail [] name t u behind d e = cc
found_tail (x ∷ r) name t u behind (fresh, d) e = elim (Bool-cases (x.name == name)) [
  | inl y ↦ ground (
    arith,
    ==_iff u.name u.name,
    ==_iff u.name x.name,
    ==_iff x.name u.name,
    ap (λ l. steps_from l x.name) (sym (tail_of y)),
  )
  | inr z ↦ ground (arith, found_tail r name t u behind d, ==_iff x.name u.name)
]
  where
    tail_of : (x.name == name) ≡ true → r ≡ u ∷ behind
    tail_of y = ground arith

pub length-steps_from-le :
    (forward : List Step) (name : StepName) → length (steps_from forward name) ≤ length forward
unfolding steps_from
length-steps_from-le [] name = omega arith
length-steps_from-le (x ∷ r) name = ground (arith, length-steps_from-le r name)
