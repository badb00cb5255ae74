-- ===== src/Plan/Workflow/Progress.antt =====
-- internal/plan/workflow.go: how many runs there are between two runs of the first step.
use command_center.Prelude.{
  ℕ, zero, suc, ◌+◌, ◌-◌, ◌*◌, ◌≤◌, ◌<◌, ◌≡◌, refl, sym, ap, ◌∙◌, ◌≢◌, ◌⊎◌, inl, inr, Bool, true,
  false, Option, some, List, [], ◌∷◌, ◌++◌, arith, if◌then◌else◌, Bool-cases, unwrap_or, length,
  any, last, length-append, ◌==◌, nat_eq, string_eq, ==_iff, ==_self,
}
use command_center.Prelude.{any-append}
use native.Mathlib.Nat.{suc-mul}
use native.Mathlib.Numerals.{add-one}
use command_center.Plan.Ids.{StepName}
use command_center.Plan.Outcome.{failed, outcome_eq}
use command_center.Plan.Workflow.{
  Step, Workflow, StepRun, split, latest, from_latest, run_step, steps_from, is_fix, tally,
  next_after, next_of, next,
}
use command_center.Plan.Workflow.Passes.{
  last-append, tally_one, tally-append, latest-append_same, latest-append_other,
}
use command_center.Plan.Workflow.Rounds.{Driven, start, run}
use command_center.Plan.Workflow.Causes.{
  Distinct, Cause, fixed, onward, failing, run_step-eq, next_after-Cause, found-name, found_tail,
  length-steps_from-le,
}

-- The most runs of a pass: between fix rounds each forward step runs at most once.
abbrev pub most_runs : ℕ → ℕ → ℕ
most_runs bound steps = bound * (steps + 2) + steps + 1

-- What may still run after a run of `name` with no further fix round.
abbrev ahead : List Step → Option Step → StepName → ℕ
ahead forward fix name =
    if is_fix fix name then length forward + 2 else length (steps_from forward name)

-- Where a pass stands after `len` runs: the fix rounds left, and the runs that are left in all.
record Stands (bound : ℕ) (forward : List Step) (fix : Option Step) (rounds : ℕ)
    (failed_step name : StepName) (len : ℕ) : Type 0 where
  left : ℕ
  rounds_left : rounds + left ≡ bound
  runs_left :
      len + left * (length forward + 2) + ahead forward fix name ≤ most_runs bound (length forward)
  known : steps_from forward failed_step ≢ []
  same_step : (is_fix fix name ≡ true) ⊎ (failed_step ≡ name)

pred_mul : (l m : ℕ) → 0 < l → (l - 1) * m + m ≡ l * m
pred_mul zero m h = absurd (omega arith)
pred_mul (suc l) m h = let e : suc l - 1 ≡ l = omega arith in rw e (omega (arith, suc-mul l m))

module _ (bound : ℕ) (forward : List Step) (fix : Option Step) (distinct : Distinct forward)
    (apart : (name : StepName) → steps_from forward name ≢ [] → is_fix fix name ≡ false) where
  Stands-step :
      (rounds len : ℕ) (failed_step name : StepName) (s : Step) (r : StepRun)
      → Cause bound forward fix rounds failed_step name s
      → r.step ≡ s.name
      → Stands bound forward fix rounds failed_step name len
      → Stands bound forward fix
          (tally_one fix r (rounds, failed_step)).0
          (tally_one fix r (rounds, failed_step)).1
          r.step
          (suc len)
  Stands-step rounds len failed_step name s r (fixed behind y e) q h =
      let same = found-name forward failed_step s behind e in
      let off = apart failed_step h.known in
      record {
        left = h.left;
        rounds_left = ground (arith, h.rounds_left);
        runs_left = ground (arith, h.runs_left, length-steps_from-le forward r.step);
        known = ground (arith, h.known);
        same_step = ground arith;
      }
  Stands-step rounds len failed_step name s r (onward t behind z e) q h =
      let here = found_tail forward name t s behind distinct e in
      let off = apart s.name (ground (arith, here)) in
      record {
        left = h.left;
        rounds_left = ground (arith, h.rounds_left, off);
        runs_left = ground (arith, h.runs_left, here, off);
        known = ground (arith, here, off);
        same_step = ground (arith, off);
      }
  Stands-step rounds len failed_step name s r (failing t behind z e g below) q h =
      let on = fix_name s r g q in
      record {
        left = h.left - 1;
        rounds_left = ground (arith, h.rounds_left, on);
        runs_left = ground (
          arith,
          h.runs_left,
          h.rounds_left,
          on,
          pred_mul h.left (length forward + 2),
          ap (λ l. length l) e,
        );
        known = ground (arith, h.known, on);
        same_step = inl on;
      }
    where
      fix_name :
          (s : Step) (r : StepRun) → fix ≡ some s → r.step ≡ s.name → is_fix fix r.step ≡ true
      fix_name s r g q = ground (arith, ==_iff r.step s.name)

-- Where a driven history stands: its current pass, and the place in it.
record Running (bound : ℕ) (forward : List Step) (fix : Option Step) (first : StepName)
    (pass : List StepRun) : Type 0 where
  head : StepRun
  tail : List StepRun
  found : latest pass first ≡ some (head ∷ tail)
  quiet : any (λ (r : StepRun). r.alive) (head ∷ tail) ≡ false
  stands :
      Stands bound forward fix
        (tally fix (head ∷ tail) (0, "")).0
        (tally fix (head ∷ tail) (0, "")).1
        (last head tail).step
        (length (head ∷ tail))

module _ (bound : ℕ) (s : Step) (more : List Step) (fix : Option Step)
    (distinct : Distinct (s ∷ more))
    (apart : (name : StepName) → steps_from (s ∷ more) name ≢ [] → is_fix fix name ≡ false) where
  Running-restart :
      (pass : List StepRun) (r : StepRun)
      → r.step ≡ s.name
      → r.alive ≡ false
      → Running bound (s ∷ more) fix s.name (pass ++ r ∷ [])
  unfolding tally steps_from
  Running-restart pass r q dead =
      let off = apart s.name (ground (arith, ==_self s.name)) in
      record {
        head = r;
        tail = [];
        found = latest-append_same pass r s.name q;
        quiet = ground arith;
        stands = record {
          left = bound;
          rounds_left = ground (arith, off);
          runs_left = ground (arith, off, ==_iff s.name r.step);
          known = ground (arith, off, ==_iff s.name r.step);
          same_step = ground (arith, off);
        };
      }

  next_of-running :
      (pass : List StepRun) (hd : StepRun) (tl : List StepRun)
      → latest pass s.name ≡ some (hd ∷ tl)
      → any (λ (r : StepRun). r.alive) (hd ∷ tl) ≡ false
      → next_of bound (s ∷ more) fix pass
        ≡ next_after bound
            (s ∷ more)
            fix
            (tally fix (hd ∷ tl) (0, ""))
            (last hd tl).step
            (unwrap_or (last hd tl).outcome failed)
  unfolding next_of
  next_of-running pass hd tl found quiet = rw found (rw quiet refl)

  Running-run :
      (pass : List StepRun) (t : Step) (round : ℕ) (r : StepRun)
      → Running bound (s ∷ more) fix s.name pass
      → next_of bound (s ∷ more) fix pass ≡ run_step t round
      → r.step ≡ t.name
      → r.alive ≡ false
      → r.step ≢ s.name
      → Running bound (s ∷ more) fix s.name (pass ++ r ∷ [])
  Running-run pass t round r h e q dead other =
      let all : List StepRun = h.head ∷ h.tail in
      let counted = tally fix all (0, "") in
      let final = last h.head h.tail in
      let cause =
        next_after-Cause bound (s ∷ more) fix counted.0 counted.1 final.step
          (unwrap_or final.outcome failed) t round
          (sym (next_of-running pass h.head h.tail h.found h.quiet) ∙ e) in
      record {
        head = h.head;
        tail = h.tail ++ r ∷ [];
        found = latest-append_other pass r s.name all other h.found;
        quiet = any-append (λ (x : StepRun). x.alive) all (r ∷ []) ∙ ground (arith, h.quiet);
        stands = rw (tally-append fix all r (0, "")) (
            rw (last-append h.head r h.tail) (
              rw (length-append all (r ∷ [])) (
                rw (add-one (length all)) (
                  Stands-step bound (s ∷ more) fix distinct apart counted.0 (length all) counted.1
                    final.step t r cause q h.stands))));
      }

  first_asked : (t : Step) (round : ℕ) → next_of bound (s ∷ more) fix [] ≡ run_step t round → s ≡ t
  unfolding next_of
  first_asked t round k = run_step-eq s t 0 round k

  module _ (w : Workflow) (has_verify : Bool) (bounded : w.max_fix_rounds ≡ bound)
      (parts : split w has_verify ≡ (s ∷ more, fix)) where
    next-parts : (pass : List StepRun) → next w pass has_verify ≡ next_of bound (s ∷ more) fix pass
    unfolding next
    next-parts pass = rw parts (rw bounded refl)

    Driven-Running :
        (pass : List StepRun)
        → Driven w has_verify pass
        → (pass ≡ []) ⊎ Running bound (s ∷ more) fix s.name pass
    Driven-Running pass start = inl refl
    Driven-Running pass' (run {pass} t round r d e q dead) = elim (Bool-cases (r.step == s.name)) [
      | inl y ↦ inr (Running-restart pass r ((==_iff r.step s.name).0 y) dead)
      | inr z ↦ inr (go (Driven-Running pass d) (λ k. other z k))
    ]
      where
        other : (r.step == s.name) ≡ false → r.step ≢ s.name
        other z k = ground (arith, ==_iff r.step s.name)

        go :
            (pass ≡ []) ⊎ Running bound (s ∷ more) fix s.name pass
            → r.step ≢ s.name
            → Running bound (s ∷ more) fix s.name (pass ++ r ∷ [])
        go (inl none_yet) n =
            let same =
              first_asked t round
                (ap (next_of bound (s ∷ more) fix) (sym none_yet) ∙ sym (next-parts pass) ∙ e) in
            absurd (n (q ∙ ap (λ (x : Step). x.name) (sym same)))
        go (inr h) n = Running-run pass t round r h (sym (next-parts pass) ∙ e) q dead n

-- On a history where every run is the one that `Next` asked for, however it ended, the pass since the
-- latest run of the first step has at most `MaxFixRounds` runs of the fix step, and at most
-- `MaxFixRounds * (n + 2) + n + 1` runs in all, where `n` is the number of forward steps. The forward
-- steps have distinct names, and the fix step has none of them.
pub pass_bounded :
    (w : Workflow) (has_verify : Bool) (s : Step) (more : List Step) (fix : Option Step)
    (pass : List StepRun)
    → split w has_verify ≡ (s ∷ more, fix)
    → Distinct (s ∷ more)
    → ((name : StepName) → steps_from (s ∷ more) name ≢ [] → is_fix fix name ≡ false)
    → Driven w has_verify pass
    → (length (from_latest pass s.name) ≤ most_runs w.max_fix_rounds (length (s ∷ more)))
      × ((tally fix (from_latest pass s.name) (0, "")).0 ≤ w.max_fix_rounds)
unfolding from_latest tally
pass_bounded w has_verify s more fix pass parts distinct apart d =
    elim (Driven-Running w.max_fix_rounds s more fix distinct apart w has_verify refl parts pass
      d) [
        | inl none_yet ↦ rw none_yet (omega arith, omega arith)
        | inr h ↦
            rw h.found (omega (arith, h.stands.runs_left), omega (arith, h.stands.rounds_left))
      ]
