-- ===== src/Plan/Status/Cases.antt =====
-- internal/plan/plan.go, `Status`: which facts give which state.
use command_center.Prelude.{
  ◌≡◌, ◌≢◌, ◌↔◌, inl, inr, Bool, true, false, not, ◌&&◌, Option, none, some, arith, Option-cases,
  is_some, is_none, unwrap_or, nat_eq, string_eq, ==_iff,
}
use command_center.Plan.Outcome.{Outcome}
use command_center.Plan.Verdict.{Kind, Result}
use command_center.Plan.Ticket.{Unlock}
use command_center.Plan.State.{State}
use command_center.Plan.Status.{
  RunFact, Facts, status, status_from_run, status_of_launch, status_of_outcome, status_from_push,
  status_from_next, run_merged,
}

abbrev pub verdict_kind : Option Result → Option Kind
verdict_kind none = none
verdict_kind (some r) = some r.kind

-- Nothing stands between the push of a run and the verdict of its checks.
pub record IsClear (run : RunFact) : Type 0 where
  pub not_closed : run.pr_closed_unmerged ≡ false
  pub not_mid_merge : run.mid_merge ≡ false
  pub no_conflict : run.conflicts_with_main ≡ false
  pub no_peer : run.conflicting_peer ≡ ""
  pub verified : run.verification_failed ≡ false
  pub not_refused : run.push_refused ≡ false
  pub not_failed : run.push_failed ≡ false
  pub refreshed : run.refresh_refused ≡ false

push_review_me :
    (run : RunFact) (unlock : Unlock)
    → ((status_from_push run unlock).0 ≡ State.review_me)
      ↔ (IsClear run × (verdict_kind run.verdict ≡ some Kind.review_me))
unfolding status_from_push
push_review_me run unlock = ground (arith, ==_iff run.conflicting_peer "")

outcome_review_me :
    (run : RunFact) (unlock : Unlock) (o : Outcome)
    → ((status_of_outcome run unlock o).0 ≡ State.review_me)
      ↔ ((o ≡ Outcome.push) × ((status_from_push run unlock).0 ≡ State.review_me))
unfolding status_of_outcome status_from_next
outcome_review_me run unlock o = ground arith

launch_states :
    (f : Facts)
    → ((status_of_launch f).0 ≢ State.review_me)
      × ((status_of_launch f).0 ≢ State.running)
      × ((status_of_launch f).0 ≢ State.pr_merged)
      × ((status_of_launch f).0 ≢ State.base_gone)
      × ((status_of_launch f).0 ≢ State.unknown)
unfolding status_of_launch
launch_states f = ground arith

push_states :
    (run : RunFact) (unlock : Unlock)
    → ((status_from_push run unlock).0 ≢ State.running)
      × ((status_from_push run unlock).0 ≢ State.pr_merged)
      × ((status_from_push run unlock).0 ≢ State.base_gone)
      × ((status_from_push run unlock).0 ≢ State.ready)
      × ((status_from_push run unlock).0 ≢ State.queued)
      × ((status_from_push run unlock).0 ≢ State.unknown)
unfolding status_from_push
push_states run unlock = ground arith

outcome_states :
    (run : RunFact) (unlock : Unlock) (o : Outcome)
    → ((status_of_outcome run unlock o).0 ≢ State.running)
      × ((status_of_outcome run unlock o).0 ≢ State.pr_merged)
      × ((status_of_outcome run unlock o).0 ≢ State.base_gone)
      × ((status_of_outcome run unlock o).0 ≢ State.ready)
      × ((status_of_outcome run unlock o).0 ≢ State.unknown)
unfolding status_of_outcome
outcome_states run unlock Outcome.push =
    let (a, b, c, d, _, e) = push_states run unlock in (a, b, c, d, e)
outcome_states run unlock o = ground arith

-- A run that says nothing: there is none, or it is neither alive nor ended.
abbrev pub is_silent : Option RunFact → Bool
is_silent none = true
is_silent (some run) = not run.alive && is_none run.outcome

-- No case of `Status` leaves a ticket in `StateUnknown`.
pub status-known : (f : Facts) → (status f).0 ≢ State.unknown
unfolding status
status-known f = elim (Option-cases f.latest_run) [
  | inl e ↦ ground (arith, launch_states f)
  | inr (run, e) ↦ elim (Option-cases run.outcome) [
    | inl n ↦ ground (arith, launch_states f)
    | inr (o, k) ↦ ground (arith, launch_states f, outcome_states run f.unlock o)
  ]
]

-- A ticket is ready for review exactly when its blocker has not closed, its pull request has not
-- merged, and its latest run has ended as a push with nothing between the push and a `review_me`
-- verdict.
pub status-review_me_iff :
    (f : Facts) (run : RunFact)
    → f.latest_run ≡ some run
    → ((status f).0 ≡ State.review_me) ↔ (
        (f.unlock.blocker_closed ≡ false)
        × (run.pr_merged ≡ false)
        × (run.alive ≡ false)
        × (run.outcome ≡ some Outcome.push)
        × IsClear run
        × (verdict_kind run.verdict ≡ some Kind.review_me))
unfolding status
status-review_me_iff f run e = ground (
  arith,
  launch_states f,
  outcome_review_me run f.unlock Outcome.push,
  outcome_review_me run f.unlock (unwrap_or run.outcome Outcome.failed),
  push_review_me run f.unlock,
)

-- A ticket is ready to launch exactly when no run of it says anything, its blocker has not closed and
-- its pull request has not merged, no launch of it was cancelled or is authorised, its base carries
-- no conflict, and its blockers let it start.
pub status-ready_iff :
    (f : Facts)
    → ((status f).0 ≡ State.ready) ↔ (
        (is_silent f.latest_run ≡ true)
        × ((is_some f.latest_run && f.unlock.blocker_closed) ≡ false)
        × (run_merged f.latest_run ≡ false)
        × (f.cancelled_member ≡ false)
        × (f.conflicted_base ≡ "")
        × (f.unlock.unlocked ≡ true)
        × (f.authorised ≡ false))
unfolding status status_from_run status_of_launch
status-ready_iff f = elim (Option-cases f.latest_run) [
  | inl e ↦ ground (arith, ==_iff f.conflicted_base "")
  | inr (run, e) ↦ elim (Option-cases run.outcome) [
    | inl n ↦ ground (arith, ==_iff f.conflicted_base "")
    | inr (o, k) ↦ ground (arith, ==_iff f.conflicted_base "", outcome_states run f.unlock o)
  ]
]

-- The state of a ticket with a run is `running` exactly when the run is alive, its blocker has not
-- closed and its pull request has not merged.
pub status-running_iff :
    (f : Facts) (run : RunFact)
    → f.latest_run ≡ some run
    → ((status f).0 ≡ State.running)
      ↔ ((run.alive ≡ true) × (f.unlock.blocker_closed ≡ false) × (run.pr_merged ≡ false))
unfolding status
status-running_iff f run e = elim (Option-cases run.outcome) [
  | inl n ↦ ground (arith, launch_states f)
  | inr (o, k) ↦ ground (arith, launch_states f, outcome_states run f.unlock o)
]
