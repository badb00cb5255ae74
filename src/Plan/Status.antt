-- ===== src/Plan/Status.antt =====
-- internal/plan/plan.go, the second half: the state of a ticket.
pub mod Cases
use command_center.Prelude.{
  ℕ, zero, suc, String, ◌⧺◌, decimal, trim_space, cut, refl, Bool, false, not, ◌&&◌, ◌||◌, Option,
  none, some, List, [], ◌∷◌, arith, ltb, if◌then◌else◌, is_some, unwrap_or, length, is_empty, there,
  ◌!=◌, nat_eq, string_eq,
}
use command_center.Plan.Ids.{TicketUrl, Reason, join_urls}
use command_center.Plan.Outcome.{Outcome}
use command_center.Plan.Workflow.{Step, Next, NextKind, next_run, next_done, next_park}
use command_center.Plan.Verdict.{Kind, Result}
use command_center.Plan.Ticket.{Unlock}
use command_center.Plan.State.{State}

pub record RunFact : Type 0 where
  pub alive : Bool
  pub outcome : Option Outcome
  pub log_path : String
  pub push_refused : Bool
  pub push_refused_path : String
  pub push_failed : Bool
  pub pr_open : Bool
  pub pr_merged : Bool
  pub pr_closed_unmerged : Bool
  pub verdict : Option Result
  pub refresh_refused : Bool
  pub refresh_refused_reason : Reason
  pub mid_merge : Bool
  pub conflicts_with_main : Bool
  pub conflicts_with_main_reason : Reason
  pub conflicting_peer : String
  pub verification_failed : Bool
  pub verification_failed_reason : Reason
  pub question : String
  pub next : Option Next

pub record Facts : Type 0 where
  pub unlock : Unlock
  pub authorised : Bool
  pub latest_run : Option RunFact
  pub cancelled_member : Bool
  pub conflicted_base : String

unfoldable pub first_line : String → Reason
first_line s =
    let trimmed = trim_space s in
    elim (cut trimmed "\n") [ some (line, _) ↦ trim_space line | none ↦ trim_space trimmed ]

unfoldable pub state_of_verdict : Result → State
state_of_verdict r = elim r.kind [
  | Kind.base_moved ↦ State.base_moved
  | Kind.waiting_on_producer_deploy ↦ State.waiting_on_producer_deploy
  | Kind.review_me ↦ State.review_me
  | Kind.needs_you ↦ State.needs_you
  | Kind.ci_failed ↦ State.ci_failed
  | Kind.checking ↦ State.checking
  | Kind.kind_unknown ↦ State.checking
]

unfoldable pub conflicted_base_reason : String → Reason
conflicted_base_reason base =
    base
    ⧺ " already carries an unresolved merge conflict: a branch cut from it inherits the conflict"

unfoldable pub conflicting_peer_reason : String → Reason
conflicting_peer_reason peer =
    peer ⧺ " is a lower-ref open peer this branch conflicts with: only one of a conflicting pair "
    ⧺ "proceeds at a time"

unfoldable pub waiting_on_blockers : List TicketUrl → Reason
waiting_on_blockers (u ∷ []) = "waiting on " ⧺ u ⧺ "'s PR"
waiting_on_blockers us = "waiting on " ⧺ decimal (length us) ⧺ " blockers' PRs: " ⧺ join_urls us

abbrev pub settled_verdict : Option Result → Option Result
settled_verdict none = none
settled_verdict (some r) = elim r.kind [ Kind.checking ↦ none | _ ↦ some r ]

-- The last three cases of `statusFromPush`.
abbrev pub held_push : Unlock → State × Reason
held_push unlock =
    if not unlock.unlocked && not (is_empty unlock.blocking)
    then (State.push_pending, "push held: waiting on " ⧺ join_urls unlock.blocking)
    else if not unlock.unlocked
    then (State.push_pending, "push held: " ⧺ unlock.reason)
    else (State.push_pending, "agent finished with commits, waiting to push")

-- The cases of an open pull request and of none.
abbrev pub open_push : RunFact → Unlock → State × Reason
open_push run unlock =
    if run.pr_open
    then elim run.verdict [
      | some r ↦ (State.checking, r.reason)
      | none ↦ (State.checking, "pull request open, no verdict yet")
    ]
    else held_push unlock

unfoldable pub status_from_push : RunFact → Unlock → State × Reason
unfolding state_of_verdict
status_from_push run unlock =
    if run.pr_closed_unmerged
    then (State.pr_closed_unmerged, "pull request closed without merging")
    else if run.mid_merge
    then (
      State.refresh_conflicted,
      "refresh's merge conflicted: the worktree is left mid-merge, resolve it there or abort",
    )
    else if run.conflicts_with_main
    then (State.conflicts_with_main, run.conflicts_with_main_reason)
    else if run.conflicting_peer != ""
    then (State.blocked, conflicting_peer_reason run.conflicting_peer)
    else if run.verification_failed
    then (State.verification_failed, run.verification_failed_reason)
    else if run.push_refused
    then (State.needs_you, "push refused: " ⧺ run.push_refused_path ⧺ " touches a protected path")
    else if run.push_failed
    then (State.push_failed, "push or pull request creation failed")
    else if run.refresh_refused
    then (State.needs_you, run.refresh_refused_reason)
    else elim (settled_verdict run.verdict) [
      | some r ↦ (state_of_verdict r, r.reason)
      | none ↦ open_push run unlock
    ]

abbrev pub next_step_reason : Step → ℕ → Reason
next_step_reason s round =
    if ltb 0 round
    then "next step: " ⧺ s.name ⧺ " (fix round " ⧺ decimal round ⧺ ")"
    else "next step: " ⧺ s.name

-- `none` is Go's false as the third result.
unfoldable pub status_from_next : Option Next → Option (State × Reason)
status_from_next none = none
status_from_next (some n) = elim n.kind [
  | next_park ↦ some (State.failed, n.reason)
  | next_run ↦ elim n.step [
    | some s ↦ some (State.queued, next_step_reason s n.round)
    | none ↦ none
  ]
  | next_done ↦ none
]

-- The branch that `OutcomeFailed` falls through to.
abbrev pub no_commits : RunFact → State × Reason
no_commits run = (State.failed, "no commits after this run's baseline; log at " ⧺ run.log_path)

unfoldable pub status_of_outcome : RunFact → Unlock → Outcome → State × Reason
unfolding status_from_next
status_of_outcome run unlock Outcome.push = status_from_push run unlock
status_of_outcome run unlock Outcome.asked = (State.awaiting_input, first_line run.question)
status_of_outcome run unlock Outcome.continued = (State.queued, "resuming with your message")
status_of_outcome run unlock Outcome.passed =
    unwrap_or (status_from_next run.next) (State.queued, "next step pending")
status_of_outcome run unlock Outcome.cut_failed =
    (State.cut_failed, "tp new failed to cut a worktree")
status_of_outcome run unlock Outcome.failed = unwrap_or (status_from_next run.next) (no_commits run)

-- `none` is Go's false as the third result.
unfoldable pub status_from_run : Option RunFact → Unlock → Option (State × Reason)
status_from_run none unlock = none
status_from_run (some run) unlock =
    if run.alive
    then some (State.running, "agent running")
    else elim run.outcome [ none ↦ none | some o ↦ some (status_of_outcome run unlock o) ]

-- The `switch` of `Status`, for a ticket whose run says nothing.
unfoldable pub status_of_launch : Facts → State × Reason
status_of_launch f =
    if f.cancelled_member
    then (State.cancelled, "authorised then cancelled before launching")
    else if f.conflicted_base != ""
    then (State.blocked, conflicted_base_reason f.conflicted_base)
    else if f.unlock.unlocked && f.authorised
    then (State.queued, "waiting for a slot")
    else if f.unlock.unlocked
    then (State.ready, f.unlock.reason)
    else if f.authorised
    then (State.queued, waiting_on_blockers f.unlock.blocking)
    else (State.blocked, f.unlock.reason)

abbrev pub run_merged : Option RunFact → Bool
run_merged none = false
run_merged (some run) = run.pr_merged

unfoldable pub status : Facts → State × Reason
unfolding status_from_run
status f =
    if is_some f.latest_run && f.unlock.blocker_closed
    then (State.base_gone, f.unlock.reason)
    else if run_merged f.latest_run
    then (State.pr_merged, "pull request merged")
    else unwrap_or (status_from_run f.latest_run f.unlock) (status_of_launch f)
