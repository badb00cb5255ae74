-- ===== src/Plan/Examples/Tickets.antt =====
-- Blockers, statuses, launches and drafts.
use command_center.Prelude.{
  ◌≡◌, refl, ◌↔◌, ◌⊎◌, true, false, none, some, List, [], ◌∷◌, All, nat_eq, string_eq, lookup,
}
use command_center.Plan.Outcome.{Outcome}
use command_center.Plan.Verdict.{Kind}
use command_center.Plan.Ticket.{
  Ticket, PrStates, merged, closed, pr_of, unlocked, prospective_base, same_repo_blockers,
  default_base_branch,
}
use command_center.Plan.Ticket.Blockers.{
  all_tracked, Cleared, unlocked_iff, unlocked-base, unlocked-closed_iff,
}
use command_center.Plan.State.{State}
use command_center.Plan.Status.{Facts, status}
use command_center.Plan.Status.Cases.{IsClear, verdict_kind, status-review_me_iff}
use command_center.Plan.Launch.{LaunchCandidate}
use command_center.Plan.Draft.{draft_gate}
use command_center.Plan.Draft.Gate.{draft_gate_iff}
use command_center.Plan.Examples.Data.{
  base, top, tracked, base_opened, pushed_run, pushed_facts, waiting_candidate,
}

unlocked_iff_example : ((unlocked top tracked base_opened true).unlocked ≡ true) ↔ (
    (all_tracked top tracked ≡ true)
    × Cleared base_opened (same_repo_blockers "o/app" tracked ("t/1" ∷ [])))
unlocked_iff_example = unlocked_iff top tracked base_opened true

unlocked-base_example :
    ((unlocked top tracked base_opened true).base_branch ≡ prospective_base top tracked true)
    ⊎ ((b : Ticket) × (same_repo_blockers "o/app" tracked ("t/1" ∷ []) ≡ b ∷ [])
        × (pr_of base_opened b.branch ≡ merged)
        × ((unlocked top tracked base_opened true).base_branch ≡ default_base_branch))
unfolding unlocked lookup pr_of
unlocked-base_example = unlocked-base top tracked base_opened true refl

abbrev base_closed : PrStates
base_closed = ("cc-1-base", closed) ∷ []

unlocked-closed_iff_example : ((unlocked top tracked base_closed true).blocker_closed ≡ true) ↔ (
    (all_tracked top tracked ≡ true)
    × ((b : Ticket) × (same_repo_blockers "o/app" tracked ("t/1" ∷ []) ≡ b ∷ [])
        × (pr_of base_closed b.branch ≡ closed)
        × ((unlocked top tracked base_closed true).unlocked ≡ false)
        × ((unlocked top tracked base_closed true).blocking ≡ b.url ∷ [])))
unlocked-closed_iff_example = unlocked-closed_iff top tracked base_closed true

status-review_me_iff_example : ((status pushed_facts).0 ≡ State.review_me) ↔ (
    (pushed_facts.unlock.blocker_closed ≡ false)
    × (pushed_run.pr_merged ≡ false)
    × (pushed_run.alive ≡ false)
    × (pushed_run.outcome ≡ some Outcome.push)
    × IsClear pushed_run
    × (verdict_kind pushed_run.verdict ≡ some Kind.review_me))
status-review_me_iff_example = status-review_me_iff pushed_facts pushed_run refl

abbrev unlaunched_facts : Facts
unlaunched_facts = record pushed_facts { latest_run = none; authorised = false }

abbrev three : List LaunchCandidate
three = waiting_candidate "t/1" ∷ waiting_candidate "t/2" ∷ waiting_candidate "t/3" ∷ []

draft_gate_iff_example :
    ((draft_gate (base ∷ []) base_opened true).0 ≡ false)
    ↔ (All (λ (g : Ticket). pr_of base_opened g.branch ≡ merged) (base ∷ []) × (true ≡ true))
draft_gate_iff_example = draft_gate_iff (base ∷ []) base_opened true
