-- ===== src/Plan/Draft.antt =====
-- internal/plan/draftgate.go: whether a pull request stays a draft.
pub mod Gate
use command_center.Prelude.{
  zero, suc, String, ◌⧺◌, decimal, refl, Bool, true, false, not, ◌||◌, none, some, List, [], ◌∷◌,
  arith, if◌then◌else◌, length, is_empty, ◌!=◌, nat_eq, string_eq, lookup, has,
}
use command_center.Plan.Ids.{TicketUrl, Reason, join_urls}
use command_center.Plan.Ticket.{
  PrState, absent, opened, merged, closed, Ticket, Tickets, PrStates, pr_of,
}

-- The loop of `GatingBlockers` over the blockers' URLs: the tracked ones of other repositories.
unfoldable pub gating_of : String → Tickets → List TicketUrl → List Ticket
gating_of repo by_url [] = []
gating_of repo by_url (u ∷ us) =
    let rest = gating_of repo by_url us in
    elim (lookup u by_url) [ none ↦ rest | some b ↦ if b.repo != repo then b ∷ rest else rest ]

unfoldable pub gating_blockers : Ticket → Tickets → List Ticket
unfolding gating_of
gating_blockers t by_url = gating_of t.repo by_url t.blocked_by

-- What the loop of `DraftGate` gathers: the closed blockers, and the open and absent ones.
unfoldable pub sort_gating : PrStates → List Ticket → List TicketUrl × List TicketUrl
sort_gating prs [] = ([], [])
sort_gating prs (g ∷ gs) =
    let (closed_ones, unresolved_ones) = sort_gating prs gs in
    elim (pr_of prs g.branch) [
      | merged ↦ (closed_ones, unresolved_ones)
      | closed ↦ (g.url ∷ closed_ones, unresolved_ones)
      | opened ↦ (closed_ones, g.url ∷ unresolved_ones)
      | absent ↦ (closed_ones, g.url ∷ unresolved_ones)
    ]

unfoldable pub unresolved_gate_reason : List TicketUrl → Reason
unresolved_gate_reason (u ∷ []) = "waiting on " ⧺ u
unresolved_gate_reason us = "waiting on " ⧺ decimal (length us) ⧺ " blockers: " ⧺ join_urls us

unfoldable pub closed_gate_reason : List TicketUrl → Reason
closed_gate_reason (u ∷ []) = "waiting on " ⧺ u ⧺ ": its pull request was closed without merging"
closed_gate_reason us =
    "waiting on "
    ⧺ decimal (length us)
    ⧺ " blockers whose pull requests closed without merging: "
    ⧺ join_urls us

abbrev pub gate_sorted : List TicketUrl × List TicketUrl → Bool → Bool × Reason
gate_sorted (closed_ones, unresolved_ones) verdict_green =
    if not (is_empty closed_ones)
    then (true, closed_gate_reason closed_ones)
    else if not (is_empty unresolved_ones)
    then (true, unresolved_gate_reason unresolved_ones)
    else if not verdict_green
    then (true, "waiting on its own checks")
    else (false, "every gating blocker has merged and its own checks are green")

-- Whether the pull request stays a draft, and why.
unfoldable pub draft_gate : List Ticket → PrStates → Bool → Bool × Reason
unfolding sort_gating
draft_gate gating prs verdict_green = gate_sorted (sort_gating prs gating) verdict_green
