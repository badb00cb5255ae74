-- ===== src/Plan/Draft/Gate.antt =====
-- internal/plan/draftgate.go: when a pull request leaves its draft state.
use command_center.Prelude.{
  ◌≡◌, refl, ◌↔◌, Bool, true, false, ◌&&◌, List, [], ◌∷◌, arith, is_empty, All, nat_eq, string_eq,
}
use command_center.Plan.Ticket.{merged, Ticket, PrStates, pr_of}
use command_center.Plan.Draft.{sort_gating, draft_gate}

sort_gating-merged :
    (prs : PrStates) (gs : List Ticket)
    → ((is_empty (sort_gating prs gs).0 && is_empty (sort_gating prs gs).1) ≡ true)
      ↔ All (λ (g : Ticket). pr_of prs g.branch ≡ merged) gs
unfolding sort_gating
sort_gating-merged prs [] = (λ e. tt, λ h. refl)
sort_gating-merged prs (g ∷ gs) = (
  λ e. (ground arith, (sort_gating-merged prs gs).0 (ground arith)),
  λ (h, k). ground (arith, (sort_gating-merged prs gs).1 k),
)

-- A pull request leaves its draft state exactly when each gating blocker has merged and its own checks
-- are green.
pub draft_gate_iff :
    (gating : List Ticket) (prs : PrStates) (verdict_green : Bool)
    → ((draft_gate gating prs verdict_green).0 ≡ false)
      ↔ (All (λ (g : Ticket). pr_of prs g.branch ≡ merged) gating × (verdict_green ≡ true))
unfolding draft_gate
draft_gate_iff gating prs verdict_green =
    let sorted = sort_gating-merged prs gating in
    (λ e. (sorted.0 (ground arith), ground arith), λ (h, k). ground (arith, sorted.1 h))
