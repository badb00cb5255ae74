-- ===== src/Plan/Preview/Promise.antt =====
-- internal/plan/preview.go: a preview and the launch that follows it.
use command_center.Prelude.{ℕ, String, nat_eq, string_eq, insert}
use command_center.Plan.Ids.{TicketUrl, branch_ref_eq}
use command_center.Plan.Workflow.{Workflow}
use command_center.Plan.Ticket.{Ticket}
use command_center.Plan.Snapshot.{Snapshot}
use command_center.Plan.Input
use command_center.Plan.Input.{LaunchMembership, zero_membership}

-- The launch of a ticket with a prompt and a context.
abbrev pub launch_of : ℕ → String → String → LaunchMembership
launch_of id prompt_hash context = record zero_membership {
  launch_id = id;
  prompt_hash = prompt_hash;
  context = context;
}

abbrev pub launched_with :
    {F : Type 0} → TicketUrl → LaunchMembership → Input.Input F → Input.Input F
launched_with url m i = record i { memberships = insert url m i.memberships }
