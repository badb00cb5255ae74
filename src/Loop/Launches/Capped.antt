-- ===== src/Loop/Launches/Capped.antt =====
-- internal/loop/loop.go, `launchEligible`: a tick starts no more runs than there are slots.
use command_center.Prelude.{string_eq}
use command_center.Plan.Ids.{branch_ref_eq}
use command_center.Plan.Workflow.{Workflow}
use command_center.Plan.Ticket.{Ticket}
use command_center.Plan.Snapshot.{Snapshot}
use command_center.Loop.Starts.{Starts}
