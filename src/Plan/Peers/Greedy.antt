-- ===== src/Plan/Peers/Greedy.antt =====
-- internal/plan/derive.go, `conflictingPeerHold`: the choice among the candidates.
use command_center.Prelude.{String, ◌≡◌, Option, none, some, List, nat_eq, string_eq, Map, lookup}
use command_center.Plan.Ids.{TicketUrl, branch_ref_eq}
use command_center.Plan.Ticket.{Ticket}
use command_center.Plan.Ticket.Counts.{count}
use command_center.Plan.Observation.{Observation}

-- The branch of the peer that a search has found.
abbrev pub held_by : Option Ticket → Option String
held_by none = none
held_by (some peer) = some peer.branch

-- Only earlier tickets are held.
abbrev Known : List Ticket → Map TicketUrl String → Type 0
Known earlier held = (u : TicketUrl) → count u earlier ≡ 0 → lookup u held ≡ none
