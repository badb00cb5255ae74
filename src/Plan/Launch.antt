-- ===== src/Plan/Launch.antt =====
-- internal/plan/launch.go: which tickets are launched in a tick. A negative number of agents or of
-- free slots acts as 0 in the source, so natural numbers serve.
pub mod Slots
use command_center.Prelude.{
  ℕ, zero, suc, ◌-◌, String, refl, Bool, true, false, not, ◌&&◌, ◌||◌, List, [], ◌∷◌, ◌++◌, arith,
  leb, if◌then◌else◌, length, ◌==◌, nat_eq, string_eq,
}
use command_center.Plan.Ids.{TicketUrl}
use command_center.Plan.Ticket.{Unlock}
use command_center.Plan.Workflow.{Next}

pub record LaunchCandidate : Type 0 where
  pub url : TicketUrl
  pub unlock : Unlock
  pub authorised : Bool
  pub prompt_hash_matches : Bool
  pub has_run : Bool
  pub conflicted_base : String
  pub next : Next
  pub in_flight : Bool

unfoldable pub eligible : LaunchCandidate → Bool
eligible c =
    if c.in_flight
    then true
    else c.unlock.unlocked
      && c.authorised
      && c.prompt_hash_matches
      && not c.has_run
      && c.conflicted_base == ""

-- The test `c.InFlight == inFlight && c.eligible()`.
unfoldable pub picked : Bool → LaunchCandidate → Bool
picked in_flight c = (if in_flight then c.in_flight else not c.in_flight) && eligible c

-- The inner loop. It ends where the slots are full, and so does the outer loop then, since a further
-- round adds nothing to a full selection.
unfoldable pub select_round : ℕ → Bool → List TicketUrl → List LaunchCandidate → List TicketUrl
select_round free in_flight selected [] = selected
select_round free in_flight selected (c ∷ cs) =
    let more = if picked in_flight c then selected ++ c.url ∷ [] else selected in
    let rest = select_round free in_flight more cs in
    if leb free (length selected) then selected else rest

unfoldable pub launch_plan : List LaunchCandidate → ℕ → ℕ → Bool → List TicketUrl
unfolding select_round
launch_plan candidates currently_running max_agents spend_paused =
    let free = max_agents - currently_running in
    if spend_paused
    then []
    else if free == 0
    then []
    else select_round free false (select_round free true [] candidates) candidates
