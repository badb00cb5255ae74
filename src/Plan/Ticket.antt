-- ===== src/Plan/Ticket.antt =====
-- internal/plan/plan.go, the first half, with preview.go's ProspectiveBase: tickets, and whether the
-- blockers of a ticket let it start.
pub mod Blockers
pub mod Counts
use command_center.Prelude.{
  ℕ, zero, suc, String, ◌⧺◌, ◌≡◌, refl, ◌↔◌, ◌⊎◌, inl, inr, Bool, true, false, not, ◌||◌, Option,
  none, some, List, [], ◌∷◌, ◌++◌, arith, nat_beq, if◌then◌else◌, Eq, ◌==◌, ◌!=◌, nat_eq, string_eq,
  Map, lookup, get_or, has,
}
use command_center.Plan.Ids.{TicketUrl, Reason, BranchRef, join_urls}

-- `opened` is Go's `Open`.
pub data PrState : Type 0 where
  absent opened merged closed : PrState

abbrev pr_rank : PrState → ℕ
pr_rank absent = 0
pr_rank opened = 1
pr_rank merged = 2
pr_rank closed = 3

abbrev pub pr_state_beq : PrState → PrState → Bool
pr_state_beq a b = nat_beq (pr_rank a) (pr_rank b)

pub pr_state_beq_iff : (a b : PrState) → (pr_state_beq a b ≡ true) ↔ (a ≡ b)
pr_state_beq_iff a b = ground arith

instance abbrev pub pr_state_eq : Eq PrState
pr_state_eq = record { same = pr_state_beq; same_iff = pr_state_beq_iff }

unfoldable pub pr_state_string : PrState → String
pr_state_string opened = "open"
pr_state_string merged = "merged"
pr_state_string closed = "closed"
pr_state_string absent = "absent"

pub record AgentChoice : Type 0 where
  pub model : String
  pub effort : Option String

abbrev pub zero_choice : AgentChoice
zero_choice = record { model = ""; effort = none }

pub record Ticket : Type 0 where
  pub url : TicketUrl
  pub repo : String
  pub branch : String
  pub blocked_by : List TicketUrl
  pub worked_example_branch : String
  pub launch_context : String
  pub choice : AgentChoice

abbrev pub ref : Ticket → BranchRef
ref t = record { repo = t.repo; branch = t.branch }

pub record Unlock : Type 0 where
  pub unlocked : Bool
  pub base_branch : String
  pub reason : Reason
  pub blocking : List TicketUrl
  pub blocker_closed : Bool

abbrev pub default_base_branch : String
default_base_branch = "main"

abbrev pub Tickets : Type 0
Tickets = Map TicketUrl Ticket

abbrev pub PrStates : Type 0
PrStates = Map String PrState

-- Go's `prs[branch]`: the zero value is `absent`.
unfoldable pub pr_of : PrStates → String → PrState
unfolding get_or
pr_of prs branch = get_or branch absent prs

abbrev pub unlock_on : String → Reason → Unlock
unlock_on base reason = record {
  unlocked = true;
  base_branch = base;
  reason = reason;
  blocking = [];
  blocker_closed = false;
}

abbrev pub hold : Reason → List TicketUrl → Bool → Unlock
hold reason blocking blocker_closed = record {
  unlocked = false;
  base_branch = "";
  reason = reason;
  blocking = blocking;
  blocker_closed = blocker_closed;
}

unfoldable pub unlocked_on_blocker : Ticket → PrStates → Bool → Unlock
unlocked_on_blocker blocker prs stacking = elim (pr_of prs blocker.branch) [
  | opened ↦
      unlock_on (if stacking then blocker.branch else default_base_branch)
        "every blocker has a pull request"
  | merged ↦ unlock_on default_base_branch "every blocker has a pull request"
  | closed ↦
      hold
        ("blocked by " ⧺ blocker.url ⧺ ": " ⧺ blocker.branch
          ⧺ "'s pull request was closed without merging")
        (blocker.url ∷ []) true
  | absent ↦
      hold
        ("blocked by " ⧺ blocker.url ⧺ ": " ⧺ blocker.branch
          ⧺ " has no open or merged pull request")
        (blocker.url ∷ []) false
]

-- The URLs of the blockers that are not merged.
unfoldable pub unresolved : List Ticket → PrStates → List TicketUrl
unresolved [] prs = []
unresolved (b ∷ bs) prs =
    let rest = unresolved bs prs in if pr_of prs b.branch != merged then b.url ∷ rest else rest

unfoldable pub unlocked_on_blockers : List Ticket → PrStates → Unlock
unfolding unresolved
unlocked_on_blockers blockers prs = elim (unresolved blockers prs) [
  | [] ↦ unlock_on default_base_branch "every blocker has merged"
  | u ∷ us ↦ hold ("blocked by " ⧺ join_urls (u ∷ us) ⧺ ", not yet merged") (u ∷ us) false
]

-- The loop over `BlockedBy`: the first blocker that is not tracked ends it, on the left.
unfoldable pub gather_loop :
    String → Tickets → List TicketUrl → List Ticket → TicketUrl ⊎ List Ticket
gather_loop repo by_url [] same_repo = inr same_repo
gather_loop repo by_url (u ∷ us) same_repo = elim (lookup u by_url) [
  | none ↦ inl u
  | some b ↦ gather_loop repo by_url us (if b.repo == repo then same_repo ++ b ∷ [] else same_repo)
]

-- The `switch` on the number of blockers of the same repository.
unfoldable pub decide_unlock : PrStates → Bool → TicketUrl ⊎ List Ticket → Unlock
unfolding unlocked_on_blocker unlocked_on_blockers
decide_unlock prs stacking (inl u) =
    hold ("blocked by " ⧺ u ⧺ ", which is not a tracked ticket") [] false
decide_unlock prs stacking (inr []) = unlock_on default_base_branch "no blockers"
decide_unlock prs stacking (inr (b ∷ [])) = unlocked_on_blocker b prs stacking
decide_unlock prs stacking (inr (b ∷ c ∷ r)) = unlocked_on_blockers (b ∷ c ∷ r) prs

unfoldable pub unlocked : Ticket → Tickets → PrStates → Bool → Unlock
unfolding gather_loop decide_unlock
unlocked t by_url prs stacking =
    decide_unlock prs stacking (gather_loop t.repo by_url t.blocked_by [])

-- The loop of `ProspectiveBase`, which passes over blockers that are not tracked.
unfoldable pub same_repo_blockers : String → Tickets → List TicketUrl → List Ticket
same_repo_blockers repo by_url [] = []
same_repo_blockers repo by_url (u ∷ us) =
    let rest = same_repo_blockers repo by_url us in
    elim (lookup u by_url) [ none ↦ rest | some b ↦ if b.repo == repo then b ∷ rest else rest ]

unfoldable pub base_on : Bool → List Ticket → String
base_on stacking (b ∷ []) = if stacking then b.branch else default_base_branch
base_on stacking _ = default_base_branch

unfoldable pub prospective_base : Ticket → Tickets → Bool → String
unfolding same_repo_blockers base_on
prospective_base t by_url stacking =
    base_on stacking (same_repo_blockers t.repo by_url t.blocked_by)
