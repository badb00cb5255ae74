-- ===== src/Plan/Peers.antt =====
-- internal/plan/derive.go, `conflictingPeerHold`: of open pull requests that conflict, the one of the
-- lower ref goes first.
pub mod Greedy
use command_center.Prelude.{
  ℕ, zero, suc, ◌+◌, ◌-◌, ◌*◌, String, is_blank, cut_prefix, cut, refl, Bool, false, not, ◌&&◌,
  ◌||◌, Option, none, some, List, [], ◌∷◌, ◌++◌, arith, ltb, leb, if◌then◌else◌, select, find_first,
  ◌==◌, nat_eq, string_eq, Map, insert, get_or, has,
}
use command_center.Prelude.Sorting.{string_lt, sort_by}
use Prim.Native.Char.{code}
use Prim.Native.Nat.{◌^◌}
use command_center.Plan.Ids.{TicketUrl}
use command_center.Plan.Ticket.{
  Ticket, Tickets, PrStates, PrState, opened, pr_state_eq, pr_of, ref, default_base_branch,
  prospective_base,
}
use command_center.Plan.Observation.{Observation, Rules, conflicts_with_peer_at}

-- The number that the digits make behind `n`; `none` where there is another character.
unfoldable pub digits_from : ℕ → String → Option ℕ
digits_from n String.[] = some n
digits_from n (String.◌∷◌ c s) =
    let rest = digits_from (n * 10 + (code c - b'0')) s in
    if leb b'0' (code c) && leb (code c) b'9' then rest else none

abbrev drop_plus : String → String
drop_plus s = elim (cut_prefix s "+") [ some rest ↦ rest | none ↦ s ]

-- `strconv.Atoi`, on a text without a minus sign.
unfoldable pub atoi : String → Option ℕ
unfolding digits_from
atoi s =
    let text = drop_plus s in
    if is_blank text then none else elim (digits_from 0 text) [
      | some n ↦ if ltb n (2 ^ 63) then some n else none
      | none ↦ none
    ]

unfoldable pub branch_number : String → Option ℕ
unfolding atoi
branch_number branch = elim (cut_prefix branch "cc-") [
  | none ↦ none
  | some rest ↦ elim (cut rest "-") [ some (number, _) ↦ atoi number | none ↦ atoi rest ]
]

-- The test `compareByRef(a, b) < 0`.
unfoldable pub before_by_ref : String → String → Bool
unfolding branch_number
before_by_ref a b = elim (branch_number a) [
  | none ↦ string_lt a b
  | some n ↦ elim (branch_number b) [ some m ↦ ltb n m | none ↦ string_lt a b ]
]

-- An open pull request that is not stacked. The ticket is read again from the map.
unfoldable pub is_candidate : Rules → Tickets → PrStates → Ticket → Bool
is_candidate r by_url prs t =
    pr_of prs t.branch == opened
    && prospective_base (get_or t.url t by_url) by_url (get_or t.repo false r.stacking)
      == default_base_branch

-- The earlier candidate that holds `t` up.
unfoldable pub holds : Map TicketUrl String → Observation → Ticket → Ticket → Bool
holds held o t peer = not (has peer.url held) && conflicts_with_peer_at o (ref t) (ref peer)

-- The loop over the candidates, behind `earlier` ones.
unfoldable pub hold_loop :
    Observation → List Ticket → Map TicketUrl String → List Ticket → Map TicketUrl String
unfolding holds
hold_loop o earlier held [] = held
hold_loop o earlier held (t ∷ ts) = elim (find_first (holds held o t) earlier) [
  | none ↦ hold_loop o (earlier ++ t ∷ []) held ts
  | some peer ↦ hold_loop o (earlier ++ t ∷ []) (insert t.url peer.branch held) ts
]

unfoldable pub peer_candidates : Rules → List Ticket → Tickets → PrStates → List Ticket
unfolding is_candidate before_by_ref
peer_candidates r tickets by_url prs =
    sort_by (λ (a b : Ticket). before_by_ref a.branch b.branch)
      (select (is_candidate r by_url prs) tickets)

unfoldable pub conflicting_peer_hold :
    Rules → List Ticket → Tickets → PrStates → Observation → Map TicketUrl String
unfolding hold_loop peer_candidates
conflicting_peer_hold r tickets by_url prs o =
    hold_loop o [] [] (peer_candidates r tickets by_url prs)
