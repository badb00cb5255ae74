-- ===== src/Plan/Stack.antt =====
-- internal/plan/stack.go, dependents.go and warning.go: the shape of the dependency graph.
pub mod Depth
pub mod Unlocks
use command_center.Prelude.{
  ℕ, zero, suc, String, refl, Bool, false, ◌||◌, Option, none, some, List, [], ◌∷◌, ◌++◌, arith,
  if◌then◌else◌, length, ◌==◌, nat_eq, string_eq, contains, Map, insert, get_or,
}
use command_center.Plan.Ids.{TicketUrl}
use command_center.Plan.Ticket.{Ticket, default_base_branch}

-- The loop of `StackDepth`; `none` is a lack of fuel.
unfoldable pub depth_loop : ℕ → Map String String → List String → String → ℕ → Option ℕ
depth_loop zero bases visited branch depth = none
depth_loop (suc f) bases visited branch depth =
    let base = get_or branch "" bases in
    let deeper = depth_loop f bases (base ∷ visited) base (suc depth) in
    if base == "" || base == default_base_branch || contains visited base
    then some depth
    else deeper

-- Each round visits a further base; the fuel is one round more than there are bases.
unfoldable pub stack_depth : String → Map String String → Option ℕ
unfolding depth_loop
stack_depth branch bases = depth_loop (suc (length bases)) bases (branch ∷ []) branch 0

unfoldable pub add_unlocks :
    TicketUrl → List TicketUrl → Map TicketUrl (List TicketUrl) → Map TicketUrl (List TicketUrl)
add_unlocks url [] out = out
add_unlocks url (blocker ∷ bs) out =
    let listed = get_or blocker [] out in
    add_unlocks url bs
      (if contains listed url then out else insert blocker (listed ++ url ∷ []) out)

unfoldable pub unlocks_loop :
    List Ticket → Map TicketUrl (List TicketUrl) → Map TicketUrl (List TicketUrl)
unfolding add_unlocks
unlocks_loop [] out = out
unlocks_loop (t ∷ ts) out = unlocks_loop ts (add_unlocks t.url t.blocked_by out)

-- The tickets that each blocker blocks.
unfoldable pub unlocks : List Ticket → Map TicketUrl (List TicketUrl)
unfolding unlocks_loop
unlocks tickets = unlocks_loop tickets []

abbrev pub ready_to_merge_label : String
ready_to_merge_label = "ready-to-merge"

unfoldable pub stacked_ready_to_merge_warning : String → List String → Bool
stacked_ready_to_merge_warning base_ref labels =
    if base_ref == "" || base_ref == default_base_branch
    then false
    else contains labels ready_to_merge_label
