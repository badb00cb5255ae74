-- ===== src/Plan/Stack/Unlocks.antt =====
-- internal/plan/dependents.go, `Unlocks`: what each blocker unlocks.
use command_center.Prelude.{
  ◌≡◌, ap, ◌∙◌, inl, inr, Bool, true, ◌&&◌, ◌||◌, List, [], ◌∷◌, ◌++◌, arith, if◌then◌else◌,
  Bool-cases, any, ◌==◌, string_eq, ==_iff, contains, Map, insert, lookup, get_or, get_or-insert,
  subst,
}
use command_center.Plan.Ids.{TicketUrl}
use command_center.Plan.Ticket.{Ticket}
use command_center.Plan.Stack.{add_unlocks, unlocks_loop, unlocks}

abbrev lists : Map TicketUrl (List TicketUrl) → TicketUrl → TicketUrl → Bool
lists out blocker u = contains (get_or blocker [] out) u

contains-add :
    (xs : List TicketUrl) (url u : TicketUrl)
    → contains (xs ++ url ∷ []) u ≡ (contains xs u || (url == u))
contains-add [] url u = ground arith
contains-add (x ∷ xs) url u = ground (arith, contains-add xs url u)

already :
    (url blocker : TicketUrl) (out : Map TicketUrl (List TicketUrl)) (b u : TicketUrl)
    → lists out blocker url ≡ true
    → lists out b u ≡ (lists out b u || ((url == u) && (blocker == b)))
already url blocker out b u y = elim (Bool-cases (url == u)) [
  | inr z ↦ rw z (ground arith)
  | inl k ↦ elim (Bool-cases (blocker == b)) [
    | inr z ↦ rw z (ground arith)
    | inl j ↦
        let there : lists out b u ≡ true =
          subst (λ w. lists out w u ≡ true) ((==_iff blocker b).0 j)
            (subst (λ w. lists out blocker w ≡ true) ((==_iff url u).0 k) y) in
        ground (arith, there)
  ]
]

added :
    (url blocker : TicketUrl) (out : Map TicketUrl (List TicketUrl)) (b u : TicketUrl)
    → lists (insert blocker (get_or blocker [] out ++ url ∷ []) out) b u
      ≡ (lists out b u || ((url == u) && (blocker == b)))
added url blocker out b u =
    ap (λ xs. contains xs u) (get_or-insert blocker b [] (get_or blocker [] out ++ url ∷ []) out)
    ∙ elim (Bool-cases (blocker == b)) [
      | inr z ↦ rw z (ground arith)
      | inl j ↦ rw j (
          contains-add (get_or blocker [] out) url u
          ∙ subst
              (λ w. (lists out blocker u || (url == u)) ≡ (lists out w u || ((url == u) && true)))
              ((==_iff blocker b).0 j) (ground arith))
    ]

abbrev add_one :
    TicketUrl → TicketUrl → Map TicketUrl (List TicketUrl) → Map TicketUrl (List TicketUrl)
add_one url blocker out =
    if contains (get_or blocker [] out) url
    then out
    else insert blocker (get_or blocker [] out ++ url ∷ []) out

add_one-lists :
    (url blocker : TicketUrl) (out : Map TicketUrl (List TicketUrl)) (b u : TicketUrl)
    → lists (add_one url blocker out) b u ≡ (lists out b u || ((url == u) && (blocker == b)))
add_one-lists url blocker out b u = elim (Bool-cases (contains (get_or blocker [] out) url)) [
  | inl y ↦ rw y (already url blocker out b u y)
  | inr z ↦ rw z (added url blocker out b u)
]

add_unlocks-lists :
    (url : TicketUrl) (bs : List TicketUrl) (out : Map TicketUrl (List TicketUrl)) (b u : TicketUrl)
    → lists (add_unlocks url bs out) b u ≡ (lists out b u || ((url == u) && contains bs b))
unfolding add_unlocks
add_unlocks-lists url [] out b u = ground arith
add_unlocks-lists url (x ∷ bs) out b u =
    ground (arith, add_unlocks-lists url bs (add_one url x out) b u, add_one-lists url x out b u)

unlocks_loop-lists :
    (ts : List Ticket) (out : Map TicketUrl (List TicketUrl)) (b u : TicketUrl)
    → lists (unlocks_loop ts out) b u
      ≡ (lists out b u || any (λ (t : Ticket). (t.url == u) && contains t.blocked_by b) ts)
unfolding unlocks_loop
unlocks_loop-lists [] out b u = ground arith
unlocks_loop-lists (t ∷ ts) out b u = ground (
  arith,
  unlocks_loop-lists ts (add_unlocks t.url t.blocked_by out) b u,
  add_unlocks-lists t.url t.blocked_by out b u,
)

-- A ticket is listed below a blocker exactly when a ticket with its URL names the blocker.
pub unlocks-lists :
    (ts : List Ticket) (b u : TicketUrl)
    → contains (get_or b [] (unlocks ts)) u
      ≡ any (λ (t : Ticket). (t.url == u) && contains t.blocked_by b) ts
unfolding unlocks get_or lookup
unlocks-lists ts b u = unlocks_loop-lists ts [] b u
