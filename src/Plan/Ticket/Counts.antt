-- ===== src/Plan/Ticket/Counts.antt =====
-- internal/plan/plan.go, `Ticket`: how often a URL occurs among tickets.
use command_center.Prelude.{
  ℕ, ◌+◌, ◌≤◌, ◌≡◌, ap, List, [], ◌∷◌, ◌++◌, arith, length, select, In, here, there, ◌==◌, nat_eq,
  string_eq, ==_iff,
}
use command_center.Plan.Ids.{TicketUrl}
use command_center.Plan.Ticket.{Ticket}

-- How many tickets of a list have the URL.
abbrev pub count : TicketUrl → List Ticket → ℕ
count u ts = length (select (λ (t : Ticket). t.url == u) ts)

pub count-append :
    (u : TicketUrl) (xs ys : List Ticket) → count u (xs ++ ys) ≡ count u xs + count u ys
count-append u [] ys = omega arith
count-append u (x ∷ xs) ys = ground (arith, count-append u xs ys)

pub In-count : (x : Ticket) (xs : List Ticket) → In x xs → 1 ≤ count x.url xs
In-count x [] i = elim i [ ]
In-count x (y ∷ ys) (here e) = ground (arith, ==_iff y.url x.url, ap (λ (t : Ticket). t.url) e)
In-count x (y ∷ ys) (there i) = ground (arith, In-count x ys i)
