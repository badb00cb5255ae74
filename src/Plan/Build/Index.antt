-- ===== src/Plan/Build/Index.antt =====
-- internal/plan/derive.go, `Derive`: the index of a derived snapshot.
use command_center.Prelude.{
  get_elem?-append, get_elem?-end, ℕ, ◌<◌, String, ◌≡◌, refl, ◌∙◌, inl, inr, Option, none, some,
  List, [], ◌∷◌, arith, if◌then◌else◌, Bool-cases, Option-cases, length, length-append, ◌==◌,
  nat_eq, string_eq, Map, lookup, insert, lookup-insert,
}
use command_center.Plan.Ids.{TicketUrl, branch_ref_eq}
use command_center.Plan.Ticket.{Ticket, Tickets, PrStates, ref}
use command_center.Plan.Observation.{Rules, Pr, pr_at}
use command_center.Plan.Spend.{Floats}
use command_center.Plan.Peers.{conflicting_peer_hold}
use command_center.Plan.Derive.{tickets_by_url, prs_by_branch}
use command_center.Plan.Snapshot.{Snapshot, entry}
use command_center.Plan.Build.{
  Derived, derive_ticket, add_derived, derive_loop, derive, empty_snapshot,
}
use command_center.Plan.Input
use command_center.Plan.Input.{Entry}

-- Every position of the index is one of an entry.
Indexed : Snapshot → Type 0
Indexed s = (u : TicketUrl) (n : ℕ) → lookup u s.by_url ≡ some n → n < length s.entries

add_derived-Indexed :
    (d : Derived) (pr : Pr) (s : Snapshot) → Indexed s → Indexed (add_derived d pr s)
unfolding add_derived Indexed
add_derived-Indexed d pr s good u n e = ground (
  arith,
  good u n,
  lookup-insert d.entry.ticket.url u (length s.entries) s.by_url,
  length-append s.entries (d.entry ∷ []),
)

add_derived-entry :
    (d : Derived) (pr : Pr) (s : Snapshot) (u : TicketUrl)
    → Indexed s
    → entry (add_derived d pr s) u ≡ (if d.entry.ticket.url == u then some d.entry else entry s u)
unfolding add_derived entry Indexed
add_derived-entry d pr s u good =
    let after_insert = lookup-insert d.entry.ticket.url u (length s.entries) s.by_url in
    elim (Bool-cases (d.entry.ticket.url == u)) [
      | inl y ↦ rw (entry, after_insert) (rw y (get_elem?-end s.entries d.entry))
      | inr z ↦ elim (Option-cases (lookup u s.by_url)) [
        | inl absent ↦ rw (entry, after_insert) (rw z (rw (entry, absent) refl))
        | inr (n, e) ↦
            rw (entry, after_insert)
              (rw z (rw (entry, e) (get_elem?-append s.entries (d.entry ∷ []) n (good u n e))))
      ]
    ]

module _ {F : Type 0} (hash : String → String) (r : Rules) (i : Input.Input F) where
  -- What is derived of the ticket that a map holds at a URL.
  abbrev pub entry_of : Tickets → PrStates → Map TicketUrl String → Option Ticket → Option Entry
  entry_of by_url prs peers none = none
  entry_of by_url prs peers (some t) = some (derive_ticket hash r i by_url prs peers t).entry

  added :
      (by_url : Tickets) (prs : PrStates) (peers : Map TicketUrl String) (t : Ticket) (s : Snapshot)
      (m : Tickets)
      → Indexed s
      → ((u : TicketUrl) → entry s u ≡ entry_of by_url prs peers (lookup u m))
      → (v : TicketUrl)
      → entry (add_derived (derive_ticket hash r i by_url prs peers t) (pr_at i.obs (ref t)) s) v
        ≡ entry_of by_url prs peers (lookup v (insert t.url t m))
  unfolding derive_ticket
  added by_url prs peers t s m good h v =
      add_derived-entry (derive_ticket hash r i by_url prs peers t) (pr_at i.obs (ref t)) s v good
      ∙ elim (Bool-cases (t.url == v)) [
        | inl y ↦ rw (lookup-insert t.url v t m) (rw y refl)
        | inr z ↦ rw (lookup-insert t.url v t m) (rw z (h v))
      ]

  derive_loop-entry :
      (by_url : Tickets) (prs : PrStates) (peers : Map TicketUrl String) (ts : List Ticket)
      (s : Snapshot) (m : Tickets)
      → Indexed s
      → ((u : TicketUrl) → entry s u ≡ entry_of by_url prs peers (lookup u m))
      → (u : TicketUrl)
      → entry (derive_loop hash r i by_url prs peers ts s) u
        ≡ entry_of by_url prs peers (lookup u (tickets_by_url ts m))
  unfolding derive_loop tickets_by_url
  derive_loop-entry by_url prs peers [] s m good h u = h u
  derive_loop-entry by_url prs peers (t ∷ ts) s m good h u =
      let d = derive_ticket hash r i by_url prs peers t in
      derive_loop-entry by_url prs peers ts (add_derived d (pr_at i.obs (ref t)) s)
        (insert t.url t m) (add_derived-Indexed d (pr_at i.obs (ref t)) s good)
        (λ v. added by_url prs peers t s m good h v) u

-- Reading a URL in a derived snapshot gives what is derived of the ticket that has the URL, of the
-- last one if there are several, and nothing where no ticket has it.
pub derive-entry :
    {F : Type 0} (ops : Floats F) (hash : String → String) (r : Rules) (i : Input.Input F)
    (u : TicketUrl)
    → entry (derive ops hash r i) u
      ≡ entry_of hash r i
          (tickets_by_url i.tickets [])
          (prs_by_branch i.obs i.tickets [])
          (conflicting_peer_hold r i.tickets
            (tickets_by_url i.tickets [])
            (prs_by_branch i.obs i.tickets [])
            i.obs)
          (lookup u (tickets_by_url i.tickets []))
unfolding derive entry Indexed lookup empty_snapshot
derive-entry ops hash r i u =
    derive_loop-entry hash r i (tickets_by_url i.tickets []) (prs_by_branch i.obs i.tickets [])
      (conflicting_peer_hold r i.tickets (tickets_by_url i.tickets [])
        (prs_by_branch i.obs i.tickets []) i.obs)
      i.tickets (empty_snapshot ops r i) [] (λ v n e. ground (arith, e)) (λ v. refl) u
