-- ===== src/Plan/Gates/Refreshes.antt =====
-- internal/plan/gates.go, `Refreshes`: the refreshes of a tick, by ticket.
use command_center.Prelude.{
  ℕ, ◌+◌, ◌≤◌, ◌≡◌, refl, ◌⊎◌, inl, inr, true, false, List, [], ◌∷◌, ◌++◌, arith, Bool-cases,
  Option-cases, unwrap_or, length, select, ◌==◌, nat_eq, string_eq, ==_iff, contains,
}
use command_center.Plan.Ids.{TicketUrl}
use command_center.Plan.Vocab.{verb_refresh}
use command_center.Plan.Input.{Entry, Intent, PushRow, zero_push_row}
use command_center.Plan.Snapshot.{Snapshot, entry}
use command_center.Plan.Gates.{Refresh, requested_loop, automatic_loop, refreshes, intents_of}

-- How many of the entries and of the refreshes are of a ticket.
abbrev pub entries_of : TicketUrl → List Entry → ℕ
entries_of u es = length (select (λ (e : Entry). e.ticket.url == u) es)

abbrev pub refreshes_of : TicketUrl → List Refresh → ℕ
refreshes_of u xs = length (select (λ (x : Refresh). x.ticket == u) xs)

-- A round of the loop over the intents passes over its intent, or appends a refresh of its ticket.
requested_step :
    (s : Snapshot) (x : Intent) (xs : List Intent) (requested : List TicketUrl)
    → (requested_loop s requested (x ∷ xs) ≡ requested_loop s requested xs)
      ⊎ ((contains requested x.ticket ≡ false)
          × (row : PushRow) × (requested_loop s requested (x ∷ xs) ≡ (
            record { ticket = x.ticket; row = row; requested = true }
                ∷ (requested_loop s (x.ticket ∷ requested) xs).0,
            (requested_loop s (x.ticket ∷ requested) xs).1,
          )))
unfolding requested_loop
requested_step s x xs requested = elim (Option-cases (entry s x.ticket)) [
  | inl n ↦ inl (rw (requested_loop, n) refl)
  | inr (e, k) ↦ elim (Bool-cases (contains requested x.ticket)) [
    | inl y ↦ inl (rw (requested_loop, k) (rw y refl))
    | inr z ↦ inr (z, unwrap_or e.last_push zero_push_row, rw (requested_loop, k) (rw z refl))
  ]
]

-- A ticket is refreshed on request only if it was not met before, and is met then.
requested_loop-once :
    (s : Snapshot) (u : TicketUrl) (xs : List Intent) (requested : List TicketUrl)
    → (contains requested u ≡ true
        → (refreshes_of u (requested_loop s requested xs).0 ≡ 0)
          × (contains (requested_loop s requested xs).1 u ≡ true))
      × (refreshes_of u (requested_loop s requested xs).0 ≤ 1)
      × (refreshes_of u (requested_loop s requested xs).0 ≡ 1
          → contains (requested_loop s requested xs).1 u ≡ true)
unfolding requested_loop
requested_loop-once s u [] requested = ground arith
requested_loop-once s u (x ∷ xs) requested =
    let skipped = requested_loop-once s u xs requested in
    let more = requested_loop-once s u xs (x.ticket ∷ requested) in
    elim (requested_step s x xs requested) [
      | inl e ↦ rw e skipped
      | inr (z, row, e) ↦ rw e (ground (arith, more, ==_iff x.ticket u))
    ]

automatic_loop-once :
    (s : Snapshot) (u : TicketUrl) (requested : List TicketUrl) (es : List Entry)
    → (refreshes_of u (automatic_loop s requested es) ≤ entries_of u es)
      × (contains requested u ≡ true → refreshes_of u (automatic_loop s requested es) ≡ 0)
unfolding automatic_loop
automatic_loop-once s u requested [] = ground arith
automatic_loop-once s u requested (e ∷ es) = elim (Option-cases e.last_push) [
  | inl n ↦ ground (arith, automatic_loop-once s u requested es)
  | inr (row, k) ↦ ground (arith, automatic_loop-once s u requested es, ==_iff e.ticket.url u)
]

refreshes_of-append :
    (u : TicketUrl) (xs ys : List Refresh)
    → refreshes_of u (xs ++ ys) ≡ refreshes_of u xs + refreshes_of u ys
refreshes_of-append u [] ys = omega arith
refreshes_of-append u (x ∷ xs) ys = ground (arith, refreshes_of-append u xs ys)

-- With one entry to a ticket, no ticket is refreshed twice in a tick, whether on request or
-- automatically.
pub refreshes-once :
    (s : Snapshot) (u : TicketUrl) → entries_of u s.entries ≤ 1 → refreshes_of u (refreshes s) ≤ 1
unfolding refreshes
refreshes-once s u h =
    let asked = requested_loop s [] (intents_of s verb_refresh) in
    ground (
      arith,
      refreshes_of-append u asked.0 (automatic_loop s asked.1 s.entries),
      requested_loop-once s u (intents_of s verb_refresh) [],
      automatic_loop-once s u asked.1 s.entries,
    )
