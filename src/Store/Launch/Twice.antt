-- ===== src/Store/Launch/Twice.antt =====
-- internal/store/launch.go, `insertLaunch`: two intents of one ticket in one group.
use command_center.Prelude.{
  ℕ, suc, ◌≤◌, ◌<◌, String, ◌≡◌, refl, ap, ◌⊎◌, inl, inr, Bool, true, ◌&&◌, some, List, [], ◌∷◌,
  ◌++◌, map, arith, Bool-cases, Option-cases, length, select, any, any-append, contains, get_or,
  nat_eq, string_eq, ◌==◌, ==_iff, ==_self, subst, Map,
}
use command_center.Plan.Ids.{TicketUrl}
use command_center.Store.Db.{World, Result, ok, err, MemberRow, IntentRow, is_err}
use command_center.Store.Atomic.{bind-inv, in_tx-atomic}
use command_center.Store.Queries.Launch.{add_members, member_row, same_member}
use command_center.Store.Launch.{
  PendingIntent, decode_launch, Groups, claim_loop, insert_launch, insert_launches, apply_claimed,
  apply_launch_intents, member_of,
}
use command_center.Store.Launch.Groups.{
  members_in, members_in-some, members_in-none, members_in_done, names, names-some, names-none,
  claim_loop-groups, claim_loop-order,
}
use command_center.Store.Launch.Inserted.{insert_launch-Inserts, launched_members}
use command_center.Store.Launch.Applied.{pending_launches, applied, no_group}

abbrev pub how_many : {A : Type 0} → (A → Bool) → List A → ℕ
how_many p xs = length (select p xs)

same_member_eq : (m x y : MemberRow) → same_member m x ≡ true → same_member x y ≡ same_member m y
same_member_eq m x y h =
    let l : x.launch_id ≡ m.launch_id = (==_iff x.launch_id m.launch_id).0 (ground (arith, h)) in
    let t : x.ticket ≡ m.ticket = (==_iff x.ticket m.ticket).0 (ground (arith, h)) in rw (l, t) refl

any_same :
    (m x : MemberRow) (rows : List MemberRow)
    → same_member m x ≡ true
    → any (same_member x) rows ≡ any (same_member m) rows
any_same m x [] h = refl
any_same m x (r ∷ rows) h = ground (arith, any_same m x rows h, same_member_eq m x r h)

-- Rows that are added have a key each.
add_members_once :
    (m : MemberRow) (ms rows out : List MemberRow)
    → add_members ms rows ≡ some out
    → (how_many (same_member m) ms ≤ 1)
      × (any (same_member m) rows ≡ true → how_many (same_member m) ms ≡ 0)
unfolding add_members
add_members_once m [] rows out e = (omega arith, λ _. refl)
add_members_once m (x ∷ ms) rows out e = ground (
  arith,
  add_members_once m ms (rows ++ x ∷ []) out,
  any-append (same_member m) rows (x ∷ []),
  any_same m x rows,
)

abbrev of_ticket : TicketUrl → PendingIntent → Bool
of_ticket ticket m = m.ticket_id == ticket

member_counts :
    (id : ℕ) (ticket : TicketUrl) (ms : List PendingIntent)
    → how_many (same_member (member_row id (ticket, ""))) (map (member_row id) (map member_of ms))
      ≡ how_many (of_ticket ticket) ms
member_counts id ticket [] = refl
member_counts id ticket (m ∷ ms) = ground (arith, member_counts id ticket ms, ==_self id)

-- A launch intent of the group for the ticket.
unfoldable pub asks_for : String → TicketUrl → IntentRow → Bool
unfolding names
asks_for group ticket i = names group i && i.ticket == ticket

asks_for_eq :
    (group : String) (ticket : TicketUrl) (i : IntentRow)
    → asks_for group ticket i ≡ (names group i && i.ticket == ticket)
unfolding asks_for
asks_for_eq group ticket i = refl

members_counts :
    (group : String) (ticket : TicketUrl) (rs : List IntentRow)
    → how_many (of_ticket ticket) (members_in group rs) ≡ how_many (asks_for group ticket) rs
members_counts group ticket [] = ap (how_many (of_ticket ticket)) (members_in_done group)
members_counts group ticket (r ∷ rs) = elim (Option-cases (decode_launch r.payload)) [
  | inl n ↦ ground (
    arith,
    members_in-none group r rs n,
    names-none group r n,
    members_counts group ticket rs,
    asks_for_eq group ticket r,
  )
  | inr (p, k) ↦ ground (
    arith,
    members_in-some group r rs p k,
    names-some group r p k,
    members_counts group ticket rs,
    asks_for_eq group ticket r,
  )
]

insert_launch_once :
    (at : ℕ) (ticket : TicketUrl) (ms : List PendingIntent) (w t : World)
    → insert_launch at ms w ≡ (ok tt, t)
    → how_many (of_ticket ticket) ms ≤ 1
insert_launch_once at ticket ms w t e =
    let (adds, _, _, _) = insert_launch-Inserts at ms w t e in
    let id : ℕ = suc w.db.launch_seq in
    omega (
      arith,
      (add_members_once (member_row id (ticket, "")) (launched_members ms w.db) w.db.members
          t.db.members adds).0,
      member_counts id ticket ms,
    )

insert_launches_once :
    (at : ℕ) (group : String) (ticket : TicketUrl) (groups : Map String (List PendingIntent))
    (order : List String) (w t : World)
    → insert_launches at groups order w ≡ (ok tt, t)
    → contains order group ≡ true
    → how_many (of_ticket ticket) (get_or group [] groups) ≤ 1
unfolding insert_launches
insert_launches_once at group ticket groups [] w t e c = cc c
insert_launches_once at group ticket groups (g ∷ order) w t e c =
    let (a, u, first, after) =
      bind-inv (insert_launch at (get_or g [] groups)) (λ _. insert_launches at groups order) w t tt
        e in
    elim (Bool-cases (g == group)) [
      | inl y ↦
          subst (λ x. how_many (of_ticket ticket) (get_or x [] groups) ≤ 1) ((==_iff g group).0 y)
            (insert_launch_once at ticket (get_or g [] groups) w u first)
      | inr n ↦ insert_launches_once at group ticket groups order u t after (ground (arith, c, n))
    ]

asks-names :
    (group : String) (ticket : TicketUrl) (rs : List IntentRow)
    → 1 ≤ how_many (asks_for group ticket) rs
    → any (λ (r : IntentRow). names group r) rs ≡ true
asks-names group ticket [] h = ground (arith, h)
asks-names group ticket (r ∷ rs) h =
    ground (arith, h, asks_for_eq group ticket r, asks-names group ticket rs)

asked_once :
    (group : String) (ticket : TicketUrl) (rs : List IntentRow) (g : Groups) (now : ℕ) (u v : World)
    → claim_loop rs ([], []) ≡ ok g
    → insert_launches now g.0 g.1 u ≡ (ok tt, v)
    → any (λ (r : IntentRow). names group r) rs ≡ true
    → how_many (asks_for group ticket) rs ≤ 1
unfolding get_or
asked_once group ticket rs g now u v loop ins named =
    let order =
      claim_loop-order group rs ([], []) g loop (λ x h. no_group x h) (ground (arith, named)) in
    let once = insert_launches_once now group ticket g.0 g.1 u v ins order in
    let ms : get_or group [] g.0 ≡ members_in group rs =
      claim_loop-groups group rs ([], []) g loop in
    omega (arith, once, ap (how_many (of_ticket ticket)) ms, members_counts group ticket rs)

applied_once :
    (now : ℕ) (group : String) (ticket : TicketUrl) (w t : World)
    → apply_launch_intents now w ≡ (ok tt, t)
    → how_many (asks_for group ticket) (pending_launches w.db) ≤ 1
applied_once now group ticket w t e =
    elim (Bool-cases (any (λ (r : IntentRow). names group r) (pending_launches w.db))) [
      | inl y ↦
          let (g, u, v, loop, at_u, ins, same) = applied now w t e in
          asked_once group ticket (pending_launches w.db) g now u v loop ins y
      | inr n ↦ ground (arith, n, asks-names group ticket (pending_launches w.db))
    ]

result-cases :
    {A : Type 0} (r : Result A × World) → (is_err r.0 ≡ true) ⊎ ((a : A) × (r ≡ (ok a, r.1)))
result-cases (ok a, w) = inr (a, refl)
result-cases (err x, w) = inl refl

-- Where two pending launch intents of one group are for one ticket, ApplyLaunchIntents fails at
-- whatever time it runs and leaves the database as it was, all pending launch intents with it.
pub apply_launch_intents-is_err :
    (now : ℕ) (group : String) (ticket : TicketUrl) (w : World)
    → 1 < how_many (asks_for group ticket) (pending_launches w.db)
    → (is_err (apply_launch_intents now w).0 ≡ true) × ((apply_launch_intents now w).1.db ≡ w.db)
unfolding apply_launch_intents
apply_launch_intents-is_err now group ticket w h =
    elim (result-cases (apply_launch_intents now w)) [
      | inl y ↦ (y, in_tx-atomic (apply_claimed now) w y)
      | inr (a, e) ↦
          absurd
            (omega (arith, h, applied_once now group ticket w (apply_launch_intents now w).1 e))
    ]
