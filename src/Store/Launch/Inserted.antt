-- ===== src/Store/Launch/Inserted.antt =====
-- internal/store/launch.go, `insertLaunch`: the rows that the launch of a group adds.
use command_center.Prelude.{
  ℕ, suc, ◌≤◌, ◌<◌, String, ◌≡◌, refl, sym, ap, ap₂, ◌∙◌, inl, inr, true, Option, none, some, List,
  [], ◌∷◌, ◌++◌, map, append_assoc, append-nil, arith, Bool-cases, any, contains, get_or, In, here,
  In-append_left, In-append_right, In-mapped, nat_eq, string_eq, ◌==◌, ==_iff, subst, Map,
}
use command_center.Plan.Ids.{TicketUrl}
use command_center.Store.Db.{
  Db, World, Result, ok, LaunchRow, MemberRow, statement, execute, returning, ◌>>◌,
}
use command_center.Store.Atomic.{ok-inj, bind-inv, statement-ok, execute-ok}
use command_center.Store.Queries.Launch.{
  insert_launch_query, insert_launch_members_query, insert_launch_event_query, add_members,
  member_row, launch_row, same_member,
}
use command_center.Store.Launch.{
  PendingIntent, insert_launch, insert_launches, member_of, launch_params, head_or, zero_pending,
  launch_detail,
}

-- The rows are added at the end, each under a key that no row has yet.
pub add_members-append :
    (ms rows out : List MemberRow) → add_members ms rows ≡ some out → out ≡ rows ++ ms
unfolding add_members
add_members-append [] rows out e = ground (arith, append-nil rows)
add_members-append (m ∷ ms) rows out e = elim (Bool-cases (any (same_member m) rows)) [
  | inl y ↦ ground (arith, y)
  | inr n ↦
      add_members-append ms (rows ++ m ∷ []) out (ground (arith, n)) ∙ append_assoc rows (m ∷ []) ms
]

members_query-ok :
    (id : ℕ) (ms : List (TicketUrl × String)) (d : Db)
    → (insert_launch_members_query id ms d).0 ≡ ok tt
    → (add_members (map (member_row id) ms) d.members
        ≡ some (insert_launch_members_query id ms d).1.members)
      × ((insert_launch_members_query id ms d).1.launches ≡ d.launches)
      × ((insert_launch_members_query id ms d).1.intents ≡ d.intents)
      × ((insert_launch_members_query id ms d).1.launch_seq ≡ d.launch_seq)
unfolding insert_launch_members_query
members_query-ok id ms d k = added (add_members (map (member_row id) ms) d.members) refl k
  where
    added :
        (o : Option (List MemberRow))
        → add_members (map (member_row id) ms) d.members ≡ o
        → (insert_launch_members_query id ms d).0 ≡ ok tt
        → (add_members (map (member_row id) ms) d.members
            ≡ some (insert_launch_members_query id ms d).1.members)
          × ((insert_launch_members_query id ms d).1.launches ≡ d.launches)
          × ((insert_launch_members_query id ms d).1.intents ≡ d.intents)
          × ((insert_launch_members_query id ms d).1.launch_seq ≡ d.launch_seq)
    added none e k = ground (arith, e)
    added (some rows) e k = ground (arith, e)

abbrev pub launched_row : ℕ → List PendingIntent → Db → LaunchRow
launched_row at ms d = launch_row (suc d.launch_seq) (launch_params at (head_or zero_pending ms))

abbrev pub launched_members : List PendingIntent → Db → List MemberRow
launched_members ms d = map (member_row (suc d.launch_seq)) (map member_of ms)

-- What a successful launch of a group adds.
abbrev pub Inserts : ℕ → List PendingIntent → Db → Db → Type 0
Inserts at ms d e =
    (add_members (launched_members ms d) d.members ≡ some e.members)
    × (e.launches ≡ d.launches ++ launched_row at ms d ∷ [])
    × (e.intents ≡ d.intents)
    × (e.launch_seq ≡ suc d.launch_seq)

pub insert_launch-Inserts :
    (at : ℕ) (ms : List PendingIntent) (w t : World)
    → insert_launch at ms w ≡ (ok tt, t)
    → Inserts at ms w.db t.db
unfolding insert_launch insert_launch_query insert_launch_event_query
insert_launch-Inserts at ms w t e =
    let (id, u, first, after) =
      bind-inv
        (statement (returning (insert_launch_query (launch_params at (head_or zero_pending ms)))))
        (λ id.
          statement (insert_launch_members_query id (map member_of ms))
          >> execute (insert_launch_event_query at (launch_detail id ms)))
        w t tt e in
    let (a, v, second, third) =
      bind-inv (statement (insert_launch_members_query id (map member_of ms)))
        (λ _. execute (insert_launch_event_query at (launch_detail id ms))) u t tt after in
    let (same_id, at_u) =
      statement-ok (returning (insert_launch_query (launch_params at (head_or zero_pending ms)))) w
        u id first in
    let (done, at_v) =
      statement-ok (insert_launch_members_query id (map member_of ms)) u v a second in
    let at_t = execute-ok (insert_launch_event_query at (launch_detail id ms)) v t third in
    let (adds, l, i, q) = members_query-ok id (map member_of ms) u.db done in
    let same : suc w.db.launch_seq ≡ id = ok-inj same_id in
    let to_t = at_t ∙ ap (insert_launch_event_query at (launch_detail id ms)) at_v in
    (
      ap₂ (λ n rows. add_members (map (member_row n) (map member_of ms)) rows) same
            (sym (ap (λ (d : Db). d.members) at_u))
          ∙ adds
          ∙ ap (λ (d : Db). some d.members) (sym to_t),
      ap (λ (d : Db). d.launches) to_t ∙ l ∙ ap (λ (d : Db). d.launches) at_u,
      ap (λ (d : Db). d.intents) to_t ∙ i ∙ ap (λ (d : Db). d.intents) at_u,
      ap (λ (d : Db). d.launch_seq) to_t ∙ q ∙ ap (λ (d : Db). d.launch_seq) at_u,
    )

-- The rows of `d` are among those of `e`, and the intents are the same.
abbrev pub Keeps : Db → Db → Type 0
Keeps d e =
    ((l : LaunchRow) → In l d.launches → In l e.launches)
    × ((m : MemberRow) → In m d.members → In m e.members)
    × (e.intents ≡ d.intents)
    × (d.launch_seq ≤ e.launch_seq)

-- A launch above the number `lo` that holds the intents of a group as its members.
abbrev pub Launched : ℕ → ℕ → List PendingIntent → Db → Type 0
Launched lo at ms e =
    (id : ℕ) × (lo < id)
    × In (launch_row id (launch_params at (head_or zero_pending ms))) e.launches
    × ((m : PendingIntent) → In m ms → In (member_row id (member_of m)) e.members)

Inserts-Keeps : (at : ℕ) (ms : List PendingIntent) (d e : Db) → Inserts at ms d e → Keeps d e
Inserts-Keeps at ms d e (adds, launches, intents, seq) =
    let rows = add_members-append (launched_members ms d) d.members e.members adds in
    (
      λ l i.
          subst (In l) (sym launches) (In-append_left l d.launches (launched_row at ms d ∷ []) i),
      λ m i. subst (In m) (sym rows) (In-append_left m d.members (launched_members ms d) i),
      intents,
      omega (arith, seq),
    )

Inserts-Launched :
    (at lo : ℕ) (ms : List PendingIntent) (d e : Db)
    → lo ≤ d.launch_seq
    → Inserts at ms d e
    → Launched lo at ms e
Inserts-Launched at lo ms d e le (adds, launches, intents, seq) =
    let rows = add_members-append (launched_members ms d) d.members e.members adds in
    let id : ℕ = suc d.launch_seq in
    (
      id,
      omega arith,
      subst (In (launched_row at ms d)) (sym launches) (
          In-append_right (launched_row at ms d) d.launches (launched_row at ms d ∷ [])
            (here refl)),
      λ m i. subst (In (member_row id (member_of m))) (sym rows) (
          In-append_right (member_row id (member_of m)) d.members (launched_members ms d) (
            In-mapped (member_row id) (member_of m) (map member_of ms)
              (In-mapped member_of m ms i))),
    )

Launched-Keeps :
    (at lo : ℕ) (ms : List PendingIntent) (d e : Db)
    → Keeps d e
    → Launched lo at ms d
    → Launched lo at ms e
Launched-Keeps at lo ms d e (ls, mem, _, _) (id, lt, l, m) = (
  id,
  lt,
  ls (launch_row id (launch_params at (head_or zero_pending ms))) l,
  λ x i. mem (member_row id (member_of x)) (m x i),
)

-- A successful run over the groups launches each of them.
pub insert_launches-Launched :
    (at lo : ℕ) (groups : Map String (List PendingIntent)) (order : List String) (w t : World)
    → lo ≤ w.db.launch_seq
    → insert_launches at groups order w ≡ (ok tt, t)
    → Keeps w.db t.db
      × ((group : String)
          → contains order group ≡ true
          → Launched lo at (get_or group [] groups) t.db)
unfolding insert_launches
insert_launches-Launched at lo groups [] w t le e =
    let same = ap (λ (p : Result Unit × World). p.1.db) e in
    (subst (Keeps w.db) same (λ l i. i, λ m i. i, refl, omega arith), λ group c. cc c)
insert_launches-Launched at lo groups (g ∷ order) w t le e =
    let (a, u, first, after) =
      bind-inv (insert_launch at (get_or g [] groups)) (λ _. insert_launches at groups order) w t tt
        e in
    let ins = insert_launch-Inserts at (get_or g [] groups) w u first in
    let kept = Inserts-Keeps at (get_or g [] groups) w.db u.db ins in
    let (later, each) =
      insert_launches-Launched at lo groups order u t (omega (arith, kept.3)) after in
    (
      (
        λ l i. later.0 l (kept.0 l i),
        λ m i. later.1 m (kept.1 m i),
        later.2 ∙ kept.2,
        omega (arith, later.3, kept.3),
      ),
      λ group c. elim (Bool-cases (g == group)) [
        | inl y ↦
            subst (λ x. Launched lo at (get_or x [] groups) t.db) ((==_iff g group).0 y)
              (Launched-Keeps at lo (get_or g [] groups) u.db t.db later
                (Inserts-Launched at lo (get_or g [] groups) w.db u.db le ins))
        | inr n ↦ each group (ground (arith, c, n))
      ],
    )
