-- ===== src/Store/Launch/Cancelled.antt =====
-- internal/store/launch.go, `CancelLaunchesFor`: which launches are active afterwards.
use command_center.Prelude.{
  ℕ, String, ◌≡◌, refl, sym, ap, ◌∙◌, ◌⊎◌, inl, inr, Bool, true, false, List, [], ◌∷◌, arith,
  if◌then◌else◌, Bool-cases, any, In, here, there, In-any, nat_eq, string_eq, ==_self, ==_iff,
  subst,
}
use command_center.Plan.Ids.{TicketUrl}
use command_center.Store.Db.{
  Db, World, ok, LaunchRow, query, statement, returning, update_where, pure, ◌>>=◌,
}
use command_center.Store.Atomic.{bind-inv, statement-ok, query-ok, in_tx-ok}
use command_center.Store.Queries.Runs.{launch_is}
use command_center.Store.Queries.Launch.{
  is_member, active_with, active_launch_member_count, cancel_active_launches,
}
use command_center.Store.Launch.{cancel_body, cancel_launches_for}

-- No active launch holds the ticket.
abbrev pub Withdrawn : TicketUrl → Db → Type 0
Withdrawn url d =
    (l : LaunchRow)
    → In l d.launches
    → l.state ≡ "active"
    → any (is_member l.id url) d.members ≡ false

pub cancel_launches_for-ok :
    (url : TicketUrl) (n : ℕ) (w t : World)
    → cancel_launches_for url w ≡ (ok n, t)
    → t.db ≡ (cancel_active_launches url w.db).1
unfolding cancel_launches_for
cancel_launches_for-ok url n w t e =
    let (b, left, begun, run, same) = in_tx-ok (cancel_body url) w t n e in
    let (count, u, first, after) =
      bind-inv (query (active_launch_member_count url))
        (λ count. statement (returning (cancel_active_launches url)) >>= λ cancelled. pure count) b
        left n run in
    let (m, v, second, last) =
      bind-inv (statement (returning (cancel_active_launches url))) (λ cancelled. pure count) u left
        n after in
    let (_, at_v) = statement-ok (returning (cancel_active_launches url)) u v m second in
    same
    ∙ ap (λ p. p.1.db) (sym last)
    ∙ at_v
    ∙ ap (λ d. (cancel_active_launches url d).1)
        ((query-ok (active_launch_member_count url) b u count first).1 ∙ begun)

-- A row of an update is a row that the test passes by, or one that was written.
pub In-update_where :
    {Row : Type 0} (test : Row → Bool) (write : Row → Row) (rows : List Row) (r : Row)
    → In r (update_where test write rows)
    → ((q : Row) × In q rows × (test q ≡ true) × (r ≡ write q)) ⊎ (In r rows × (test r ≡ false))
In-update_where test write [] r i = elim i [ ]
In-update_where test write (q ∷ rows) r (here e) = elim (Bool-cases (test q)) [
  | inl y ↦ inl (q, here refl, y, e ∙ rw y refl)
  | inr n ↦
      (let same = e ∙ passed_by n in inr (here same, subst (λ x. test x ≡ false) (sym same) n))
]
  where
    passed_by : test q ≡ false → (if test q then write q else q) ≡ q
    passed_by n = rw n refl
In-update_where test write (q ∷ rows) r (there i) = elim (In-update_where test write rows r i) [
  | inl (x, j, y, e) ↦ inl (x, there j, y, e)
  | inr (j, n) ↦ inr (there j, n)
]

not_active : (q l : LaunchRow) → l ≡ record q { state = "cancelled" } → l.state ≡ "active" → ⊥
not_active q l e active =
    let cancelled : String = "cancelled" in
    cc ((==_iff cancelled "active").1 (sym (ap (λ (x : LaunchRow). x.state) e) ∙ active))

pub cancelled-Withdrawn :
    (url : TicketUrl) (d : Db) → Withdrawn url (cancel_active_launches url d).1
unfolding cancel_active_launches
cancelled-Withdrawn url d l i active =
    elim (In-update_where (λ (x : LaunchRow). active_with url d x.id)
      (λ (x : LaunchRow). record x { state = "cancelled" }) d.launches l i) [
        | inl (q, j, y, e) ↦ absurd (not_active q l e active)
        | inr (j, n) ↦
            let found : any (launch_is "active" l.id) d.launches ≡ true =
              In-any (launch_is "active" l.id) l d.launches j
                (ground (arith, ==_self l.id, (==_iff l.state "active").1 active)) in
            ground (arith, found, n)
      ]

pub cancelled-keeps :
    (url other : TicketUrl) (d : Db)
    → Withdrawn other d
    → Withdrawn other (cancel_active_launches url d).1
unfolding cancel_active_launches
cancelled-keeps url other d h l i active =
    elim (In-update_where (λ (x : LaunchRow). active_with url d x.id)
      (λ (x : LaunchRow). record x { state = "cancelled" }) d.launches l i) [
        | inl (q, j, y, e) ↦ absurd (not_active q l e active)
        | inr (j, n) ↦ h l j active
      ]
