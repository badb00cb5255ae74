-- ===== src/Loop/Intents/Consumed.antt =====
-- internal/loop/verbs.go, `applyCancelIntents`: what handling and consuming one intent leaves.
use command_center.Prelude.{
  one_or_rest, ℕ, String, ◌≡◌, refl, sym, ap, ◌∙◌, inl, inr, true, false, ◌&&◌, some, List, [], ◌∷◌,
  map, arith, is_none, any, contains, In, nat_eq, string_eq, ◌==◌, ==_iff, subst,
}
use command_center.Plan.Ids.{TicketUrl}
use command_center.Plan.Input.{Intent}
use command_center.Store.Db.{
  Db, Result, ok, fault, MemberRow, IntentRow, Payload, Action, update_where, pure, ◌>>◌,
}
use command_center.Store.Atomic.{bind-inv, execute-ok, err-ne-ok, ok-inj}
use command_center.Store.Queries.Runs.{consumable, consume_verb_intent_query}
use command_center.Store.Queries.Launch.{cancel_active_launches}
use command_center.Store.Queries.Events.{append_event_query}
use command_center.Store.Runs.History.{update_one-cases}
use command_center.Store.Intents.{consume_verb_intent}
use command_center.Store.Events.{
  event_launch_cancelled, append_event, event_params, plain_event, EventKind,
}
use command_center.Store.Launch.{cancel_launches_for}
use command_center.Store.Launch.Cancelled.{
  Withdrawn, cancel_launches_for-ok, In-update_where, cancelled-Withdrawn, cancelled-keeps,
}
use command_center.Loop.Machine.{LoopState, Act, Outside, in_store, now, event}
use command_center.Loop.Intents.{
  Handled, handled, after_handled, consume, consume_each, cancel_one, cancel_detail,
}

-- Every intent of `e` that is not consumed was there before, under an id outside the list.
abbrev pub Unconsumed : List ℕ → Db → Db → Type 0
Unconsumed ids d e =
    (r : IntentRow)
    → In r e.intents
    → is_none r.consumed_at ≡ true
    → In r d.intents × (contains ids r.id ≡ false)

-- What every step keeps: a ticket that no active launch holds stays so.
abbrev pub Withdraws : Db → Db → Type 0
Withdraws d e = (url : TicketUrl) → Withdrawn url d → Withdrawn url e

abbrev pub SameTables : Db → Db → Type 0
SameTables d e = (e.intents ≡ d.intents) × (e.launches ≡ d.launches) × (e.members ≡ d.members)

pub same_launches : (d e : Db) → e.launches ≡ d.launches → e.members ≡ d.members → Withdraws d e
same_launches d e launches members url h l i active =
    ap (λ ms. any (λ (m : MemberRow). m.launch_id == l.id && m.ticket == url) ms) members
    ∙ h l (subst (In l) launches i) active

pub in_store-ok :
    {A : Type 0} (m : Action A) (s t : LoopState) (a : A)
    → in_store m s ≡ (ok a, t)
    → m s.store ≡ (ok a, t.store)
in_store-ok m s t a e = ap (λ p. (p.0, p.1.store)) e

module _ (o : Outside) (json : Payload → String) where
  event-SameTables :
      (url : TicketUrl) (kind : EventKind) (detail : String) (s t : LoopState)
      → event o url kind detail s ≡ (ok tt, t)
      → SameTables s.store.db t.store.db
  unfolding event append_event append_event_query
  event-SameTables url kind detail s t e =
      let at = o.clock s.reads in
      let k =
        execute-ok (append_event_query (event_params (plain_event at url kind detail))) s.store
          t.store
          (in_store-ok (append_event (plain_event at url kind detail)) (now o s).1 t tt e) in
      (ap (λ (d : Db). d.intents) k, ap (λ (d : Db). d.launches) k, ap (λ (d : Db). d.members) k)

  -- Handling a cancel intent withdraws its ticket and leaves the intents alone.
  cancel_one-ok :
      (i : Intent) (a : Handled) (s t : LoopState)
      → cancel_one o json i s ≡ (ok a, t)
      → (a ≡ handled)
        × Withdrawn i.ticket t.store.db
        × Withdraws s.store.db t.store.db
        × (t.store.db.intents ≡ s.store.db.intents)
  unfolding cancel_active_launches
  cancel_one-ok i a s t e =
      let told : ℕ → Act Unit =
        λ n. event o i.ticket event_launch_cancelled (cancel_detail o json n) in
      let (n, u, first, after) =
        bind-inv (in_store (cancel_launches_for i.ticket)) (λ n. told n >> pure handled) s t a e in
      let (_, v, second, last) = bind-inv (told n) (λ _. pure handled) u t a after in
      let at_u =
        cancel_launches_for-ok i.ticket n s.store u.store
          (in_store-ok (cancel_launches_for i.ticket) s u n first) in
      let same =
        event-SameTables i.ticket event_launch_cancelled (cancel_detail o json n) u v second in
      let to_t : v.store.db ≡ t.store.db = ap (λ p. p.1.store.db) last in
      let keep : (url : TicketUrl) → Withdrawn url u.store.db → Withdrawn url t.store.db = λ url h.
        subst (Withdrawn url) to_t (same_launches u.store.db v.store.db same.1 same.2 url h) in
      (
        sym (ok-inj (ap (λ p. p.0) last)),
        keep i.ticket
            (subst (Withdrawn i.ticket) (sym at_u) (cancelled-Withdrawn i.ticket s.store.db)),
        λ url h.
            keep url (subst (Withdrawn url) (sym at_u) (cancelled-keeps i.ticket url s.store.db h)),
        ap (λ (d : Db). d.intents) (sym to_t) ∙ same.0 ∙ ap (λ (d : Db). d.intents) at_u,
      )

  -- An intent that is consumed is out of the queue.
  pub consume-Unconsumed :
      (i : Intent) (s t : LoopState)
      → consume o json i s ≡ (ok tt, t)
      → Unconsumed (i.id ∷ []) s.store.db t.store.db × Withdraws s.store.db t.store.db
  unfolding consume consume_verb_intent consume_verb_intent_query
  consume-Unconsumed i s t e =
      let at = o.clock s.reads in
      let u : Db → ℕ × Db = consume_verb_intent_query at i.id in
      let done = in_store-ok (consume_verb_intent i.id at) (now o s).1 t tt e in
      elim (update_one-cases u s.store) [
        | inl (ahead, k) ↦ absurd (err-ne-ok fault tt (ap (λ p. p.0) (sym k ∙ done)))
        | inr (ahead, k) ↦
            let at_t : t.store.db ≡ (u s.store.db).1 = ap (λ p. p.1.db) (sym done ∙ k) in
            (
              λ r j waits. still_queued r (subst (λ (d : Db). In r d.intents) at_t j) waits,
              λ url h.
                  subst (Withdrawn url) (sym at_t)
                    (same_launches s.store.db (u s.store.db).1 refl refl url h),
            )
      ]
    where
      still_queued :
          (r : IntentRow)
          → In r (
              update_where
                (consumable i.id)
                (λ (q : IntentRow). record q { consumed_at = some (o.clock s.reads) })
                s.store.db.intents)
          → is_none r.consumed_at ≡ true
          → In r s.store.db.intents × (contains (i.id ∷ []) r.id ≡ false)
      still_queued r j waits =
          elim (In-update_where (consumable i.id)
            (λ (q : IntentRow). record q { consumed_at = some (o.clock s.reads) })
            s.store.db.intents r j) [
              | inl (q, at, y, same) ↦
                  absurd (ground (arith, waits, ap (λ (x : IntentRow). x.consumed_at) same))
              | inr (at, n) ↦ (at, ground (arith, waits, n, ==_iff r.id i.id, ==_iff i.id r.id))
            ]

  -- The loop over cancel intents.
  pub cancelled_each :
      (is : List Intent) (s t : LoopState)
      → consume_each o json is (cancel_one o json) s ≡ (ok tt, t)
      → Unconsumed (map (λ (i : Intent). i.id) is) s.store.db t.store.db
        × Withdraws s.store.db t.store.db
        × ((i : Intent) → In i is → Withdrawn i.ticket t.store.db)
  unfolding consume_each
  cancelled_each [] s t e =
      let same = ap (λ (p : Result Unit × LoopState). p.1.store.db) e in
      (
        λ r j waits. (subst (λ (d : Db). In r d.intents) (sym same) j, refl),
        λ url h. subst (Withdrawn url) same h,
        λ i j. elim j [ ],
      )
  cancelled_each (i ∷ is) s t e =
      let rest : Act Unit = consume_each o json is (cancel_one o json) in
      let (a, u, first, after) =
        bind-inv (cancel_one o json i) (after_handled (consume o json i) rest) s t tt e in
      let (was, here_withdrawn, kept, same) = cancel_one-ok i a s u first in
      let (_, v, second, last) =
        bind-inv (consume o json i) (λ _. rest) u t tt
          (subst (λ (h : Handled). after_handled (consume o json i) rest h u ≡ (ok tt, t)) was
            after) in
      let (left, kept_too) = consume-Unconsumed i u v second in
      let (later, kept_later, each) = cancelled_each is v t last in
      let now_gone : Withdrawn i.ticket t.store.db =
        kept_later i.ticket (kept_too i.ticket here_withdrawn) in
      (
        λ r j waits.
            let (at_v, n) = later r j waits in
            let (at_u, m) = left r at_v waits in (subst (In r) same at_u, ground (arith, n, m)),
        λ url h. kept_later url (kept_too url (kept url h)),
        one_or_rest (λ (x : Intent). Withdrawn x.ticket t.store.db) i is now_gone each,
      )
