-- ===== src/Loop/Intents/Cancelled.antt =====
-- internal/loop/verbs.go, `applyCancelIntents`: what a success leaves in the store.
use command_center.Prelude.{
  one_or_rest, select_none, select-In, ℕ, String, ◌≡◌, refl, sym, ap, ◌∙◌, inl, inr, true, false,
  Option, none, some, List, [], ◌∷◌, map, arith, Bool-cases, contains, select, In, here, there,
  In-any, In-mapped, nat_eq, string_eq, ◌==◌, ==_self, subst,
}
use command_center.Plan.Ids.{TicketUrl}
use command_center.Plan.Vocab.{Verb, verb_cancel}
use command_center.Plan.Input.{Intent}
use command_center.Store.Db.{Db, Result, ok, err, malformed, IntentRow, Payload, query, of_result}
use command_center.Store.Atomic.{bind-inv, err-ne-ok, query-ok, ok-inj}
use command_center.Store.Queries.Runs.{awaits, pending_verb_intents_query}
use command_center.Store.Intents.{
  VerbIntent, collect_intents, pending_verb_intents, intent_of, verb_intent_of, payload_of,
}
use command_center.Store.Launch.Cancelled.{Withdrawn}
use command_center.Loop.Machine.{LoopState, Outside, in_store}
use command_center.Loop.Intents.{
  consume_each, cancel_one, each_pending_intent, apply_cancel_intents,
}
use command_center.Loop.Intents.Consumed.{Unconsumed, Withdraws, in_store-ok, cancelled_each}

not_left :
    (verb : Verb) (ids : List ℕ) (d b e : Db)
    → b ≡ d
    → ids ≡ map (λ (r : IntentRow). r.id) (select (awaits verb) d.intents)
    → Unconsumed ids b e
    → (r : IntentRow) → In r e.intents
    → awaits verb r ≡ false
not_left verb ids d b e begun same left r j = elim (Bool-cases (awaits verb r)) [
  | inr n ↦ n
  | inl y ↦
      let rows = select (awaits verb) d.intents in
      let (was, out) = left r j (ground (arith, y)) in
      let row : In r rows =
        select-In (awaits verb) r d.intents (subst (λ (x : Db). In r x.intents) begun was) y in
      let listed : contains (map (λ (q : IntentRow). q.id) rows) r.id ≡ true =
        In-any (λ x. x == r.id) r.id (map (λ (q : IntentRow). q.id) rows)
          (In-mapped (λ (q : IntentRow). q.id) r rows row) (==_self r.id) in
      absurd (ground (arith, listed, out, ap (λ xs. contains xs r.id) same))
]

module _ (o : Outside) (json : Payload → String) where
  collected_first :
      (verb : Verb) (r : IntentRow) (rows : List IntentRow) (ps : List VerbIntent)
      → collect_intents json verb (r ∷ rows) ≡ ok ps
      → (payload : String) × (rest : List VerbIntent) × (collect_intents json verb rows ≡ ok rest)
        × (ps ≡ verb_intent_of r payload ∷ rest)
  unfolding collect_intents
  collected_first verb r rows ps e =
      by_parts (payload_of json verb r) (collect_intents json verb rows) refl refl e
    where
      by_parts :
          (payload : Option String) (rest : Result (List VerbIntent))
          → payload_of json verb r ≡ payload
          → collect_intents json verb rows ≡ rest
          → collect_intents json verb (r ∷ rows) ≡ ok ps
          → (text : String) × (is : List VerbIntent) × (collect_intents json verb rows ≡ ok is)
            × (ps ≡ verb_intent_of r text ∷ is)
      by_parts none rest h k e =
          absurd (err-ne-ok (malformed r.ticket) ps (sym (rw (h, collect_intents) refl) ∙ e))
      by_parts (some payload) (err x) h k e =
          absurd (err-ne-ok x ps (sym (rw (h, k, collect_intents) refl) ∙ e))
      by_parts (some payload) (ok rest) h k e =
          (payload, rest, k, sym (ok-inj (sym (rw (h, k, collect_intents) refl) ∙ e)))

  collected_none : (verb : Verb) → collect_intents json verb [] ≡ ok []
  unfolding collect_intents
  collected_none verb = refl

  abbrev intents_listed : Verb → List VerbIntent → List Intent
  intents_listed verb ps = map (intent_of json verb) ps

  -- The intents that were listed are the rows, by id and by ticket.
  collected :
      (verb : Verb) (rows : List IntentRow) (ps : List VerbIntent)
      → collect_intents json verb rows ≡ ok ps
      → (map (λ (i : Intent). i.id) (intents_listed verb ps) ≡ map (λ (r : IntentRow). r.id) rows)
        × ((r : IntentRow)
            → In r rows
            → (i : Intent) × In i (intents_listed verb ps) × (i.ticket ≡ r.ticket))
  collected verb [] ps e = (
    ap (λ (xs : List VerbIntent). map (λ (i : Intent). i.id) (intents_listed verb xs))
        (ok-inj (sym e ∙ collected_none verb)),
    λ r j. elim j [ ],
  )
  collected verb (r ∷ rows) ps e =
      let (payload, rest, k, same) = collected_first verb r rows ps e in
      let (ids, found) = collected verb rows rest k in
      subst
        (λ (xs : List VerbIntent).
          (map (λ (i : Intent). i.id) (intents_listed verb xs)
            ≡ map (λ (r : IntentRow). r.id) (r ∷ rows))
          × ((q : IntentRow)
              → In q (r ∷ rows)
              → (i : Intent) × In i (intents_listed verb xs) × (i.ticket ≡ q.ticket)))
        (sym same)
        (
          ap (λ xs. r.id ∷ xs) ids,
          one_or_rest
              (λ (q : IntentRow).
                (i : Intent) × In i (intents_listed verb (verb_intent_of r payload ∷ rest))
                × (i.ticket ≡ q.ticket))
              r rows (intent_of json verb (verb_intent_of r payload), here refl, refl)
              (λ q j. let (i, at, t) = found q j in (i, there at, t)),
        )

  -- Where applyCancelIntents succeeds, no cancel intent is pending any more, and no active launch holds
  -- the ticket of one that was. A ticket that no active launch held before is still held by none.
  pub apply_cancel_intents-Withdrawn :
      (s t : LoopState)
      → apply_cancel_intents o json s ≡ (ok tt, t)
      → (select (awaits verb_cancel) t.store.db.intents ≡ [])
        × ((r : IntentRow)
            → In r (select (awaits verb_cancel) s.store.db.intents)
            → Withdrawn r.ticket t.store.db)
        × Withdraws s.store.db t.store.db
  unfolding apply_cancel_intents each_pending_intent pending_verb_intents pending_verb_intents_query
  apply_cancel_intents-Withdrawn s t e =
      let (ps, u, first, after) =
        bind-inv (in_store (pending_verb_intents json verb_cancel))
          (λ ps. consume_each o json (map (intent_of json verb_cancel) ps) (cancel_one o json)) s t
          tt e in
      let (rows, w, read, made) =
        bind-inv (query (pending_verb_intents_query verb_cancel))
          (λ rows. of_result (collect_intents json verb_cancel rows)) s.store u.store ps
          (in_store-ok (pending_verb_intents json verb_cancel) s u ps first) in
      let (is_rows, at_w) = query-ok (pending_verb_intents_query verb_cancel) s.store w rows read in
      let (left, kept, each) =
        cancelled_each o json (map (intent_of json verb_cancel) ps) u t after in
      let listed : collect_intents json verb_cancel (select (awaits verb_cancel) s.store.db.intents)
          ≡ ok ps =
        ap (λ xs. collect_intents json verb_cancel xs) is_rows ∙ ap (λ p. p.0) made in
      let (ids, found) =
        collected verb_cancel (select (awaits verb_cancel) s.store.db.intents) ps listed in
      let begun : u.store.db ≡ s.store.db = ap (λ p. p.1.db) (sym made) ∙ at_w in
      (
        select_none (awaits verb_cancel) t.store.db.intents (λ r j.
            not_left verb_cancel (map (λ (i : Intent). i.id) (intents_listed verb_cancel ps))
              s.store.db u.store.db t.store.db begun ids left r j),
        λ r j.
            let (i, at, same) = found r j in
            subst (λ (url : TicketUrl). Withdrawn url t.store.db) same (each i at),
        λ url h. kept url (subst (Withdrawn url) (sym begun) h),
      )
