-- ===== src/Store/Runs/History.antt =====
-- internal/store/runs.go: what any history of the store's operations does to the table of runs.
use command_center.Prelude.{
  ℕ, suc, ◌≡◌, refl, sym, ◌∙◌, ◌⊎◌, inl, inr, Bool, true, false, Option, none, some, List, [], ◌∷◌,
  arith, if◌then◌else◌, Bool-cases, is_some, is_none, In, In-append_left, In-mapped, nat_eq, ◌==◌,
  String, subst,
}
use command_center.Store.Db.{
  Db, World, Result, ok, err, not_found, fault, RunRow, statement, returning, matched_row,
}
use command_center.Store.Atomic.{bind-ok, bind-err, statement-cases}
use command_center.Store.Queries.Runs.{
  insert_run_skeleton_query, insert_cut_failed_run_query, record_spawn_query,
  record_disposition_query, record_question_query, add_run, update_runs, is_open, has_id,
  disposed_row, spawned_row, skeleton_row, cut_failed_row,
}
use command_center.Store.Runs.{
  RunSkeleton, Spawn, Disposition, insert_session_run_skeleton, insert_cut_failed_run, record_spawn,
  record_disposition, record_question, update_one, disposition_params, spawn_params,
  skeleton_params, cut_failed_params,
}

matched_row_lem :
    (n : ℕ) (w : World) → matched_row n w ≡ ((if n == 0 then err not_found else ok tt), w)
unfolding matched_row
matched_row_lem n w = ground arith

-- The outcome of a statement that must find its row.
pub update_one-cases :
    (u : Db → ℕ × Db) (w : World)
    → ((ahead : List Bool) × (update_one u w ≡ (err fault, record { faults = ahead; db = w.db })))
      ⊎ ((ahead : List Bool) × (update_one u w ≡ (
        (if (u w.db).0 == 0 then err not_found else ok tt),
        record { faults = ahead; db = (u w.db).1 },
      )))
unfolding update_one
update_one-cases u w = elim (statement-cases (returning u) w) [
  | inl (ahead, e) ↦ inl (
    ahead,
    bind-err (statement (returning u)) matched_row w (record { faults = ahead; db = w.db }) fault e,
  )
  | inr (ahead, e) ↦
      let t : World = record { faults = ahead; db = (u w.db).1 } in
      inr (
        ahead,
        bind-ok (statement (returning u)) matched_row w t (u w.db).0 e
            ∙ matched_row_lem (u w.db).0 t,
      )
]

-- The runs of the operations that write runs. Every other operation leaves the table alone.
pub data RunStep : World → World → Type 0 where
  inserted :
      (uuid : String) (r : RunSkeleton) (w : World)
      → RunStep w (insert_session_run_skeleton uuid r w).1
  cut_failed : (r : RunSkeleton) (at : ℕ) (w : World) → RunStep w (insert_cut_failed_run r at w).1
  spawned : (s : Spawn) (w : World) → RunStep w (record_spawn s w).1
  disposed : (d : Disposition) (w : World) → RunStep w (record_disposition d w).1
  asked : (id : ℕ) (question : String) (w : World) → RunStep w (record_question id question w).1
  elsewhere : (w t : World) → t.db.runs ≡ w.db.runs → t.db.run_seq ≡ w.db.run_seq → RunStep w t

pub data History (w : World) : World → Type 0 where
  start : History w w
  next : {t u : World} → History w t → RunStep t u → History w u

-- The columns of a row that its disposition writes, with its id and its ticket.
abbrev pub SameEnd : RunRow → RunRow → Type 0
SameEnd r q =
    (q.id ≡ r.id)
    × (q.ticket ≡ r.ticket)
    × (q.outcome ≡ r.outcome)
    × (q.exit_code ≡ r.exit_code)
    × (q.ended_at ≡ r.ended_at)
    × (q.cost_usd ≡ r.cost_usd)
    × (q.last_message ≡ r.last_message)
    × (q.metrics ≡ r.metrics)

same_end : (r : RunRow) → SameEnd r r
same_end r = (refl, refl, refl, refl, refl, refl, refl, refl)

-- Every row with an outcome is still there, ended as it was.
abbrev pub Final : Db → Db → Type 0
Final d e =
    (r : RunRow) → In r d.runs → is_some r.outcome ≡ true → (q : RunRow) × In q e.runs × SameEnd r q

same-Final : (d e : Db) → e.runs ≡ d.runs → Final d e
same-Final d e k r i h = (r, subst (λ rows. In r rows) (sym k) i, same_end r)

written-SameEnd :
    (test : RunRow → Bool) (write : RunRow → RunRow) (r : RunRow)
    → (test r ≡ true → SameEnd r (write r))
    → SameEnd r (if test r then write r else r)
written-SameEnd test write r keep = elim (Bool-cases (test r)) [
  | inl y ↦ rw y (keep y)
  | inr n ↦ rw n (same_end r)
]

updated-Final :
    (test : RunRow → Bool) (write : RunRow → RunRow)
    → ((r : RunRow) → is_some r.outcome ≡ true → test r ≡ true → SameEnd r (write r))
    → (d : Db) → Final d (update_runs test write d).1
updated-Final test write keep d r i h = (
  (if test r then write r else r),
  In-mapped (λ q. if test q then write q else q) r d.runs i,
  written-SameEnd test write r (keep r h),
)

update_one-Final :
    (u : Db → ℕ × Db) (w : World) → Final w.db (u w.db).1 → Final w.db (update_one u w).1.db
update_one-Final u w f = elim (update_one-cases u w) [
  | inl (ahead, e) ↦ rw e (same-Final w.db w.db refl)
  | inr (ahead, e) ↦ rw e f
]

added-Final : (row : RunRow) (d : Db) → Final d (add_run row d)
added-Final row d r i h = (r, In-append_left r d.runs (row ∷ []) i, same_end r)

statement-Final :
    {A : Type 0} (run : Db → Result A × Db) (w : World)
    → Final w.db (run w.db).1
    → Final w.db (statement run w).1.db
statement-Final run w f = elim (statement-cases run w) [
  | inl (ahead, e) ↦ rw e (same-Final w.db w.db refl)
  | inr (ahead, e) ↦ rw e f
]

-- A row with an outcome is not what a disposition finds.
pub ended-is_open : (id : ℕ) (r : RunRow) → is_some r.outcome ≡ true → is_open id r ≡ false
ended-is_open id r h = elim (Bool-cases (r.id == id)) [
  | inl y ↦ rw y (ended-is_none r.outcome h)
  | inr n ↦ rw n refl
]
  where
    ended-is_none : (o : Option String) → is_some o ≡ true → is_none o ≡ false
    ended-is_none none h = cc
    ended-is_none (some x) h = refl

RunStep-Final : {w t : World} → RunStep w t → Final w.db t.db
unfolding insert_session_run_skeleton insert_cut_failed_run record_spawn record_disposition
    record_question insert_run_skeleton_query insert_cut_failed_run_query record_spawn_query
    record_disposition_query record_question_query
RunStep-Final (inserted uuid r w) =
    let run = insert_run_skeleton_query uuid (skeleton_params r) in
    statement-Final (returning run) w
      (added-Final (skeleton_row uuid (suc w.db.run_seq) (skeleton_params r)) w.db)
RunStep-Final (cut_failed r at w) =
    let run = insert_cut_failed_run_query (cut_failed_params r at) in
    statement-Final (returning run) w
      (added-Final (cut_failed_row (suc w.db.run_seq) (cut_failed_params r at)) w.db)
RunStep-Final (spawned s w) =
    update_one-Final (record_spawn_query (spawn_params s)) w
      (updated-Final (has_id s.run_id) (spawned_row (spawn_params s)) (λ r h k. same_end r) w.db)
RunStep-Final (disposed d w) =
    update_one-Final (record_disposition_query (disposition_params d)) w (
      updated-Final (is_open d.run_id) (disposed_row (disposition_params d))
        (λ r h k. ground (arith, ended-is_open d.run_id r h)) w.db)
RunStep-Final (asked id question w) =
    update_one-Final (record_question_query (some question) id) w (
      updated-Final (has_id id) (λ r. record r { question = some question }) (λ r h k. same_end r)
        w.db)
RunStep-Final (elsewhere w t k _) = same-Final w.db t.db k

then-Final : (d e f : Db) → Final d e → Final e f → Final d f
then-Final d e f p q r i h =
    let (s, j, same) = p r i h in
    let (t, k, again) = q s j (subst (λ o. is_some o ≡ true) (sym same.2) h) in
    (t, k, ground (arith, same, again))

-- In any history, a run that has an outcome keeps it, with the time, the exit code, the cost, the last
-- message and the metrics that were recorded with it: a run is disposed of once.
pub History-Final : (w t : World) → History w t → Final w.db t.db
History-Final w t start = same-Final w.db w.db refl
History-Final w t (next {t = u} h step) =
    then-Final w.db u.db t.db (History-Final w u h) (RunStep-Final step)
