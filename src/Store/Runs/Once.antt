-- ===== src/Store/Runs/Once.antt =====
-- internal/store/runs.go: the ids of the runs, and that a run is disposed of at most once.
use command_center.Prelude.{
  ℕ, suc, ◌≤◌, ◌<◌, ◌≡◌, Bool, true, false, List, [], ◌∷◌, is_some, All, nat_eq,
}
use command_center.Store.Db.{Db, RunRow}
use command_center.Store.Queries.Runs.{add_run, update_runs, is_open}
use command_center.Store.Runs.History.{History}

-- The ids of the rows ascend, above `lo` and up to `hi`.
abbrev pub NumberedFrom : ℕ → ℕ → List RunRow → Type 0
NumberedFrom lo hi [] = lo ≤ hi
NumberedFrom lo hi (r ∷ rs) = (lo < r.id) × NumberedFrom r.id hi rs

abbrev pub Numbered : Db → Type 0
Numbered d = NumberedFrom 0 d.run_seq d.runs

-- What a step leaves: the database before, that with a row added under the next id, or that with
-- rows updated, whose ids and outcomes stay or come to be.
pub data Left (d : Db) : Db → Type 0 where
  unchanged : {e : Db} → e.runs ≡ d.runs → e.run_seq ≡ d.run_seq → Left d e
  added : (r : RunRow) → r.id ≡ suc d.run_seq → Left d (add_run r d)
  updated :
      (test : RunRow → Bool) (write : RunRow → RunRow)
      → ((r : RunRow) → (write r).id ≡ r.id)
      → ((r : RunRow) → is_some r.outcome ≡ true → is_some (write r).outcome ≡ true)
      → Left d (update_runs test write d).1

-- A disposition of the run finds no row.
abbrev pub Closed : ℕ → Db → Type 0
Closed id d = All (λ (r : RunRow). is_open id r ≡ false) d.runs
