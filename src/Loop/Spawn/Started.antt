-- ===== src/Loop/Spawn/Started.antt =====
-- internal/loop/loop.go, `spawnRun`: one call starts at most one run.
use command_center.Prelude.{
  ℕ, ◌⊎◌, inl, inr, String, ◌⧺◌, Bool, [], ◌∷◌, ◌==◌, ◌||◌, arith, length-append, if◌then◌else◌,
  string_eq,
}
use command_center.Plan.Ids.{branch_ref_eq}
use command_center.Store.Db.{Result, ok, err, outside, ◌>>=◌, ◌>>◌, pure}
use command_center.Store.Events.{event_spawn_failed, event_run_launched}
use command_center.Store.Runs.{insert_session_run_skeleton, record_spawn, record_disposition}
use command_center.Loop.Machine.{
  Act, Done, Outside, Config, create_file, close_file, write_file, spawn, in_store, ask, attempt,
  now, event, run_file,
}
use command_center.Loop.Spawn.{
  SpawnSpec, agent_config, command_config, skeleton_of, prompt_of, write_prompt, system_prompt_for,
  after_close, closing, failed_spawn, add_spawned, after_spawn, spawn_process, spawn_with,
  spawn_run, launched_detail, with_workflow,
}
use command_center.Loop.Starts.{
  Starts, bind-Starts, if-Starts, in_store-Starts, now-Starts, pure-Starts, raise-Starts,
  more-Starts, ask-Starts, attempt-Starts, event-Starts, ask-pure-Starts,
}

module _ (o : Outside) (c : Config) (system_prompt : String) where
  write_prompt-Starts :
      (path prompt : String) (skipped : Bool)
      → Starts 0 (write_prompt o c system_prompt path prompt skipped)
  write_prompt-Starts path prompt skipped =
      if-Starts 0 skipped (pure tt) (ask (write_file path prompt) o.done >>= λ _. pure tt)
        (pure-Starts 0 tt) (ask-pure-Starts (write_file path prompt) o.done tt)

  system_prompt_for-Starts :
      (id : ℕ) (spec : SpawnSpec) → Starts 0 (system_prompt_for o c system_prompt id spec)
  unfolding system_prompt_for
  system_prompt_for-Starts id spec =
      let path = run_file c id "system.md" in
      if-Starts 0 (spec.step.prompt == "" || spec.step.command) (pure c.system_prompt_path)
        (ask (write_file path (system_prompt ⧺ "\n" ⧺ spec.step.prompt)) o.done >>= λ _. pure path)
        (pure-Starts 0 c.system_prompt_path)
        (ask-pure-Starts (write_file path (system_prompt ⧺ "\n" ⧺ spec.step.prompt)) o.done path)

  after_close-Starts : (r : Result Unit) (d : Done) → Starts 0 (after_close o c system_prompt r d)
  after_close-Starts r (inl e) = raise-Starts Unit 0 (outside e)
  after_close-Starts (err x) (inr _) = raise-Starts Unit 0 x
  after_close-Starts (ok a) (inr _) = pure-Starts 0 a

  closing-Starts :
      (n : ℕ) (path : String) (m : Act Unit)
      → Starts n m
      → Starts n (closing o c system_prompt path m)
  closing-Starts n path m h s =
      let last =
        bind-Starts 0 0 (attempt (close_file path) o.done) (after_close o c system_prompt (m s).0)
          (attempt-Starts (close_file path) o.done) (after_close-Starts (m s).0) (m s).1 in
      omega (arith, h s, last)

  after_spawn-Starts :
      (spec : SpawnSpec) (id : ℕ) (path : String) (r : String ⊎ ℕ)
      → Starts 1 (after_spawn o c system_prompt spec id path r)
  after_spawn-Starts spec id path (inl e) =
      let told : Act Unit = event o spec.ticket.url event_spawn_failed e in
      let saved : ℕ → Act Unit =
        λ at. in_store (record_disposition (failed_spawn o c system_prompt id at)) in
      more-Starts 0 1 (now o >>= λ at. saved at >> told) (omega arith) (
        bind-Starts 0 0 (now o) (λ at. saved at >> told) (now-Starts o)
          (λ at.
            bind-Starts 0 0 (saved at) (λ _. told)
              (in_store-Starts (record_disposition (failed_spawn o c system_prompt id at)))
              (λ _. event-Starts o spec.ticket.url event_spawn_failed e)))
  after_spawn-Starts spec id path (inr pid) =
      let told : Act Unit = event o spec.ticket.url event_run_launched (launched_detail spec pid) in
      let saved : ℕ → Act Unit = λ at.
        in_store
          (record_spawn (record { run_id = id; pgid = pid; started_at = at; log_path = path })) in
      let added : Act Unit = add_spawned o c system_prompt spec.ticket.url in
      bind-Starts 0 1 (now o) (λ at. saved at >> (added >> told)) (now-Starts o)
        (λ at.
          bind-Starts 0 1 (saved at) (λ _. added >> told)
            (in_store-Starts
              (record_spawn (record { run_id = id; pgid = pid; started_at = at; log_path = path })))
            (λ _.
              bind-Starts 1 0 added (λ _. told)
                (λ t. omega (arith, length-append t.spawned (spec.ticket.url ∷ [])))
                (λ _.
                  event-Starts o spec.ticket.url event_run_launched (launched_detail spec pid))))

  spawn_process-Starts :
      (spec : SpawnSpec) (id : ℕ) (session prompt system_path : String)
      → Starts 1 (spawn_process o c system_prompt spec id session prompt system_path)
  spawn_process-Starts spec id session prompt system_path =
      let log_path = run_file c id "jsonl" in
      let config =
        if spec.step.command
        then command_config o c system_prompt spec
        else agent_config o c system_prompt spec id session prompt system_path in
      bind-Starts 0 1 (attempt (spawn config) o.number)
        (after_spawn o c system_prompt spec id log_path) (attempt-Starts (spawn config) o.number)
        (after_spawn-Starts spec id log_path)

  made-Starts :
      (spec : SpawnSpec) (row : ℕ × String) (system_path : String)
      → Starts 1 (
          ask (create_file (run_file c row.0 "jsonl")) o.done >>= λ _.
          closing o c system_prompt (run_file c row.0 "jsonl") (
            spawn_process o c system_prompt spec row.0 row.1
              (prompt_of spec (run_file c row.0 "question"))
              system_path))
  made-Starts spec row system_path =
      let path = run_file c row.0 "jsonl" in
      let prompt = prompt_of spec (run_file c row.0 "question") in
      let body = spawn_process o c system_prompt spec row.0 row.1 prompt system_path in
      bind-Starts 0 1 (ask (create_file path) o.done) (λ _. closing o c system_prompt path body)
        (ask-Starts (create_file path) o.done)
        (λ _. closing-Starts 1 path body (spawn_process-Starts spec row.0 row.1 prompt system_path))

  abbrev written : SpawnSpec → ℕ × String → Act Unit
  written spec row =
      write_prompt o c system_prompt (run_file c row.0 "prompt")
        (prompt_of spec (run_file c row.0 "question")) spec.step.command
      >> (system_prompt_for o c system_prompt row.0 spec >>= λ system_path.
          ask (create_file (run_file c row.0 "jsonl")) o.done >>= λ _.
          closing o c system_prompt (run_file c row.0 "jsonl") (
            spawn_process o c system_prompt spec row.0 row.1
              (prompt_of spec (run_file c row.0 "question")) system_path))

  written-Starts : (spec : SpawnSpec) (row : ℕ × String) → Starts 1 (written spec row)
  written-Starts spec row =
      let prompt = prompt_of spec (run_file c row.0 "question") in
      let path = run_file c row.0 "jsonl" in
      let made : String → Act Unit = λ system_path. ask (create_file path) o.done >>= λ _.
      closing o c system_prompt path
        (spawn_process o c system_prompt spec row.0 row.1 prompt system_path) in
      bind-Starts 0 1
        (write_prompt o c system_prompt (run_file c row.0 "prompt") prompt spec.step.command)
        (λ _. system_prompt_for o c system_prompt row.0 spec >>= made)
        (write_prompt-Starts (run_file c row.0 "prompt") prompt spec.step.command)
        (λ _.
          bind-Starts 0 1 (system_prompt_for o c system_prompt row.0 spec) made
            (system_prompt_for-Starts row.0 spec) (made-Starts spec row))

  spawn_with-Starts :
      (uuid : String) (spec : SpawnSpec) → Starts 1 (spawn_with o c system_prompt uuid spec)
  spawn_with-Starts uuid spec =
      let inserted = insert_session_run_skeleton uuid (skeleton_of spec) in
      bind-Starts 0 1 (in_store inserted) (written spec) (in_store-Starts inserted)
        (written-Starts spec)

  pub spawn_run-Starts : (spec : SpawnSpec) → Starts 1 (spawn_run o c system_prompt spec)
  unfolding spawn_run
  spawn_run-Starts spec s = spawn_with-Starts (o.uuid s.calls) (with_workflow c spec) s
