-- ===== src/Loop/Tick.antt =====
-- internal/loop/loop.go: `RunOnce`, one tick of the loop.
use command_center.Prelude.{
  ℕ, String, ◌⧺◌, join, ◌⊎◌, inl, inr, List, [], ◌∷◌, map, if◌then◌else◌, is_empty, string_eq, Map,
  insert,
}
use command_center.Plan.Ids.{TicketUrl, Sha, BranchRef, branch_ref_eq}
use command_center.Plan.Spend.{Floats}
use command_center.Plan.Observation.{Observation, Daemon, rules_for, mark_alive}
use command_center.Plan.Input
use command_center.Plan.Snapshot.{Snapshot, skipping}
use command_center.Plan.Gates.{skipped_repos, repo_problems}
use command_center.Plan.Build.{derive}
use command_center.Store.Db.{Result, ok, err, Error, Payload, TicketRow, ◌>>=◌, ◌>>◌, pure, raise}
use command_center.Store.Events.{
  increment_checking_ticks, last_observation, save_observation, record_tick_error,
}
use command_center.Store.Launch.{apply_launch_intents}
use command_center.Store.Tickets.{tickets}
use command_center.Store.Repos.{prune_history}
use command_center.Store.Input.{plan_input}
use command_center.Loop.Machine.{
  LoopState, Act, Outside, Config, observe, branch_tip, in_store, ask, attempt, get_state, set_obs,
  now, checkout,
}
use command_center.Loop.Intents.{apply_cancel_intents, apply_kill_intents, interrupt_for_follow_ups}
use command_center.Loop.Runs.{observe_runs, reconcile_runs}
use command_center.Loop.Push.{push_pushable, apply_retry_push_intents}
use command_center.Loop.Launches.{launch_eligible}
use command_center.Loop.Refresh.{apply_abort_intents, apply_refresh_intents, seeing}
use command_center.Loop.Verbs.{
  FollowUpPayload, apply_follow_up_intents, apply_re_run_intents, apply_remove_worktree_intents,
}
use command_center.Loop.Outcomes.{record_transitions, apply_draft_gate, retarget_merged}
use command_center.Loop.Repos.{
  record_error_once, validate_cloning_repos, apply_track_intents, record_repo_states,
  apply_import_intents, apply_edit_ticket_intents,
}

unfoldable pub tickets_by_url : List TicketRow → Map TicketUrl TicketRow → Map TicketUrl TicketRow
tickets_by_url [] m = m
tickets_by_url (t ∷ ts) m = tickets_by_url ts (insert t.url t m)

abbrev pub url_of_row : TicketRow → TicketUrl
url_of_row t = t.url

unfoldable pub mark_each : List TicketUrl → Observation → Observation
unfolding mark_alive
mark_each [] obs = obs
mark_each (url ∷ urls) obs = mark_each urls (mark_alive obs url)

abbrev pub mark_spawned_alive : Act Unit
mark_spawned_alive s = set_obs (mark_each s.spawned s.obs) s

abbrev pub with_tip : BranchRef → String ⊎ Sha → Observation → Observation
with_tip b (inl e) obs = obs
with_tip b (inr tip) obs = record obs { local_tips = insert b tip obs.local_tips }

-- The parts of the loop that the model is given: `floats` and `hash` of the derivation, the readers of
-- JSON, the number of a utilization, the lower case of a name and the words of an error.
pub record Readers (F : Type 0) : Type 0 where
  pub floats : Floats F
  pub hash : String → String
  pub json : Payload → String
  pub decode : String → FollowUpPayload
  pub utilization : String → F
  pub no_utilization : F
  pub lower : String → String
  pub words : Error → String

module _ {F : Type 0} (o : Outside) (c : Config) (system_prompt : String) (r : Readers F) where
  unfoldable pub reread_each : List (BranchRef × String) → Act Unit
  reread_each [] = pure tt
  reread_each ((b, path) ∷ bs) = do
    answer ← attempt (branch_tip (checkout c b.repo) b.branch) o.sha
    s ← get_state
    set_obs (with_tip b answer s.obs)
    reread_each bs

  abbrev pub reread_local_tips : Act Unit
  reread_local_tips s = reread_each s.obs.worktrees s

  abbrev pub daemon : Daemon
  daemon = record {
    max_agents = c.max_agents;
    spend_limit_5h = c.spend_limit_5h;
    workflows = c.workflows;
  }

  abbrev pub current : Input.Input F → ℕ → LoopState → Input.Input F
  current input at s = record input { now = at; obs = s.obs; prev = s.prev }

  unfoldable pub derive_now : Act Snapshot
  unfolding plan_input derive rules_for
  derive_now = do
    input ← in_store (plan_input r.json r.utilization r.no_utilization)
    at ← now o
    s ← get_state
    pure (derive r.floats r.hash (rules_for daemon s.obs) (current input at s))

  abbrev pub keep_previous : Observation → Act Unit
  keep_previous prev s = (ok tt, record s { prev = prev })

  unfoldable pub absorb : Act (Map TicketUrl TicketRow)
  unfolding tickets tickets_by_url last_observation record_repo_states increment_checking_ticks
      apply_launch_intents apply_cancel_intents apply_kill_intents interrupt_for_follow_ups
      reconcile_runs save_observation
  absorb = do
    rows ← in_store tickets
    let by_url = tickets_by_url rows []
    seen ← in_store last_observation
    keep_previous seen.0
    record_repo_states o c r.json r.lower
    in_store (increment_checking_ticks (map url_of_row rows))
    at ← now o
    in_store (apply_launch_intents at)
    apply_cancel_intents o r.json
    apply_kill_intents o r.json
    interrupt_for_follow_ups o r.json
    reconcile_runs o c r.json by_url
    s ← get_state
    in_store (save_observation s.obs)
    pure by_url

  abbrev pub unskipped : Snapshot → LoopState → Snapshot
  unskipped snap s = skipping snap (skipped_repos (seeing o c snap s))

  abbrev pub act_on : Map TicketUrl TicketRow → Snapshot → Act Unit
  act_on by_url snap s =
      (push_pushable o c (unskipped snap s)
          >> apply_draft_gate o c snap
          >> launch_eligible o c system_prompt snap by_url)
        s

  unfoldable pub act : Map TicketUrl TicketRow → Snapshot → Act Unit
  unfolding record_transitions apply_re_run_intents apply_follow_up_intents apply_abort_intents
      mark_each retarget_merged apply_refresh_intents reread_each apply_retry_push_intents
      apply_remove_worktree_intents derive_now push_pushable launch_eligible skipping skipped_repos
  act by_url snap =
      record_transitions snap
      >> apply_re_run_intents o c system_prompt r.json r.decode snap by_url
      >> apply_follow_up_intents o c system_prompt r.json r.decode snap by_url
      >> apply_abort_intents o c r.json snap
      >> mark_spawned_alive
      >> retarget_merged o c snap
      >> apply_refresh_intents o c r.json snap
      >> reread_local_tips
      >> apply_retry_push_intents o c r.json snap
      >> apply_remove_worktree_intents o c system_prompt r.json r.decode snap
      >> derive_now
      >>= act_on by_url

  -- A failed tick is recorded by its words. The words of the error that comes out are those of both
  -- where the record fails too.
  abbrev pub fail_tick : Act Unit → Act Unit
  fail_tick m s = after_tick (m s)
    where
      after_tick : Result Unit × LoopState → Result Unit × LoopState
      after_tick (ok _, t) = (ok tt, t)
      after_tick (err e, t) = (record_error_once o c r.json r.lower (r.words e) >> raise e) t

  -- The steps before the observation.
  abbrev pub apply_requests : Act Unit
  apply_requests =
      apply_track_intents o c r.json r.lower
      >> validate_cloning_repos o c r.json r.lower
      >> apply_import_intents o c r.json r.lower
      >> apply_edit_ticket_intents o c r.json r.lower

  -- An error of the pruning is only logged.
  unfoldable pub prune : Act Unit
  unfolding prune_history
  prune s = (ok tt, ((now o >>= λ at. in_store (prune_history at)) s).1)

  abbrev pub begin_tick : Observation → Act Unit
  begin_tick obs s = (ok tt, record s { obs = obs; spawned = []; cancelled = [] })

  abbrev pub observe_all : Act Unit
  observe_all = do obs ← ask observe o.observation; begin_tick obs; observe_runs o c r.json

  -- A failed observation is recorded whatever the last error was.
  abbrev pub fail_observe : Act Unit → Act Unit
  fail_observe m s = after_observe (m s)
    where
      after_observe : Result Unit × LoopState → Result Unit × LoopState
      after_observe (ok _, t) = (ok tt, t)
      after_observe (err e, t) =
          ((now o >>= λ at.
          in_store (record_tick_error (record { at = at; message = "observe: " ⧺ r.words e })))
              >> raise e)
            t

  abbrev pub stamp : Act Unit
  stamp = do at ← now o; s ← get_state; set_obs (record s.obs { observed_at = at })

  abbrev pub record_problems : Snapshot → Act Unit
  record_problems snap s =
      (let parts = repo_problems (seeing o c snap s) in
          if is_empty parts
          then pure tt
          else record_error_once o c r.json r.lower (join "; " parts))
        s

  abbrev pub act_unskipped : Map TicketUrl TicketRow → Snapshot → Act Unit
  act_unskipped by_url snap s = act by_url (unskipped snap s) s

  abbrev pub advance : Act Unit
  advance = do by_url ← absorb; snap ← derive_now; record_problems snap; act_unskipped by_url snap

  unfoldable pub run_once : Act Unit
  unfolding prune apply_track_intents validate_cloning_repos apply_import_intents
      apply_edit_ticket_intents observe_runs record_tick_error absorb derive_now repo_problems
      record_error_once act
  run_once =
      prune >> fail_tick apply_requests >> fail_observe observe_all >> stamp >> fail_tick advance
