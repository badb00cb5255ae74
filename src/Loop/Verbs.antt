-- ===== src/Loop/Verbs.antt =====
-- internal/loop/verbs.go: follow-ups, re-runs and the removal of worktrees.
use command_center.Prelude.{
  ℕ, String, ◌⧺◌, ◌⊎◌, inl, inr, Bool, true, false, Option, none, some, List, [], ◌∷◌,
  if◌then◌else◌, contains, string_eq, ◌==◌, ◌!=◌, Map, lookup, unwrap_or,
}
use command_center.Plan.Ids.{TicketUrl, Sha, branch_ref_eq}
use command_center.Plan.Vocab.{
  verb_follow_up, verb_re_run, verb_remove_worktree, run_kind_follow_up,
}
use command_center.Plan.Outcome.{Outcome, failed}
use command_center.Plan.Ticket.{Ticket, AgentChoice, ref, merged, pr_state_eq, default_base_branch}
use command_center.Plan.Compose.{compose_follow_up, compose_message}
use command_center.Plan.Status.{RunFact}
use command_center.Plan.Observation.{pr_at, is_alive, mark_alive}
use command_center.Plan.Input.{Entry, Intent}
use command_center.Plan.Snapshot.{Snapshot, Removal, entry, removal, session}
use command_center.Store.Db.{ok, outside, Payload, TicketRow, ◌>>=◌, ◌>>◌, pure, raise}
use command_center.Store.Events.{
  event_follow_up_refused, event_remove_worktree_refused, event_worktree_removed,
}
use command_center.Store.Input.{plan_ticket}
use command_center.Store.Tickets.{row_ref, withdraw_ticket}
use command_center.Loop.Machine.{
  Act, Done, Outside, Config, RemoveMode, remove_merged, remove_forced, RemovalState,
  removal_unknown, removable_by_merged, removable_by_force, not_removable, branch_tip,
  delete_branch, find_transcript, is_dirty, removal_state, remove_worktree, close_issue,
  remove_file, in_store, ask, attempt, set_obs, now, event, checkout, run_file, entry_or_zero,
}
use command_center.Loop.Intents.{Handled, handled, stays_pending, each_intent}
use command_center.Loop.Refresh.{idle_worktree_for}
use command_center.Loop.Spawn.{Start, SpawnSpec, zero_step, zero_workflow, start_of, spawn_run}
use command_center.Loop.Launches.{agent_spec, cut_and_spawn}

pub record FollowUpPayload : Type 0 where
  pub message : String
  pub model : String
  pub effort : String

-- The choice of the launch, with what the follow-up picks.
abbrev pub picked_choice : AgentChoice → FollowUpPayload → AgentChoice
picked_choice choice p =
    let chosen : AgentChoice =
      if p.model != "" then record choice { model = p.model } else choice in
    if p.effort != "" then record chosen { effort = some p.effort } else chosen

abbrev pub last_outcome : Option RunFact → Outcome
last_outcome none = failed
last_outcome (some run) = unwrap_or run.outcome failed

abbrev pub follow_up_spec : TicketRow → Entry → String → Sha → FollowUpPayload → SpawnSpec
follow_up_spec ticket e worktree baseline p = record {
  ticket = ticket;
  worktree = worktree;
  baseline = baseline;
  hash = "";
  prompt = compose_follow_up p.message;
  kind = run_kind_follow_up;
  choice = picked_choice e.ticket.choice p;
  resume_session_id = "";
  message = p.message;
  workflow = zero_workflow;
  step = zero_step;
  verify = [];
}

-- A session that can be resumed takes the message as its next prompt.
abbrev pub resuming : Entry → FollowUpPayload → String → SpawnSpec → SpawnSpec
resuming e p session_id spec =
    if session_id != ""
    then record spec {
      prompt = compose_message p.message (last_outcome e.run);
      resume_session_id = session_id;
    }
    else spec

abbrev pub base_or_default : String → String
base_or_default base = if base == "" then default_base_branch else base

abbrev pub removed_detail : RemoveMode → String
removed_detail remove_merged = ""
removed_detail remove_forced = "forced: origin ref pruned, branch at a proven tip"

-- `decode` reads the payload of a follow-up, which is JSON or a bare message.
module _ (o : Outside) (c : Config) (system_prompt : String) (json : Payload → String)
    (decode : String → FollowUpPayload) where
  abbrev pub found_session : String → Bool → String
  found_session id found = if found then id else ""

  -- Whether a project of claude holds the transcript of the session.
  unfoldable pub resumable_session : String → Act String
  resumable_session id =
      if id == ""
      then pure ""
      else ask (find_transcript c.projects_dir id) o.flag >>= λ found. pure (found_session id found)

  -- The run has started unless the spawn failed, which is an event.
  abbrev pub note_spawned : TicketUrl → Act Unit
  note_spawned url s =
      if contains s.spawned url then set_obs (mark_alive s.obs url) s else (ok tt, s)

  abbrev pub follow_up_in : Snapshot → TicketRow → FollowUpPayload → String ⊎ String → Act Handled
  follow_up_in snap ticket p (inl refusal) =
      event o ticket.url event_follow_up_refused refusal >> pure handled
  follow_up_in snap ticket p (inr worktree) = do
    baseline ← ask (branch_tip (checkout c ticket.repo) ticket.branch) o.sha
    let e = entry_or_zero snap ticket.url
    session_id ← resumable_session (unwrap_or (session snap ticket.url) "")
    spawn_run o c system_prompt
        (resuming e p session_id (follow_up_spec ticket e worktree baseline p))
    note_spawned ticket.url
    pure handled

  unfoldable pub follow_up_one : Snapshot → TicketRow → String → Act Handled
  unfolding is_alive idle_worktree_for event resumable_session spawn_run mark_alive
  follow_up_one snap ticket payload s =
      (if is_alive s.obs ticket.url
          then pure stays_pending
          else follow_up_in snap ticket (decode payload)
              (idle_worktree_for (plan_ticket ticket) s.obs))
        s

  abbrev pub follow_up_any : Snapshot → Intent → Option TicketRow → Act Handled
  follow_up_any snap i none = pure handled
  follow_up_any snap i (some ticket) = follow_up_one snap ticket i.payload

  unfoldable pub apply_follow_up_intents : Snapshot → Map TicketUrl TicketRow → Act Unit
  unfolding each_intent follow_up_one
  apply_follow_up_intents snap tickets =
      each_intent o json snap verb_follow_up (λ i. follow_up_any snap i (lookup i.ticket tickets))

  -- A ticket without a worktree is cut anew, after its stale branch is deleted.
  abbrev pub re_run_in : TicketRow → Entry → Start → Option String → Act Unit
  re_run_in ticket e begin none = do
    gone ← ask (delete_branch (checkout c ticket.repo) ticket.branch) o.done
    cut_and_spawn o c system_prompt ticket e.ticket (base_or_default e.unlock.base_branch)
        e.prompt_hash begin
  re_run_in ticket e begin (some worktree) = do
    baseline ← ask (branch_tip (checkout c ticket.repo) ticket.branch) o.sha
    spawn_run o c system_prompt
        (agent_spec o c system_prompt ticket e.ticket e.prompt_hash begin worktree baseline [])

  unfoldable pub re_run_one : TicketRow → Entry → Act Unit
  unfolding start_of cut_and_spawn spawn_run
  re_run_one ticket e s =
      re_run_in ticket e (start_of c e s.obs) (lookup (row_ref ticket) s.obs.worktrees) s

  abbrev pub re_run_any : Snapshot → Option TicketRow → Act Handled
  re_run_any snap none = pure handled
  re_run_any snap (some ticket) = re_run_one ticket (entry_or_zero snap ticket.url) >> pure handled

  unfoldable pub apply_re_run_intents : Snapshot → Map TicketUrl TicketRow → Act Unit
  unfolding each_intent re_run_one
  apply_re_run_intents snap tickets =
      each_intent o json snap verb_re_run (λ i. re_run_any snap (lookup i.ticket tickets))

  abbrev pub refuse_removal : TicketUrl → String → Act Unit
  refuse_removal url detail = event o url event_remove_worktree_refused detail

  -- The files of a run that are deleted; that one is not there is no error.
  unfoldable pub prune_files : List String → Act Unit
  prune_files [] = pure tt
  prune_files (path ∷ paths) = attempt (remove_file path) o.done >>= λ _. prune_files paths

  unfoldable pub prune_run_logs : List ℕ → Act Unit
  unfolding prune_files
  prune_run_logs [] = pure tt
  prune_run_logs (id ∷ ids) =
      prune_files (
        run_file c id "jsonl"
        ∷ run_file c id "prompt"
        ∷ run_file c id "handoff.md"
        ∷ run_file c id "system.md"
        ∷ [])
      >> prune_run_logs ids

  abbrev pub after_issue : Ticket → Bool → RemoveMode → Done → Act Unit
  after_issue t is_merged mode (inl e) = refuse_removal t.url e
  after_issue t is_merged mode (inr _) = do
    event o t.url event_worktree_removed (removed_detail mode)
    at ← now o
    runs ← in_store (withdraw_ticket t.url at is_merged)
    prune_run_logs runs

  abbrev pub close_and_withdraw : Ticket → Bool → RemoveMode → Act Unit
  close_and_withdraw t is_merged mode =
      attempt (close_issue (checkout c t.repo) t.url) o.done >>= after_issue t is_merged mode

  abbrev pub after_removal : Ticket → Bool → RemoveMode → Done → Act Unit
  after_removal t is_merged mode (inl e) = refuse_removal t.url e
  after_removal t is_merged mode (inr _) = close_and_withdraw t is_merged mode

  abbrev pub remove_as : Ticket → Bool → RemoveMode → Act Unit
  remove_as t is_merged mode =
      attempt (remove_worktree (checkout c t.repo) t.branch mode) o.done
      >>= after_removal t is_merged mode

  abbrev pub by_removal_state : Ticket → Bool → RemovalState → Act Unit
  by_removal_state t is_merged removable_by_merged = remove_as t is_merged remove_merged
  by_removal_state t is_merged removable_by_force = remove_as t is_merged remove_forced
  by_removal_state t is_merged not_removable =
      refuse_removal t.url "worktree holds unpushed commits"
  by_removal_state t is_merged removal_unknown =
      raise (outside ("check unpushed commits for " ⧺ t.url ⧺ ": removal state is unknown"))

  abbrev pub unless_dirty : Ticket → Bool → List Sha → Bool → Act Unit
  unless_dirty t is_merged tips true = refuse_removal t.url "worktree is dirty"
  unless_dirty t is_merged tips false =
      ask (removal_state (checkout c t.repo) t.branch tips) o.removal
      >>= by_removal_state t is_merged

  abbrev pub remove_from : Ticket → Bool → List Sha → Option String → Act Unit
  remove_from t is_merged tips none = close_and_withdraw t is_merged remove_merged
  remove_from t is_merged tips (some worktree) =
      ask (is_dirty worktree) o.flag >>= unless_dirty t is_merged tips

  unfoldable pub remove_worktree_one : Entry → Removal → Act Unit
  unfolding event pr_at withdraw_ticket prune_run_logs
  remove_worktree_one e r s =
      let t = e.ticket in
      let is_merged = (pr_at s.obs (ref t)).state == merged in
      (if r.refusal != ""
          then refuse_removal t.url r.refusal
          else remove_from t is_merged r.proven_tips (lookup (ref t) s.obs.worktrees))
        s

  abbrev pub remove_any : Snapshot → Option Entry → Act Handled
  remove_any snap none = pure handled
  remove_any snap (some e) = remove_worktree_one e (removal snap e.ticket.url) >> pure handled

  unfoldable pub apply_remove_worktree_intents : Snapshot → Act Unit
  unfolding each_intent remove_worktree_one removal entry
  apply_remove_worktree_intents snap =
      each_intent o json snap verb_remove_worktree (λ i. remove_any snap (entry snap i.ticket))
