-- ===== src/Loop/Push.antt =====
-- internal/loop/push.go: a branch is pushed to origin, and its pull request is opened.
pub mod Sent
use command_center.Prelude.{
  ℕ, String, ◌⧺◌, ◌⊎◌, inl, inr, Bool, not, ◌||◌, Option, none, some, List, [], ◌∷◌, if◌then◌else◌,
  unwrap_or, string_eq, ◌==◌, ◌!=◌, Map, lookup, trim_space,
}
use command_center.Plan.Ids.{TicketUrl, Sha, BranchRef, branch_ref_eq}
use command_center.Plan.Vocab.{verb_retry_push}
use command_center.Plan.Ticket.{ref, opened, pr_state_eq}
use command_center.Plan.Push.{push_refused}
use command_center.Plan.Observation.{pr_at}
use command_center.Plan.Input.{Entry, Intent, PushRow, RunSummary}
use command_center.Plan.Snapshot.{Snapshot, entry}
use command_center.Plan.Gates.{Push, push, pushable}
use command_center.Store.Db.{Result, ok, err, Payload, ◌>>=◌, ◌>>◌, pure}
use command_center.Store.Runs.{latest_runs_by_ticket}
use command_center.Store.Pushes.{record_push}
use command_center.Store.Events.{event_push_refused, event_push_failed, event_pushed}
use command_center.Loop.Machine.{
  LoopState, Act, Done, Outside, Config, Call, changed_paths, push_plain, push_restacked,
  is_ancestor, rev_parse, create_pr, read_file, in_store, ask, attempt, get_state, now, event,
  checkout, run_file, settings_of, entry_or_zero,
}
use command_center.Loop.Intents.{Handled, handled, each_intent}

-- The prefix that `wrapGit` puts before an error.
abbrev pub wrap_git : {A : Type 0} → String → String ⊎ A → String ⊎ A
wrap_git step (inl e) = inl (step ⧺ ": " ⧺ e)
wrap_git step (inr a) = inr a

abbrev pub last_pushed : Entry → Sha
last_pushed e = elim e.last_push [ none ↦ "" | some row ↦ row.pushed_tip ]

abbrev pub descends_error : String → Sha → String → String
descends_error branch tip e = "check " ⧺ branch ⧺ " descends from " ⧺ tip ⧺ ": " ⧺ e

abbrev pub pushed_detail : Sha → String → String
pushed_detail tip base = "pushed " ⧺ tip ⧺ " to origin/" ⧺ base

abbrev pub with_handoff : String → String → String
with_handoff stacked handoff =
    if handoff == "" then stacked else if stacked == "" then handoff else stacked ⧺ "\n\n" ⧺ handoff

-- A file that is not there, or cannot be read, is no handoff.
abbrev pub read_content : String ⊎ Option String → Option String
read_content (inl e) = none
read_content (inr c) = c

abbrev pub run_id_of : Option RunSummary → ℕ
run_id_of none = 0
run_id_of (some r) = r.id

module _ (o : Outside) (c : Config) where
  unfoldable pub read_handoff : ℕ → Act (Option String)
  read_handoff id = do
    answer ← attempt (read_file (run_file c id "handoff.md")) o.content
    pure (read_content answer)

  abbrev pub body_with : TicketUrl → String → Result (Map TicketUrl RunSummary) → Act String
  body_with url stacked (err e) = pure stacked
  body_with url stacked (ok latest) = do
    handoff ← read_handoff (run_id_of (lookup url latest))
    pure (with_handoff stacked (trim_space (unwrap_or handoff "")))

  unfoldable pub pr_body : TicketUrl → String → Act String
  unfolding read_handoff latest_runs_by_ticket
  pr_body url stacked s =
      let (latest, t) = in_store latest_runs_by_ticket s in body_with url stacked latest t

  abbrev pub plain_push : String → String → Act Done
  plain_push repo branch = do
    answer ← attempt (push_plain repo branch) o.done
    pure (wrap_git ("push " ⧺ branch) answer)

  abbrev pub forced_push : String → String → Sha → Act Done
  forced_push repo branch tip = do
    answer ← attempt (push_restacked repo branch tip) o.done
    pure (wrap_git ("force-push restacked " ⧺ branch) answer)

  -- The push of a restacked branch, by what `git` says of the recorded tip.
  abbrev pub restacked_push : String → String → Sha → String ⊎ Bool → Act Done
  restacked_push repo branch tip (inl e) = pure (inl (descends_error branch tip e))
  restacked_push repo branch tip (inr descended) =
      if descended then plain_push repo branch else forced_push repo branch tip

  unfoldable pub push_branch : String → String → Sha → Bool → Act Done
  push_branch repo branch tip restacked =
      if not restacked || tip == ""
      then plain_push repo branch
      else attempt (is_ancestor repo tip branch) o.flag >>= restacked_push repo branch tip

  abbrev pub record_pushed : Entry → Push → Act Unit
  record_pushed e p = do
    let base = e.unlock.base_branch
    base_sha ← ask (rev_parse (checkout c e.ticket.repo) ("origin/" ⧺ base)) o.sha
    at ← now o
    in_store (
        record_push (record {
          ticket = e.ticket.url;
          tip = p.local_tip;
          base_sha = base_sha;
          base_branch = base;
          at = at;
        }))
    event o e.ticket.url event_pushed (pushed_detail p.local_tip base)

  -- The rest of a step that failed with a text is an event, and of one that did not `next`.
  abbrev pub or_push_failed : Entry → Act Unit → Done → Act Unit
  or_push_failed e next (inl failed) = event o e.ticket.url event_push_failed failed
  or_push_failed e next (inr _) = next

  abbrev pub create_request : Entry → Push → Act Unit
  create_request e p = do
    s ← get_state
    body ← pr_body e.ticket.url p.body
    answer ←
        attempt
          (create_pr (unwrap_or (lookup (ref e.ticket) s.obs.worktrees) "") e.unlock.base_branch
            body p.opens_as_draft)
          o.done
    or_push_failed e (record_pushed e p) answer

  abbrev pub open_request : Entry → Push → Act Unit
  open_request e p = do
    s ← get_state
    if (pr_at s.obs (ref e.ticket)).state != opened then create_request e p else record_pushed e p

  abbrev pub push_allowed : Entry → Push → Act Unit
  push_allowed e p = do
    answer ← push_branch (checkout c e.ticket.repo) e.ticket.branch (last_pushed e) p.force
    or_push_failed e (open_request e p) answer

  abbrev pub push_unless_refused : Entry → Push → Option String → Act Unit
  push_unless_refused e p (some path) = event o e.ticket.url event_push_refused path
  push_unless_refused e p none = push_allowed e p

  unfoldable pub push_one : Entry → Push → Act Unit
  unfolding push_branch event record_push pr_body push_refused
  push_one e p = do
    let base = e.unlock.base_branch
    changed ←
        ask (changed_paths (checkout c e.ticket.repo) ("origin/" ⧺ base) e.ticket.branch) o.texts
    s ← get_state
    push_unless_refused e p
        (push_refused changed (record { deny = (settings_of s.obs e.ticket.repo).deny }))

  unfoldable pub push_loop : Snapshot → List Push → Act Unit
  unfolding push_one
  push_loop snap [] = pure tt
  push_loop snap (p ∷ ps) = push_one (entry_or_zero snap p.ticket) p >> push_loop snap ps

  unfoldable pub push_pushable : Snapshot → Act Unit
  unfolding push_loop pushable
  push_pushable snap s = push_loop snap (pushable snap s.obs) s

  abbrev pub push_any : Option Entry → Option Push → Act Handled
  push_any (some e) (some p) = push_one e p >> pure handled
  push_any e p = pure handled

  abbrev pub retry_push : Snapshot → Intent → Act Handled
  retry_push snap intent s = push_any (entry snap intent.ticket) (push snap intent.ticket s.obs) s

  unfoldable pub apply_retry_push_intents : (Payload → String) → Snapshot → Act Unit
  unfolding each_intent push_one
  apply_retry_push_intents json snap = each_intent o json snap verb_retry_push (retry_push snap)
