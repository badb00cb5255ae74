-- ===== src/Loop/Outcomes.antt =====
-- internal/loop/events.go: transitions are recorded, drafts are un-drafted, and the pull requests on a
-- merged base are pointed at main.
use command_center.Prelude.{
  String, ◌⧺◌, inl, inr, Bool, true, false, ◌||◌, List, [], ◌∷◌, if◌then◌else◌, string_eq,
}
use command_center.Plan.Ticket.{Ticket, default_base_branch}
use command_center.Plan.Transitions.{
  Transition, TransitionKind, transition_opened, transition_merged, transition_checks_landed,
  transition_verdict,
}
use command_center.Plan.Input.{Entry, PushRow}
use command_center.Plan.Snapshot.{Snapshot}
use command_center.Plan.Gates.{Retarget, retargets}
use command_center.Store.Db.{◌>>=◌, ◌>>◌, pure}
use command_center.Store.Pushes.{record_push}
use command_center.Store.Events.{
  EventKind, event_pr_opened, event_pr_merged, event_checks_landed, event_verdict_transition,
  event_draft_ready, event_draft_ready_failed, event_retargeted, event_retarget_failed, plain_event,
  append_event, save_last_verdicts,
}
use command_center.Loop.Machine.{
  Act, Done, Outside, Config, ready_pr, edit_pr, in_store, attempt, now, event, checkout,
  entry_or_zero,
}
use command_center.Loop.Refresh.{refresh_one, seeing}

-- The map `transitionEvents`, which has an event for each kind.
unfoldable pub transition_event : TransitionKind → EventKind
transition_event transition_opened = event_pr_opened
transition_event transition_merged = event_pr_merged
transition_event transition_checks_landed = event_checks_landed
transition_event transition_verdict = event_verdict_transition

abbrev pub is_verdict : TransitionKind → Bool
is_verdict transition_verdict = true
is_verdict k = false

unfoldable pub has_verdict : List Transition → Bool
has_verdict [] = false
has_verdict (t ∷ ts) = is_verdict t.kind || has_verdict ts

unfoldable pub append_transitions : List Transition → Act Unit
unfolding append_event transition_event
append_transitions [] = pure tt
append_transitions (t ∷ ts) =
    in_store (append_event (plain_event t.at t.ticket (transition_event t.kind) t.detail))
    >> append_transitions ts

unfoldable pub record_transitions : Snapshot → Act Unit
unfolding append_transitions has_verdict save_last_verdicts
record_transitions snap =
    append_transitions snap.transitions
    >> (if has_verdict snap.transitions
        then in_store (save_last_verdicts snap.verdicts)
        else pure tt)

abbrev pub retargeted_detail : Ticket → PushRow → String
retargeted_detail t row =
    "re-pointed " ⧺ t.branch ⧺ " from " ⧺ row.base_branch ⧺ " at " ⧺ default_base_branch
    ⧺ ", which merged"

module _ (o : Outside) (c : Config) where
  abbrev pub after_ready : Ticket → Done → Act Unit
  after_ready t (inl e) = event o t.url event_draft_ready_failed e
  after_ready t (inr _) = event o t.url event_draft_ready ""

  unfoldable pub ready_one : Ticket → Act Unit
  unfolding event
  ready_one t = attempt (ready_pr (checkout c t.repo) t.branch) o.done >>= after_ready t

  unfoldable pub ready_each : List Entry → Act Unit
  unfolding ready_one
  ready_each [] = pure tt
  ready_each (e ∷ es) =
      (if e.ready_to_undraft then ready_one e.ticket else pure tt) >> ready_each es

  abbrev pub apply_draft_gate : Snapshot → Act Unit
  apply_draft_gate snap = ready_each snap.entries

  abbrev pub after_edit : Snapshot → Ticket → PushRow → Done → Act Unit
  after_edit snap t row (inl e) = event o t.url event_retarget_failed e
  after_edit snap t row (inr _) = do
    at ← now o
    in_store (
        record_push (record {
          ticket = t.url;
          tip = row.pushed_tip;
          base_sha = row.base_sha_at_push;
          base_branch = default_base_branch;
          at = at;
        }))
    event o t.url event_retargeted (retargeted_detail t row)
    refresh_one o c snap t row false

  unfoldable pub retarget_one : Snapshot → Ticket → PushRow → Act Unit
  unfolding event record_push refresh_one
  retarget_one snap t row =
      attempt (edit_pr (checkout c t.repo) t.branch default_base_branch) o.done
      >>= after_edit snap t row

  unfoldable pub retarget_each : Snapshot → List Retarget → Act Unit
  unfolding retarget_one
  retarget_each snap [] = pure tt
  retarget_each snap (r ∷ rs) =
      retarget_one snap (entry_or_zero snap r.ticket).ticket r.row >> retarget_each snap rs

  unfoldable pub retarget_merged : Snapshot → Act Unit
  unfolding retarget_each retargets
  retarget_merged snap s = retarget_each snap (retargets (seeing o c snap s)) s
