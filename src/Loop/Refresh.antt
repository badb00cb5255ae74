-- ===== src/Loop/Refresh.antt =====
-- internal/loop/refresh.go and the merge verbs of verbs.go: a branch is brought up to date with its base,
-- and a merge that was left is given up.
use command_center.Prelude.{
  ℕ, zero, suc, String, ◌⧺◌, trim_space, ◌⊎◌, inl, inr, Bool, true, false, not, ◌&&◌, Option, none,
  some, List, [], ◌∷◌, if◌then◌else◌, is_some, select, string_eq, ◌==◌, ◌!=◌, Map, lookup,
}
use command_center.Plan.Ids.{TicketUrl, Sha, BranchRef, branch_ref_eq}
use command_center.Plan.Vocab.{verb_abort, verb_refresh}
use command_center.Plan.Ticket.{Ticket, ref, merged, pr_state_eq}
use command_center.Plan.Observation.{Observation, pr_at, tip_at, is_alive, is_mid_merge}
use command_center.Plan.Input.{Entry, Intent, PushRow, holds_worktree}
use command_center.Plan.Snapshot.{Snapshot, entry, held_worktree_refusal}
use command_center.Plan.Gates.{Refresh, refreshes, intents_of}
use command_center.Store.Db.{outside, Payload, ◌>>=◌, ◌>>◌, pure, raise}
use command_center.Store.Events.{
  event_merge_abort_failed, event_merge_aborted, event_refresh_refused, event_refresh_conflicted,
  event_refreshed, event_restacked, event_verification_failed,
}
use command_center.Loop.Machine.{
  LoopState, Act, Done, Outside, Config, merge_abort, merge_ff_only, merge_ref, rebase_onto,
  is_ancestor, mid_merge, run_command, attempt, get_state, set_obs, event, settings_of,
  entry_or_zero,
}
use command_center.Loop.Intents.{Handled, handled, each_intent, consume_each}
use command_center.Loop.Push.{wrap_git}

-- The worktree of a ticket without a live run, or why there is none.
unfoldable pub idle_worktree_for : Ticket → Observation → String ⊎ String
unfolding is_alive
idle_worktree_for t obs = elim (lookup (ref t) obs.worktrees) [
  | none ↦ inl ("no worktree for " ⧺ t.branch)
  | some worktree ↦
      if is_alive obs t.url then inl ("a run is alive in " ⧺ worktree) else inr worktree
]

-- The key of a map of branches is taken out.
abbrev pub without_branch : BranchRef → Map BranchRef Bool → Map BranchRef Bool
without_branch b m = select (λ e. not (e.0 == b)) m

abbrev pub not_mid_merge : BranchRef → Observation → Observation
not_mid_merge b obs = record obs { mid_merge = without_branch b obs.mid_merge }

-- Where the commits of a branch begin that are not of its old base.
unfoldable pub restack_boundary : String → PushRow → Observation → Sha
unfolding pr_at
restack_boundary repo row obs =
    let pr = pr_at obs (record { repo = repo; branch = row.base_branch }) in
    if row.base_branch == ""
    then ""
    else if pr.state == merged && pr.head_oid != ""
    then pr.head_oid
    else row.base_sha_at_push

unfoldable pub conflict_detail : Sha → Sha → String → String
conflict_detail branch_tip base_tip message = branch_tip ⧺ " " ⧺ base_tip ⧺ " " ⧺ message

abbrev pub of_ticket : TicketUrl → Intent → Bool
of_ticket url i = i.ticket == url

abbrev pub ticket_intents : Snapshot → TicketUrl → List Intent
ticket_intents snap url = select (of_ticket url) (intents_of snap verb_refresh)

abbrev pub is_orphan : Snapshot → Intent → Bool
is_orphan snap i = not (is_some (entry snap i.ticket))

abbrev pub orphan_intents : Snapshot → List Intent
orphan_intents snap = select (is_orphan snap) (intents_of snap verb_refresh)

-- What `advanceOnto` returns: whether it restacked, its detail, and an error's text.
pub record Advance : Type 0 where
  pub restacked : Bool
  pub detail : String
  pub failed : Option String

abbrev pub failure : Done → Option String
failure (inl e) = some e
failure (inr _) = none

abbrev pub restacked_onto : String → Sha → String
restacked_onto base_ref boundary =
    "restacked onto " ⧺ base_ref ⧺ ", dropping everything up to " ⧺ boundary

abbrev pub ancestor_error : Sha → String → String → String
ancestor_error boundary base_ref e =
    "check " ⧺ boundary ⧺ " is an ancestor of " ⧺ base_ref ⧺ ": " ⧺ e

-- The detail of a failed verification: at most 4000 characters of it.
abbrev pub max_verify_detail : ℕ
max_verify_detail = 4000

-- The first `n` characters of a longer text, with a mark. Go counts bytes.
unfoldable pub shorten : ℕ → String → String
shorten n String.[] = ""
shorten zero (String.◌∷◌ x s) = " …(truncated)"
shorten (suc n) (String.◌∷◌ x s) = String.◌∷◌ x (shorten n s)

module _ (o : Outside) (c : Config) where
  abbrev pub aborted : Ticket → Done → Act Unit
  aborted t (inl e) = event o t.url event_merge_abort_failed e
  aborted t (inr _) = do
    s ← get_state
    set_obs (not_mid_merge (ref t) s.obs)
    event o t.url event_merge_aborted ""

  abbrev pub abort_in : Ticket → String ⊎ String → Act Unit
  abort_in t (inl refusal) = event o t.url event_merge_abort_failed refusal
  abort_in t (inr worktree) = attempt (merge_abort worktree) o.done >>= aborted t

  unfoldable pub abort_one : Ticket → Act Unit
  unfolding idle_worktree_for event
  abort_one t s = abort_in t (idle_worktree_for t s.obs) s

  abbrev pub abort_any : Option Entry → Act Handled
  abort_any none = pure handled
  abort_any (some e) = abort_one e.ticket >> pure handled

  unfoldable pub apply_abort_intents : (Payload → String) → Snapshot → Act Unit
  unfolding each_intent abort_one entry
  apply_abort_intents json snap =
      each_intent o json snap verb_abort (λ i. abort_any (entry snap i.ticket))

  abbrev pub advanced : Bool → String → Done → Act Advance
  advanced restacked detail r =
      pure (record { restacked = restacked; detail = detail; failed = failure r })

  abbrev pub merge_base : String → String → Act Advance
  merge_base worktree base_ref = attempt (merge_ref worktree base_ref) o.done >>= λ r.
      advanced false base_ref (wrap_git ("merge " ⧺ base_ref) r)

  abbrev pub rebase_base : String → String → Sha → Act Advance
  rebase_base worktree base_ref boundary =
      attempt (rebase_onto worktree base_ref boundary) o.done >>= λ r.
      advanced true (restacked_onto base_ref boundary) (wrap_git ("rebase onto " ⧺ base_ref) r)

  -- Where the boundary is still in the base, its commits stay.
  abbrev pub by_boundary : String → String → Sha → String ⊎ Bool → Act Advance
  by_boundary worktree base_ref boundary (inl e) =
      advanced false "" (inl (ancestor_error boundary base_ref e))
  by_boundary worktree base_ref boundary (inr kept) =
      if kept then merge_base worktree base_ref else rebase_base worktree base_ref boundary

  unfoldable pub advance_onto : String → String → String → PushRow → Act Advance
  unfolding restack_boundary
  advance_onto worktree repo base row s =
      let base_ref = "origin/" ⧺ base in
      let boundary = restack_boundary repo row s.obs in
      (if boundary == ""
          then merge_base worktree base_ref
          else attempt (is_ancestor worktree boundary base_ref) o.flag
            >>= by_boundary worktree base_ref boundary)
        s

  -- `answer` is the command's error with its output.
  abbrev pub verified : Ticket → Done → Act Unit
  verified t (inr _) = pure tt
  verified t (inl e) =
      event o t.url event_verification_failed (shorten max_verify_detail (trim_space e))

  unfoldable pub verify_one : Ticket → String → List String → Act Unit
  unfolding event trim_space shorten
  verify_one t worktree [] = pure tt
  verify_one t worktree (program ∷ arguments) =
      attempt (run_command worktree (program ∷ arguments)) o.done >>= verified t

  abbrev pub refuse : TicketUrl → Bool → String → Act Unit
  refuse url requested detail =
      if requested then event o url event_refresh_refused detail else pure tt

  abbrev pub note_restacked : TicketUrl → Advance → Act Unit
  note_restacked url a =
      if a.restacked then event o url event_restacked (a.detail ⧺ ", conflicted") else pure tt

  -- An advance that failed: it is a conflict where git is in the middle of a merge.
  abbrev pub conflicted : Ticket → String → Advance → String → String ⊎ Bool → Act Unit
  conflicted t base a e (inl mid) = raise (outside (e ⧺ "\n" ⧺ mid))
  conflicted t base a e (inr false) = raise (outside e)
  conflicted t base a e (inr true) = do
    note_restacked t.url a
    s ← get_state
    event o t.url event_refresh_conflicted (
        conflict_detail (tip_at s.obs (ref t))
          (tip_at s.obs (record { repo = t.repo; branch = base })) e)

  abbrev pub refreshed : Ticket → String → Advance → Act Unit
  refreshed t worktree a = do
    event o t.url (if a.restacked then event_restacked else event_refreshed)
        ("merged origin/" ⧺ t.branch ⧺ " then " ⧺ a.detail)
    s ← get_state
    verify_one t worktree (settings_of s.obs t.repo).verify_command

  abbrev pub after_advance : Ticket → String → String → Advance → Option String → Act Unit
  after_advance t worktree base a none = refreshed t worktree a
  after_advance t worktree base a (some e) =
      attempt (mid_merge worktree) o.flag >>= conflicted t base a e

  -- The branch is at its own origin; now it is brought onto its base.
  abbrev pub advance_entry : Entry → Ticket → PushRow → Bool → String → Act Unit
  advance_entry e t row requested worktree =
      if not e.unlock.unlocked
      then refuse t.url requested e.unlock.reason
      else advance_onto worktree t.repo e.unlock.base_branch row >>= λ a.
          after_advance t worktree e.unlock.base_branch a a.failed

  abbrev pub after_fast_forward : Entry → Ticket → PushRow → Bool → String → Done → Act Unit
  after_fast_forward e t row requested worktree (inl x) = event o t.url event_refresh_refused x
  after_fast_forward e t row requested worktree (inr _) = advance_entry e t row requested worktree

  abbrev pub mid_merge_refusal : String → String
  mid_merge_refusal worktree = worktree ⧺ " is left mid-merge; abort or commit it first"

  abbrev pub refresh_in : Entry → Ticket → PushRow → Bool → String ⊎ String → Act Unit
  refresh_in e t row requested (inl refusal) = refuse t.url requested refusal
  refresh_in e t row requested (inr worktree) = do
    s ← get_state
    if is_mid_merge s.obs (ref t)
        then refuse t.url requested (mid_merge_refusal worktree)
        else (attempt (merge_ff_only worktree ("origin/" ⧺ t.branch)) o.done
            >>= after_fast_forward e t row requested worktree)

  unfoldable pub refresh_one : Snapshot → Ticket → PushRow → Bool → Act Unit
  unfolding idle_worktree_for is_mid_merge advance_onto verify_one tip_at conflict_detail event
      holds_worktree
  refresh_one snap t row requested s =
      let e = entry_or_zero snap t.url in
      (if holds_worktree e
          then refuse t.url requested held_worktree_refusal
          else refresh_in e t row requested (idle_worktree_for t s.obs))
        s

  abbrev pub keep_handled : Intent → Act Handled
  keep_handled i = pure handled

  abbrev pub consume_asked : (Payload → String) → Snapshot → Refresh → Act Unit
  consume_asked json snap r =
      if r.requested
      then consume_each o json (ticket_intents snap r.ticket) keep_handled
      else pure tt

  unfoldable pub refresh_each : (Payload → String) → Snapshot → List Refresh → Act Unit
  unfolding refresh_one consume_each
  refresh_each json snap [] = pure tt
  refresh_each json snap (r ∷ rs) = do
    refresh_one snap (entry_or_zero snap r.ticket).ticket r.row r.requested
    consume_asked json snap r
    refresh_each json snap rs

  -- The snapshot reads the maps of the observation as they are now.
  abbrev pub seeing : Snapshot → LoopState → Snapshot
  seeing snap s = record snap { obs = s.obs }

  unfoldable pub apply_refresh_intents : (Payload → String) → Snapshot → Act Unit
  unfolding refresh_each refreshes consume_each
  apply_refresh_intents json snap s =
      (refresh_each json snap (refreshes (seeing snap s))
          >> consume_each o json (orphan_intents snap) keep_handled)
        s
