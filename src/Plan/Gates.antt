-- ===== src/Plan/Gates.antt =====
-- internal/plan/gates.go: what the loop may do to each ticket: pushes, retargets and refreshes.
pub mod Intents
pub mod Refreshes
pub mod Pushes
use command_center.Prelude.{
  zero, suc, String, ◌⧺◌, refl, Bool, true, false, not, ◌&&◌, ◌||◌, Option, none, some, List, [],
  ◌∷◌, ◌++◌, map, arith, ltb, if◌then◌else◌, unwrap_or, select, ◌==◌, ◌!=◌, nat_eq, string_eq,
  contains, Map, insert, get_or,
}
use command_center.Prelude.Sorting.{string_lt, sort_by}
use command_center.Plan.Ids.{TicketUrl, Sha, BranchRef, branch_ref_eq}
use command_center.Plan.Vocab.{Verb, verb_refresh, repo_ready, repo_refused, refusal_settings_parse}
use command_center.Plan.Outcome.{Outcome}
use command_center.Plan.Ticket.{ref, opened, merged, pr_state_eq, default_base_branch}
use command_center.Plan.Status.{RunFact}
use command_center.Plan.Push.{pr_body}
use command_center.Plan.Observation.{Observation, pr_at, is_alive, tip_at, local_tip_at}
use command_center.Plan.Repos.{RepoStatus}
use command_center.Plan.Input.{
  Entry, Intent, PushRow, RefreshFact, ConflictAt, zero_push_row, zero_refresh_fact, holds_worktree,
  run_ended_as,
}
use command_center.Plan.Snapshot.{Snapshot, entry}

pub record Push : Type 0 where
  pub ticket : TicketUrl
  pub local_tip : Sha
  pub force : Bool
  pub opens_as_draft : Bool
  pub body : String

pub record Retarget : Type 0 where
  pub ticket : TicketUrl
  pub row : PushRow

pub record Refresh : Type 0 where
  pub ticket : TicketUrl
  pub row : PushRow
  pub requested : Bool

abbrev pub push_of : TicketUrl → Observation → Entry → Push
push_of url o e =
    let base : BranchRef = record { repo = e.ticket.repo; branch = e.unlock.base_branch } in
    record {
      ticket = url;
      local_tip = local_tip_at o (ref e.ticket);
      force = e.restacked;
      opens_as_draft = e.opens_as_draft;
      body = pr_body base.branch (pr_at o base).number;
    }

-- The push of an unlocked ticket that has a local tip.
unfoldable pub push : Snapshot → TicketUrl → Observation → Option Push
push s url o = elim (entry s url) [
  | none ↦ none
  | some e ↦
      if not e.unlock.unlocked
      then none
      else if local_tip_at o (ref e.ticket) == ""
      then none
      else some (push_of url o e)
]

abbrev pub push_held : Option RunFact → Bool
push_held none = false
push_held (some run) = run.push_failed || run.push_refused || run.verification_failed

abbrev pub was_pushed_at : Option PushRow → Sha → Bool
was_pushed_at none tip = false
was_pushed_at (some row) tip = row.pushed_tip == tip

-- The push of an entry that `Pushable` appends, if any.
unfoldable pub pushable_entry : Snapshot → Observation → Entry → Option Push
pushable_entry s o e =
    if not (run_ended_as e.run Outcome.push) || is_alive o e.ticket.url
    then none
    else if push_held e.run
    then none
    else elim (push s e.ticket.url o) [
      | none ↦ none
      | some p ↦ if was_pushed_at e.last_push p.local_tip then none else some p
    ]

unfoldable pub pushable_loop : Snapshot → Observation → List Entry → List Push
unfolding pushable_entry
pushable_loop s o [] = []
pushable_loop s o (e ∷ es) =
    let rest = pushable_loop s o es in
    elim (pushable_entry s o e) [ none ↦ rest | some p ↦ p ∷ rest ]

unfoldable pub pushable : Snapshot → Observation → List Push
unfolding pushable_loop
pushable s o = pushable_loop s o s.entries

unfoldable pub retarget_entry : Observation → Entry → Option Retarget
retarget_entry o e = if holds_worktree e then none else elim e.last_push [
  | none ↦ none
  | some row ↦
      let base : BranchRef = record { repo = e.ticket.repo; branch = row.base_branch } in
      if row.base_branch == "" || row.base_branch == default_base_branch
      then none
      else if (pr_at o (ref e.ticket)).state == opened && (pr_at o base).state == merged
      then some (record { ticket = e.ticket.url; row = row })
      else none
]

unfoldable pub retarget_loop : Observation → List Entry → List Retarget
unfolding retarget_entry
retarget_loop o [] = []
retarget_loop o (e ∷ es) =
    let rest = retarget_loop o es in elim (retarget_entry o e) [ none ↦ rest | some x ↦ x ∷ rest ]

-- The open pull requests stacked on a base whose pull request has merged.
unfoldable pub retargets : Snapshot → List Retarget
unfolding retarget_loop
retargets s = retarget_loop s.obs s.entries

unfoldable pub all_intents : Map TicketUrl (List Intent) → List Intent
all_intents [] = []
all_intents ((url, is) ∷ m) = is ++ all_intents m

unfoldable pub intents_of : Snapshot → Verb → List Intent
unfolding all_intents
intents_of s verb =
    sort_by (λ (a b : Intent). ltb a.id b.id)
      (select (λ (x : Intent). x.verb == verb) (all_intents s.intents))

-- The test of the tip that the last refresh met: it conflicted, and a side has moved since.
unfoldable pub worth_another_try : Observation → Entry → Sha → RefreshFact → Bool
worth_another_try o e base_tip fact = if not fact.tried then true else elim fact.conflict [
  | none ↦ false
  | some at ↦ tip_at o (ref e.ticket) != at.branch_tip || base_tip != at.base_tip
]

unfoldable pub auto_refreshable : Snapshot → Entry → Bool
unfolding worth_another_try
auto_refreshable s e = if not (run_ended_as e.run Outcome.push) then false else elim e.last_push [
  | none ↦ false
  | some row ↦
      let base_tip = tip_at s.obs (record { repo = e.ticket.repo; branch = row.base_branch }) in
      if (pr_at s.obs (ref e.ticket)).state != opened
      then false
      else if row.base_branch == "" || base_tip == row.base_sha_at_push
      then false
      else worth_another_try s.obs e base_tip (get_or e.ticket.url zero_refresh_fact s.refreshes)
]

-- The loop over the intents; `requested` are the tickets that it has met.
unfoldable pub requested_loop :
    Snapshot → List TicketUrl → List Intent → List Refresh × List TicketUrl
requested_loop s requested [] = ([], requested)
requested_loop s requested (x ∷ xs) =
    let skipped = requested_loop s requested xs in
    let more = requested_loop s (x.ticket ∷ requested) xs in
    elim (entry s x.ticket) [
      | none ↦ skipped
      | some e ↦ if contains requested x.ticket then skipped else (
        record { ticket = x.ticket; row = unwrap_or e.last_push zero_push_row; requested = true }
            ∷ more.0,
        more.1,
      )
    ]

-- The loop over the entries. An entry that is refreshed here has a last push.
unfoldable pub automatic_loop : Snapshot → List TicketUrl → List Entry → List Refresh
unfolding auto_refreshable
automatic_loop s requested [] = []
automatic_loop s requested (e ∷ es) =
    let rest = automatic_loop s requested es in
    if contains requested e.ticket.url || not (auto_refreshable s e)
    then rest
    else elim e.last_push [
      | none ↦ rest
      | some row ↦ record { ticket = e.ticket.url; row = row; requested = false } ∷ rest
    ]

-- The requested refreshes in the order of the intents, then the automatic ones.
unfoldable pub refreshes : Snapshot → List Refresh
unfolding intents_of requested_loop automatic_loop
refreshes s =
    let (asked, requested) = requested_loop s [] (intents_of s verb_refresh) in
    asked ++ automatic_loop s requested s.entries

unfoldable pub skip_phases : List RepoStatus → Map String Bool → Map String Bool
skip_phases [] m = m
skip_phases (x ∷ xs) m = skip_phases xs (if x.phase != repo_ready then insert x.name true m else m)

unfoldable pub skip_errors : Map String String → Map String Bool → Map String Bool
skip_errors [] m = m
skip_errors ((repo, reason) ∷ es) m = skip_errors es (insert repo true m)

-- The repositories that a tick leaves out.
unfoldable pub skipped_repos : Snapshot → Map String Bool
unfolding skip_phases skip_errors
skipped_repos s =
    skip_errors s.obs.repo_errors (skip_errors s.obs.settings_errors (skip_phases s.repos []))

unfoldable pub refused_parts : List RepoStatus → List String
refused_parts [] = []
refused_parts (x ∷ xs) =
    let rest = refused_parts xs in
    if x.phase == repo_refused && x.refusal_kind != refusal_settings_parse
    then (x.name ⧺ " refused (" ⧺ x.refusal_kind ⧺ "): " ⧺ x.refusal) ∷ rest
    else rest

unfoldable pub repo_problems : Snapshot → List String
unfolding refused_parts
repo_problems s = sort_by string_lt (
    map (λ e. "settings for " ⧺ e.0 ⧺ ": " ⧺ e.1) s.obs.settings_errors
    ++ map (λ e. "observe " ⧺ e.0 ⧺ ": " ⧺ e.1) s.obs.repo_errors
    ++ refused_parts s.repos)
