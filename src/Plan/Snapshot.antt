-- ===== src/Plan/Snapshot.antt =====
-- internal/plan/derive.go and gates.go: the snapshot of a derivation, and its reads. `Entry` indexes
-- the entries by the positions of `by_url`; a position outside them panics in Go and is `none` here.
pub mod Skipping
use command_center.Prelude.{
  ℕ, ◌+◌, String, Bool, false, not, ◌&&◌, ◌||◌, Option, none, some, List, [], ◌∷◌, ◌++◌,
  if◌then◌else◌, is_none, length, get_elem?, select, is_empty, ◌==◌, ◌!=◌, nat_eq, string_eq,
  contains, Map, lookup, insert, get_or, has,
}
use command_center.Plan.Ids.{TicketUrl, Sha}
use command_center.Plan.Vocab.{Verb}
use command_center.Plan.Ticket.{merged, pr_state_eq}
use command_center.Plan.State.{verbs_of}
use command_center.Plan.Launch.{LaunchCandidate, launch_plan}
use command_center.Plan.Observation.{Observation, Pr}
use command_center.Plan.Repos.{RepoStatus}
use command_center.Plan.Transitions.{Transition}
use command_center.Plan.Input.{Entry, Intent, RefreshFact, holds_worktree}

pub record Removal : Type 0 where
  pub refusal : String
  pub proven_tips : List Sha

abbrev pub held_worktree_refusal : String
held_worktree_refusal = "the agent is awaiting an answer; its worktree stays as it left it"

unfoldable pub removal_refusal : Entry → Bool → String
removal_refusal e is_merged =
    if holds_worktree e
    then held_worktree_refusal
    else if not is_merged && (is_none e.run || not e.unlock.blocker_closed)
    then "neither merged nor base gone"
    else ""

unfoldable pub proven_tips_of : Entry → Pr → Bool → List Sha
proven_tips_of e pr is_merged =
    let pushed : List Sha = elim e.last_push [
      | none ↦ []
      | some row ↦ if row.pushed_tip != "" then row.pushed_tip ∷ [] else []
    ] in
    if is_merged && pr.head_oid != "" then pushed ++ pr.head_oid ∷ [] else pushed

unfoldable pub removal_for : Entry → Pr → Removal
unfolding removal_refusal proven_tips_of
removal_for e pr =
    let is_merged = pr.state == merged in
    record { refusal = removal_refusal e is_merged; proven_tips = proven_tips_of e pr is_merged }

pub record Snapshot : Type 0 where
  pub entries : List Entry
  pub by_url : Map TicketUrl ℕ
  pub launch : List LaunchCandidate
  pub running : ℕ
  pub max_agents : ℕ
  pub spend_paused : Bool
  pub intents : Map TicketUrl (List Intent)
  pub sessions : Map TicketUrl String
  pub removals : Map TicketUrl Removal
  pub transitions : List Transition
  pub verdicts : Map TicketUrl String
  pub repos : List RepoStatus
  pub obs : Observation
  pub refreshes : Map TicketUrl RefreshFact

unfoldable pub launch_after : Snapshot → ℕ → List TicketUrl
launch_after s spawned = launch_plan s.launch (s.running + spawned) s.max_agents s.spend_paused

unfoldable pub entry : Snapshot → TicketUrl → Option Entry
entry s url = elim (lookup url s.by_url) [ none ↦ none | some n ↦ get_elem? s.entries n ]

unfoldable pub offers : Snapshot → TicketUrl → Verb → Bool
unfolding entry
offers s url verb = elim (entry s url) [ none ↦ false | some e ↦ contains (verbs_of e.state) verb ]

unfoldable pub removal : Snapshot → TicketUrl → Removal
removal s url = get_or url (record { refusal = ""; proven_tips = [] }) s.removals

unfoldable pub session : Snapshot → TicketUrl → Option String
session s url = lookup url s.sessions

-- The loop over the entries: those of the other repositories, with their positions.
unfoldable pub keep_entries :
    Map String Bool → List Entry → List Entry × Map TicketUrl ℕ → List Entry × Map TicketUrl ℕ
keep_entries repos [] acc = acc
keep_entries repos (e ∷ es) (out, by_url) =
    if get_or e.ticket.repo false repos
    then keep_entries repos es (out, by_url)
    else keep_entries repos es (out ++ e ∷ [], insert e.ticket.url (length out) by_url)

unfoldable pub skipping : Snapshot → Map String Bool → Snapshot
unfolding keep_entries
skipping s repos =
    let (out, by_url) = keep_entries repos s.entries ([], []) in
    if is_empty repos then s else record s {
      entries = out;
      by_url = by_url;
      launch = select (λ (c : LaunchCandidate). has c.url by_url) s.launch;
    }
