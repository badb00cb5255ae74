-- ===== src/Plan/Transitions.antt =====
-- internal/plan/transition.go: the events that a derivation records.
pub mod Once
use command_center.Prelude.{
  ℕ, String, ◌⧺◌, decimal, Bool, true, not, ◌&&◌, ◌||◌, Option, none, some, List, [], ◌∷◌, ◌++◌,
  if◌then◌else◌, ◌==◌, ◌!=◌, nat_eq, string_eq, Map, keys, lookup, insert, get_or, has,
}
use command_center.Prelude.Sorting.{string_lt, sort_by}
use command_center.Plan.Ids.{TicketUrl, branch_ref_eq}
use command_center.Plan.Outcome.{Outcome, ended_as}
use command_center.Plan.Verdict
use command_center.Plan.Verdict.{check_string, check_beq, kind_string}
use command_center.Plan.Ticket.{Ticket, opened, merged, pr_state_eq, ref}
use command_center.Plan.Observation
use command_center.Plan.Observation.{Rules, pr_at}
use command_center.Plan.Input
use command_center.Plan.Input.{zero_push_fact, zero_recorded}
use command_center.Plan.Derive.{to_verdict_check_state, apply_verdict}

pub data TransitionKind : Type 0 where
  transition_opened transition_merged transition_checks_landed transition_verdict : TransitionKind

pub record Transition : Type 0 where
  pub ticket : TicketUrl
  pub kind : TransitionKind
  pub at : ℕ
  pub detail : String

abbrev pub is_pending : Observation.CheckState → Bool
is_pending c = check_beq (to_verdict_check_state c) Verdict.CheckState.pending

-- The check `name`, now `c`, has landed since the observation `before`.
unfoldable pub newly_landed :
    Map String Observation.CheckState → String → Observation.CheckState → Bool
unfolding to_verdict_check_state
newly_landed before name c =
    not (is_pending c) && elim (lookup name before) [ none ↦ true | some was ↦ is_pending was ]

unfoldable pub landed_loop :
    TicketUrl
    → ℕ
    → Map String Observation.CheckState
    → Map String Observation.CheckState
    → List String
    → List Transition
unfolding newly_landed
landed_loop url now before checks [] = []
landed_loop url now before checks (name ∷ names) =
    let rest = landed_loop url now before checks names in
    elim (lookup name checks) [
      | none ↦ rest
      | some c ↦
          if newly_landed before name c
          then record {
            ticket = url;
            kind = transition_checks_landed;
            at = now;
            detail = name ⧺ " " ⧺ check_string (to_verdict_check_state c);
          }
            ∷ rest
          else rest
    ]

module _ {F : Type 0} where
  unfoldable pub opened_transition : Ticket → Input.Input F → List Transition
  opened_transition t i =
      let number = decimal (pr_at i.obs (ref t)).number in
      if not (has (ref t) i.obs.prs)
        || has (ref t) i.prev.prs
        || (get_or t.url zero_recorded i.recorded).opened
      then []
      else record {
        ticket = t.url;
        kind = transition_opened;
        at = i.now;
        detail = "PR #" ⧺ number ⧺ " https://github.com/" ⧺ t.repo ⧺ "/pull/" ⧺ number;
      }
        ∷ []

  unfoldable pub merged_transition : Ticket → Input.Input F → List Transition
  merged_transition t i =
      let pr = pr_at i.obs (ref t) in
      if pr.state != merged || (get_or t.url zero_recorded i.recorded).merged
      then []
      else record {
        ticket = t.url;
        kind = transition_merged;
        at = pr.merged_at;
        detail = "PR #" ⧺ decimal pr.number ⧺ " merged";
      }
        ∷ []

  unfoldable pub checks_landed_transitions : Ticket → Input.Input F → List Transition
  unfolding landed_loop
  checks_landed_transitions t i =
      let checks = (pr_at i.obs (ref t)).checks in
      landed_loop t.url i.now (pr_at i.prev (ref t)).checks checks (sort_by string_lt (keys checks))

  abbrev pub latest_outcome : Ticket → Input.Input F → Option Outcome
  latest_outcome t i = elim (lookup t.url i.runs) [ none ↦ none | some summary ↦ summary.outcome ]

  -- The verdict of a pushed ticket that differs from the last recorded one, as a word.
  unfoldable pub verdict_transition : Rules → Ticket → Input.Input F → Option (Transition × String)
  verdict_transition r t i =
      let pf = get_or t.url zero_push_fact i.pushes in
      if not (ended_as (latest_outcome t i) Outcome.push)
      then none
      else if pf.refused || pf.failed || (pr_at i.obs (ref t)).state != opened
      then none
      else elim (apply_verdict r t i.obs i.verdict) [
        | none ↦ none
        | some result ↦
            let current = kind_string result.kind in
            if current == "" || get_or t.url "" i.last_verdicts == current
            then none
            else some (
              record {
                ticket = t.url;
                kind = transition_verdict;
                at = i.now;
                detail = current ⧺ ": " ⧺ result.reason;
              },
              current,
            )
      ]

  -- One round of the loop of `transitions`.
  unfoldable pub transitions_of :
      Rules
      → Input.Input F
      → Ticket
      → List Transition × Map TicketUrl String
      → List Transition × Map TicketUrl String
  unfolding opened_transition checks_landed_transitions verdict_transition merged_transition
  transitions_of r i t (out, verdicts) =
      let seen = out ++ opened_transition t i ++ checks_landed_transitions t i in
      elim (verdict_transition r t i) [
        | none ↦ (seen ++ merged_transition t i, verdicts)
        | some (tr, current) ↦ (seen ++ tr ∷ merged_transition t i, insert t.url current verdicts)
      ]

  unfoldable pub transitions_loop :
      Rules
      → Input.Input F
      → List Ticket
      → List Transition × Map TicketUrl String
      → List Transition × Map TicketUrl String
  unfolding transitions_of
  transitions_loop r i [] acc = acc
  transitions_loop r i (t ∷ ts) acc = transitions_loop r i ts (transitions_of r i t acc)

  unfoldable pub transitions : Rules → Input.Input F → List Transition × Map TicketUrl String
  unfolding transitions_loop
  transitions r i = transitions_loop r i i.tickets ([], i.last_verdicts)
