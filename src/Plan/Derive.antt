-- ===== src/Plan/Derive.antt =====
-- internal/plan/derive.go: what `Derive` computes of each ticket, and the snapshot.
use command_center.Prelude.{
  ℕ, suc, ◌+◌, ◌*◌, String, ◌⧺◌, Bool, true, false, not, ◌&&◌, ◌||◌, Option, none, some, List, [],
  ◌∷◌, if◌then◌else◌, ◌==◌, ◌!=◌, nat_eq, string_eq, Map, values, lookup, insert, get_or,
}
use Prim.Native.Nat.{◌/◌}
use command_center.Prelude.Int.{ℤ, pos, negsuc, neg, sub_ℕ}
use command_center.Plan.Ids.{BranchRef, branch_ref_eq}
use command_center.Plan.Outcome.{Outcome, outcome_eq}
use command_center.Plan.Workflow.{Workflow, Next, next_park, zero_next, next}
use command_center.Plan.Verdict
use command_center.Plan.Verdict.{zero_predicate, is_zero, evaluate, Result}
use command_center.Plan.Ticket.{
  Ticket, Tickets, PrStates, opened, merged, closed, pr_state_eq, ref, default_base_branch,
}
use command_center.Plan.Status.{RunFact}
use command_center.Plan.Draft.{draft_gate}
use command_center.Plan.Observation
use command_center.Plan.Observation.{
  Pr, Rules, pr_at, is_alive, is_mid_merge, conflicts_with_base_at, tip_at,
}
use command_center.Plan.Input
use command_center.Plan.Input.{
  RunSummary, PushRow, VerdictFacts, ConflictAt, zero_push_fact, zero_refresh_fact,
}

unfoldable pub tickets_by_url : List Ticket → Tickets → Tickets
tickets_by_url [] m = m
tickets_by_url (t ∷ ts) m = tickets_by_url ts (insert t.url t m)

unfoldable pub prs_by_branch : Observation.Observation → List Ticket → PrStates → PrStates
prs_by_branch o [] m = m
prs_by_branch o (t ∷ ts) m = prs_by_branch o ts (insert t.branch (pr_at o (ref t)).state m)

unfoldable pub to_verdict_check_state : Observation.CheckState → Verdict.CheckState
to_verdict_check_state cs =
    if cs.status != "COMPLETED"
    then Verdict.CheckState.pending
    else if cs.conclusion == "SUCCESS"
    then Verdict.CheckState.success
    else if cs.conclusion == "SKIPPED"
    then Verdict.CheckState.skipped
    else Verdict.CheckState.failure

unfoldable pub verdict_checks : Map String Observation.CheckState → Map String Verdict.CheckState
unfolding to_verdict_check_state
verdict_checks [] = []
verdict_checks ((name, c) ∷ m) = (name, to_verdict_check_state c) ∷ verdict_checks m

-- The input of the verdict on a pushed ticket.
unfoldable pub verdict_input :
    Rules → Ticket → Observation.Observation → VerdictFacts → PushRow → Verdict.Input
unfolding verdict_checks
verdict_input r t o vf row =
    let pr = pr_at o (ref t) in
    let mergify_sha = get_or t.repo "" r.mergify_sha in
    record {
      checks = verdict_checks pr.checks;
      head_oid_match = row.pushed_tip != "" && pr.head_oid == row.pushed_tip;
      stacked_base = row.base_branch != "";
      base_sha_match =
          tip_at o (record { repo = t.repo; branch = row.base_branch }) == row.base_sha_at_push;
      config_hash_ok = mergify_sha == "" || get_or t.repo "" o.mergify_hash == mergify_sha;
      pushed_at = row.pushed_at;
      now = row.pushed_at + get_or t.url 0 vf.checking_for;
      author_login = pr.author_login;
      compat_check = get_or t.repo "" r.compat_check;
    }

unfoldable pub apply_verdict :
    Rules → Ticket → Observation.Observation → VerdictFacts → Option Result
unfolding verdict_input
apply_verdict r t o vf =
    let predicate = get_or t.repo zero_predicate r.checks in
    if is_zero predicate then none else elim (lookup t.url vf.push_rows) [
      | none ↦ none
      | some row ↦ some (evaluate predicate (verdict_input r t o vf row))
    ]

-- `Round(time.Second)`, which rounds halves away from zero.
unfoldable pub round_second : ℤ → ℤ
round_second (pos n) = pos ((n + 500000000) / 1000000000 * 1000000000)
round_second (negsuc n) = neg ((suc n + 500000000) / 1000000000 * 1000000000)

unfoldable pub elapsed_of : Bool → ℕ → Option ℕ → Option ℤ
unfolding round_second
elapsed_of alive now none = none
elapsed_of alive now (some started) =
    if alive then some (round_second (sub_ℕ now started)) else none

-- The loop over the workflows: the last one with the hash.
unfoldable pub workflow_by_hash : String → List Workflow → Option Workflow → Option Workflow
workflow_by_hash hash [] found = found
workflow_by_hash hash (w ∷ ws) found =
    workflow_by_hash hash ws (if w.hash == hash then some w else found)

abbrev pub zero_workflow : Workflow
zero_workflow = record { name = ""; hash = ""; steps = []; max_fix_rounds = 0 }

unfoldable pub missing_workflow : String → Next
missing_workflow hash = record {
  kind = next_park;
  step = none;
  round = 0;
  reason = "workflow " ⧺ hash ⧺ " is not in this build";
}

module _ {F : Type 0} where
  -- What the observation says of a run, before its outcome counts.
  unfoldable pub observed_run : Ticket → Input.Input F → RunSummary → RunFact
  observed_run t i summary =
      let own_state = (pr_at i.obs (ref t)).state in
      record {
        alive = is_alive i.obs t.url;
        outcome = none;
        log_path = summary.log_path;
        push_refused = false;
        push_refused_path = "";
        push_failed = false;
        pr_open = own_state == opened;
        pr_merged = own_state == merged;
        pr_closed_unmerged = own_state == closed;
        verdict = none;
        refresh_refused = false;
        refresh_refused_reason = "";
        mid_merge = false;
        conflicts_with_main = false;
        conflicts_with_main_reason = "";
        conflicting_peer = "";
        verification_failed = false;
        verification_failed_reason = "";
        question = "";
        next = none;
      }

  -- The facts that a run which ended as a push has besides.
  unfoldable pub pushed_run : Rules → Ticket → Input.Input F → String → RunFact → RunFact
  unfolding apply_verdict
  pushed_run r t i peer fact =
      let pf = get_or t.url zero_push_fact i.pushes in
      let rf = get_or t.url zero_refresh_fact i.refreshes in
      let conflicts = conflicts_with_base_at i.obs (ref t) in
      record fact {
        push_refused = pf.refused;
        push_refused_path = pf.refused_path;
        push_failed = pf.failed;
        refresh_refused = rf.refused;
        refresh_refused_reason = rf.reason;
        verification_failed = rf.verification_failed;
        verification_failed_reason = rf.verification_failed_detail;
        mid_merge = is_mid_merge i.obs (ref t);
        conflicts_with_main = conflicts;
        conflicts_with_main_reason =
            if conflicts then t.branch ⧺ " no longer merges cleanly into main" else "";
        conflicting_peer = peer;
        verdict =
            if fact.pr_open && not pf.refused && not pf.failed
            then apply_verdict r t i.obs i.verdict
            else none;
      }

  unfoldable pub run_fact : Rules → Ticket → Input.Input F → String → RunSummary → RunFact
  unfolding observed_run pushed_run
  run_fact r t i peer summary =
      let fact = observed_run t i summary in
      elim summary.outcome [
        | none ↦ fact
        | some o ↦
            let ended = record fact { outcome = some o; question = summary.question } in
            if o == Outcome.push then pushed_run r t i peer ended else ended
      ]

  unfoldable pub run_for :
      Rules → Ticket → Input.Input F → String → Option RunFact × Option ℤ × String
  unfolding run_fact elapsed_of
  run_for r t i peer = elim (lookup t.url i.runs) [
    | none ↦ (none, none, "")
    | some summary ↦
        let fact = run_fact r t i peer summary in
        (some fact, elapsed_of fact.alive i.now summary.proc_started_at, summary.log_path)
  ]

  unfoldable pub next_in : Rules → Ticket → Input.Input F → Option Workflow → Workflow × Next
  next_in r t i none = (zero_workflow, zero_next)
  next_in r t i (some w) = (w, next w (get_or t.url [] i.passes) (get_or t.repo false r.verify))

  unfoldable pub next_for : Rules → Ticket → Input.Input F → String → Workflow × Next
  unfolding workflow_by_hash next_in missing_workflow
  next_for r t i launch_workflow = elim (lookup t.url i.runs) [
    | none ↦ next_in r t i (lookup launch_workflow r.workflows)
    | some summary ↦
        if summary.workflow_hash == ""
        then (zero_workflow, zero_next)
        else elim (workflow_by_hash summary.workflow_hash (values r.workflows) none) [
          | none ↦ (zero_workflow, missing_workflow summary.workflow_hash)
          | some w ↦ next_in r t i (some w)
        ]
  ]

  unfoldable pub conflicted_base : Ticket → String → Input.Input F → Bool
  conflicted_base t base i =
      let base_ref : BranchRef = record { repo = t.repo; branch = base } in
      if base == default_base_branch
      then false
      else conflicts_with_base_at i.obs base_ref || is_mid_merge i.obs base_ref

abbrev pub is_review_me : Option RunFact → Bool
is_review_me none = false
is_review_me (some run) = elim run.verdict [
  | none ↦ false
  | some v ↦ elim v.kind [ Verdict.Kind.review_me ↦ true | _ ↦ false ]
]

unfoldable pub draft_reason : Pr → List Ticket → PrStates → Option RunFact → String × Bool
draft_reason pr gating prs run =
    let (draft, gate_reason) = draft_gate gating prs (is_review_me run) in
    if not pr.is_draft
    then ("", false)
    else if not draft
    then ("ready to un-draft; the last gh pr ready call has not taken effect yet", true)
    else (gate_reason, false)
