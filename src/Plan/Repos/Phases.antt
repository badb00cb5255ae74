-- ===== src/Plan/Repos/Phases.antt =====
-- internal/plan/repostate.go: the phases of a tracked repository.
use command_center.Prelude.{
  String, ◌≡◌, refl, sym, ap, ◌∙◌, ◌≢◌, ◌↔◌, ◌⊎◌, inl, inr, true, false, ◌&&◌, none, some, arith,
  Bool-cases, Option-cases, ◌==◌, ◌!=◌, nat_eq, string_eq, ==_iff, lookup, has,
}
use command_center.Plan.Vocab.{
  RepoPhase, repo_cloning, repo_ready, repo_refused, refusal_merge_settings, refusal_default_branch,
  refusal_settings_parse,
}
use command_center.Plan.Ticket.{default_base_branch}
use command_center.Plan.Observation.{Observation}
use command_center.Plan.Repos.{MergeSettings, repo_refusal, RepoStatus, next_repo_status}

-- A repository is accepted exactly when it allows squash merges only and its default branch is main.
pub repo_refusal_iff :
    (s : MergeSettings)
    → ((repo_refusal s).0 ≡ "") ↔ (
        (s.allow_merge_commit ≡ false)
        × (s.allow_rebase_merge ≡ false)
        × (s.default_branch ≡ default_base_branch))
unfolding repo_refusal
repo_refusal_iff s = ground (
  arith,
  ==_iff s.default_branch default_base_branch,
  ==_iff refusal_merge_settings "",
  ==_iff refusal_default_branch "",
)

abbrev refused_for : RepoStatus → String → RepoStatus
refused_for current reason = record {
  name = current.name;
  phase = repo_refused;
  refusal_kind = refusal_settings_parse;
  refusal = reason;
}

abbrev ready_again : RepoStatus → RepoStatus
ready_again current = record {
  name = current.name;
  phase = repo_ready;
  refusal_kind = "";
  refusal = "";
}

-- What an observation does to a status.
data Change (current : RepoStatus) (o : Observation) (after : RepoStatus) : Type 0 where
  same : after ≡ current → Change current o after
  refuse :
      (reason : String)
      → (current.phase == repo_cloning) ≡ false
      → (current.phase == repo_refused && current.refusal_kind != refusal_settings_parse) ≡ false
      → lookup current.name o.settings_errors ≡ some reason
      → after ≡ refused_for current reason
      → Change current o after
  recover :
      (current.phase == repo_refused) ≡ true
      → (current.refusal_kind != refusal_settings_parse) ≡ false
      → lookup current.name o.settings_errors ≡ none
      → has current.name o.settings ≡ true
      → after ≡ ready_again current
      → Change current o after

next_repo_status-Change :
    (current : RepoStatus) (o : Observation) → Change current o (next_repo_status current o)
unfolding next_repo_status
next_repo_status-Change current o = elim (Bool-cases (current.phase == repo_cloning)) [
  | inl y ↦ same (rw y refl)
  | inr n ↦
      elim (Bool-cases
        (current.phase == repo_refused && current.refusal_kind != refusal_settings_parse)) [
          | inl y ↦ same (rw n (rw y refl))
          | inr k ↦ elim (Option-cases (lookup current.name o.settings_errors)) [
            | inr (reason, e) ↦ refuse reason n k e (rw n (rw k (rw e refl)))
            | inl e ↦
                elim (Bool-cases (has current.name o.settings && current.phase == repo_refused)) [
                  | inl y ↦
                      recover (ground arith) (ground arith) e (ground arith)
                        (rw n (rw k (rw e (rw y refl))))
                  | inr z ↦ same (rw n (rw k (rw e (rw z refl))))
                ]
          ]
        ]
]

after_refusal :
    (current : RepoStatus) (o : Observation) (reason : String)
    → lookup current.name o.settings_errors ≡ some reason
    → next_repo_status (refused_for current reason) o ≡ refused_for current reason
unfolding next_repo_status
after_refusal current o reason e = rw e refl

after_recovery :
    (current : RepoStatus) (o : Observation)
    → lookup current.name o.settings_errors ≡ none
    → next_repo_status (ready_again current) o ≡ ready_again current
unfolding next_repo_status
after_recovery current o e = rw e (ground arith)

-- A second reading of the same observation changes nothing.
pub next_repo_status_idem :
    (current : RepoStatus) (o : Observation)
    → next_repo_status (next_repo_status current o) o ≡ next_repo_status current o
next_repo_status_idem current o = go (next_repo_status-Change current o)
  where
    go :
        Change current o (next_repo_status current o)
        → next_repo_status (next_repo_status current o) o ≡ next_repo_status current o
    go (same e) = ap (λ c. next_repo_status c o) e
    go (refuse reason _ _ found e) = rw e (after_refusal current o reason found)
    go (recover _ _ missing _ e) = rw e (after_recovery current o missing)

refused_differs : ◌≢◌ {A = RepoPhase} repo_cloning repo_refused
refused_differs = ground (arith, ==_iff repo_cloning repo_refused)

-- The status of a repository changes in two ways only: to refused, where its settings do not parse, and
-- from refused for its settings to ready, where they parse again. A repository that is being cloned or
-- was refused for another reason stays as it is.
pub next_repo_status-changes :
    (current : RepoStatus) (o : Observation)
    → next_repo_status current o ≢ current
    → (current.phase ≢ repo_cloning)
      × ((current.phase ≡ repo_refused) → (current.refusal_kind ≡ refusal_settings_parse))
      × ((((next_repo_status current o).phase ≡ repo_refused)
            × ((next_repo_status current o).refusal_kind ≡ refusal_settings_parse)
            × (lookup current.name o.settings_errors ≡ some (next_repo_status current o).refusal))
          ⊎ ((current.phase ≡ repo_refused)
              × ((next_repo_status current o).phase ≡ repo_ready)
              × (lookup current.name o.settings_errors ≡ none)
              × (has current.name o.settings ≡ true)))
next_repo_status-changes current o h = go (next_repo_status-Change current o)
  where
    phase_test : (p : RepoPhase) → ((current.phase == p) ≡ true) ↔ (current.phase ≡ p)
    phase_test p = ==_iff current.phase p

    kind_test :
        ((current.refusal_kind == refusal_settings_parse) ≡ true)
        ↔ (current.refusal_kind ≡ refusal_settings_parse)
    kind_test = ==_iff current.refusal_kind refusal_settings_parse

    go :
        Change current o (next_repo_status current o)
        → (current.phase ≢ repo_cloning)
          × ((current.phase ≡ repo_refused) → (current.refusal_kind ≡ refusal_settings_parse))
          × ((((next_repo_status current o).phase ≡ repo_refused)
                × ((next_repo_status current o).refusal_kind ≡ refusal_settings_parse)
                × (lookup current.name o.settings_errors
                    ≡ some (next_repo_status current o).refusal))
              ⊎ ((current.phase ≡ repo_refused)
                  × ((next_repo_status current o).phase ≡ repo_ready)
                  × (lookup current.name o.settings_errors ≡ none)
                  × (has current.name o.settings ≡ true)))
    go (same e) = absurd (h e)
    go (refuse reason a b found e) = (
      λ p. ground (arith, phase_test repo_cloning),
      λ p. ground (arith, phase_test repo_refused, kind_test),
      inl (
        ap (λ (x : RepoStatus). x.phase) e,
        ap (λ (x : RepoStatus). x.refusal_kind) e,
        found ∙ ap (λ (x : RepoStatus). some x.refusal) (sym e),
      ),
    )
    go (recover a b missing clean e) =
        let was = (phase_test repo_refused).0 a in
        (
          λ p. refused_differs (sym p ∙ was),
          λ p. ground (arith, kind_test),
          inr (was, ap (λ (x : RepoStatus). x.phase) e, missing, clean),
        )
