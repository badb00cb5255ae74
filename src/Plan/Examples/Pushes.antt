-- ===== src/Plan/Examples/Pushes.antt =====
-- Push policies and the phases of repositories.
use command_center.Prelude.{
  String, ◌≡◌, ap, ◌≢◌, ◌⊎◌, true, false, none, some, List, [], ◌∷◌, arith, nat_eq, string_eq,
  ==_iff, lookup, has,
}
use command_center.Plan.Vocab.{repo_cloning, repo_ready, repo_refused, refusal_settings_parse}
use command_center.Plan.Observation.{Observation}
use command_center.Plan.Push.{Policy}
use command_center.Plan.Repos.{MergeSettings, RepoStatus, next_repo_status}
use command_center.Plan.Repos.Phases.{next_repo_status-changes}
use command_center.Plan.Examples.Data.{empty_observation}

abbrev changed : List String
changed = "main.go" ∷ ".github/workflows/ci.yml" ∷ []

abbrev no_secrets : Policy
no_secrets = record { deny = "secrets/**" ∷ [] }

abbrev squash_only : MergeSettings
squash_only = record {
  allow_merge_commit = false;
  allow_rebase_merge = false;
  default_branch = "main";
}

abbrev ready_app : RepoStatus
ready_app = record { name = "o/app"; phase = repo_ready; refusal_kind = ""; refusal = "" }

abbrev broken : Observation
broken = record empty_observation { settings_errors = ("o/app", "line 3: bad key") ∷ [] }

ready_app-changes : next_repo_status ready_app broken ≢ ready_app
unfolding next_repo_status lookup
ready_app-changes e =
    ground (arith, ==_iff repo_refused repo_ready, ap (λ (x : RepoStatus). x.phase) e)

next_repo_status-changes_example :
    (ready_app.phase ≢ repo_cloning)
    × ((ready_app.phase ≡ repo_refused) → (ready_app.refusal_kind ≡ refusal_settings_parse))
    × ((((next_repo_status ready_app broken).phase ≡ repo_refused)
          × ((next_repo_status ready_app broken).refusal_kind ≡ refusal_settings_parse)
          × (lookup "o/app" broken.settings_errors
              ≡ some (next_repo_status ready_app broken).refusal))
        ⊎ ((ready_app.phase ≡ repo_refused)
            × ((next_repo_status ready_app broken).phase ≡ repo_ready)
            × (lookup "o/app" broken.settings_errors ≡ none)
            × (has "o/app" broken.settings ≡ true)))
next_repo_status-changes_example = next_repo_status-changes ready_app broken ready_app-changes
