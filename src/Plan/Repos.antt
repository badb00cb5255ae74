-- ===== src/Plan/Repos.antt =====
-- internal/plan/repostate.go: which repositories are refused, and the phases of a tracked one.
pub mod Phases
use command_center.Prelude.{
  zero, suc, String, ◌⧺◌, trim_space, cut_suffix, cut, refl, Bool, not, ◌&&◌, ◌||◌, Option, none,
  some, [], arith, if◌then◌else◌, is_some, unwrap_or, ◌==◌, ◌!=◌, nat_eq, string_eq, lookup, has,
}
use command_center.Plan.Vocab.{
  RepoPhase, repo_cloning, repo_ready, repo_refused, RefusalKind, refusal_merge_settings,
  refusal_default_branch, refusal_settings_parse,
}
use command_center.Plan.Ticket.{default_base_branch}
use command_center.Plan.Observation.{Observation, RepoSettings}

pub record MergeSettings : Type 0 where
  pub allow_merge_commit : Bool
  pub allow_rebase_merge : Bool
  pub default_branch : String

unfoldable pub repo_refusal : MergeSettings → RefusalKind × String
repo_refusal s =
    if s.allow_merge_commit
    then (
      refusal_merge_settings,
      "repo allows merge commits (allow_merge_commit=true): command-centre requires squash-only merges",
    )
    else if s.allow_rebase_merge
    then (
      refusal_merge_settings,
      "repo allows rebase merges (allow_rebase_merge=true): command-centre requires squash-only merges",
    )
    else if s.default_branch != default_base_branch
    then (
      refusal_default_branch,
      "default branch is `" ⧺ s.default_branch ⧺ "`, not `" ⧺ default_base_branch
          ⧺ "`; rename it on GitHub, then Track again.",
    )
    else ("", "")

pub record RepoStatus : Type 0 where
  pub name : String
  pub phase : RepoPhase
  pub refusal_kind : RefusalKind
  pub refusal : String

-- The part of `NextRepoStatus` behind its `switch`: what was read of the settings counts.
unfoldable pub by_settings : RepoStatus → Option String → Bool → RepoStatus
by_settings current (some reason) clean = record {
  name = current.name;
  phase = repo_refused;
  refusal_kind = refusal_settings_parse;
  refusal = reason;
}
by_settings current none clean =
    if clean && current.phase == repo_refused
    then record { name = current.name; phase = repo_ready; refusal_kind = ""; refusal = "" }
    else current

unfoldable pub next_repo_status : RepoStatus → Observation → RepoStatus
unfolding by_settings
next_repo_status current o =
    if current.phase == repo_cloning
    then current
    else if current.phase == repo_refused && current.refusal_kind != refusal_settings_parse
    then current
    else by_settings current (lookup current.name o.settings_errors) (has current.name o.settings)

-- `strings.Contains` of a slash.
abbrev pub has_slash : String → Bool
has_slash s = is_some (cut s "/")

abbrev pub trim_suffix : String → String → String
trim_suffix s t = unwrap_or (cut_suffix s t) s

-- The scheme, or the colon of an `scp` address.
unfoldable pub drop_scheme : String → String
unfolding cut
drop_scheme url = elim (cut url "://") [
  | some (_, rest) ↦ rest
  | none ↦ elim (cut url ":") [
    | some (host, path) ↦ if has_slash host then url else host ⧺ "/" ⧺ path
    | none ↦ url
  ]
]

unfoldable pub drop_user : String → String
unfolding cut
drop_user url = elim (cut url "@") [ some (_, rest) ↦ rest | none ↦ url ]

unfoldable pub host_path : String → String
unfolding drop_scheme drop_user trim_space cut_suffix
host_path url =
    trim_suffix (drop_user (drop_scheme (trim_suffix (trim_suffix (trim_space url) "/") ".git")))
      "/"
