-- ===== src/Loop/Repos.antt =====
-- internal/loop/repocheck.go, and `importFeature` and the edits of loop.go: repositories are tracked and
-- checked, features imported and tickets edited.
use command_center.Prelude.{
  ℕ, String, ◌⧺◌, join, ◌⊎◌, inl, inr, Bool, false, not, ◌&&◌, ◌||◌, Option, none, some, List, [],
  ◌∷◌, ◌++◌, map, if◌then◌else◌, is_empty, find_first, select, nat_eq, string_eq, ◌==◌, ◌!=◌,
  lookup, has,
}
use command_center.Plan.Vocab.{
  RefusalKind, verb_track, verb_import, repo_cloning, repo_ready, repo_refused, refusal_clone,
}
use command_center.Plan.Observation.{Observation}
use command_center.Plan.Repos.{RepoStatus, next_repo_status}
use command_center.Plan.Input.{Intent}
use command_center.Store.Db.{
  Result, ok, err, feature_conflict, feature_closure, TickError, Payload, ◌>>=◌, ◌>>◌, pure, raise,
}
use command_center.Store.Repos.{Repo, repos, upsert_repo, set_repo_state, status_of}
use command_center.Store.Events.{
  last_error, record_tick_error, last_observation, conflicting, unclosed, record_import_refusal,
}
use command_center.Store.Intents.{
  EditTicketIntent, pending_edit_ticket_intents, consume_verb_intent,
}
use command_center.Store.Tickets.{ImportedTicket, import_tickets, edit_ticket}
use command_center.Loop.Machine.{
  Act, Outside, Config, validate_repo, repo_remote, resolve_tracker, list_issues, in_store, ask,
  attempt, get_state, now,
}
use command_center.Loop.Intents.{Handled, handled, each_pending_intent}

unfoldable pub refuse_repo : Repo → RefusalKind → String → Repo
refuse_repo r kind reason = record r { phase = repo_refused; refusal_kind = kind; refusal = reason }

-- `strings.EqualFold` on ASCII.
unfoldable pub same_fold : (String → String) → String → String → Bool
same_fold lower a b = lower a == lower b

abbrev pub unknown_repo : String → ℕ → Repo
unknown_repo name at = record {
  name = name;
  remote = "";
  phase = "";
  refusal_kind = "";
  refusal = "";
  settings_source = "";
  settings_read_at = none;
  tracked_at = at;
  project = "";
}

abbrev pub cloning : Repo → Repo
cloning r = record r { phase = repo_cloning; refusal_kind = ""; refusal = "" }

abbrev pub with_status : Repo → RepoStatus → Repo
with_status r st = record r {
  phase = st.phase;
  refusal_kind = st.refusal_kind;
  refusal = st.refusal;
}

abbrev pub with_source : Repo → String → ℕ → Repo
with_source r source at = record r { settings_source = source; settings_read_at = some at }

abbrev pub same_status : RepoStatus → RepoStatus → Bool
same_status a b =
    a.name == b.name
    && a.phase == b.phase
    && a.refusal_kind == b.refusal_kind
    && a.refusal == b.refusal

abbrev pub joined : List String → String
joined messages = join "\n" messages

-- `lower` is the lower case of a name, by which repositories are found.
module _ (o : Outside) (c : Config) (json : Payload → String) (lower : String → String) where
  abbrev pub unless_repeated : String → Option TickError → Act Unit
  unless_repeated message last =
      if (elim last [ none ↦ false | some e ↦ e.message == message ])
      then pure tt
      else now o >>= λ at. in_store (record_tick_error (record { at = at; message = message }))

  -- An error like the last one is not recorded again.
  unfoldable pub record_error_once : String → Act Unit
  unfolding last_error record_tick_error
  record_error_once message = in_store last_error >>= unless_repeated message

  abbrev pub after_validate : Repo → String ⊎ Repo → Act (List String)
  after_validate r (inl e) = pure (("validate " ⧺ r.name ⧺ ": " ⧺ e) ∷ [])
  after_validate r (inr settled) = in_store (set_repo_state settled) >> pure []

  abbrev pub validate_one : Repo → Act (List String)
  validate_one r =
      if r.phase != repo_cloning
      then pure []
      else now o >>= λ at. attempt (validate_repo r at) o.repo >>= after_validate r

  unfoldable pub validate_each : List Repo → Act (List String)
  unfolding set_repo_state
  validate_each [] = pure []
  validate_each (r ∷ rs) = do
    failure ← validate_one r
    failures ← validate_each rs
    pure (failure ++ failures)

  unfoldable pub validate_cloning_repos : Act Unit
  unfolding repos validate_each record_error_once
  validate_cloning_repos = do
    rs ← in_store repos
    failures ← validate_each rs
    if is_empty failures then pure tt else record_error_once (joined failures)

  abbrev pub track_with : Repo → String ⊎ String → Act Unit
  track_with r (inl e) = in_store (upsert_repo (refuse_repo r refusal_clone e))
  track_with r (inr remote) = in_store (upsert_repo (cloning (record r { remote = remote })))

  abbrev pub track_repo : Repo → Act Unit
  track_repo r =
      if r.remote == ""
      then attempt (repo_remote r.name) o.text >>= track_with r
      else in_store (upsert_repo (cloning r))

  abbrev pub track_found : Repo → Option Repo → Act Unit
  track_found new none = track_repo new
  track_found new (some r) = if r.phase == repo_ready then pure tt else track_repo r

  unfoldable pub track_one : Intent → Act Handled
  unfolding repos upsert_repo refuse_repo same_fold
  track_one intent = do
    rs ← in_store repos
    at ← now o
    track_found (unknown_repo intent.ticket at)
        (find_first (λ (r : Repo). same_fold lower r.name intent.ticket) rs)
    pure handled

  unfoldable pub apply_track_intents : Act Unit
  unfolding each_pending_intent track_one
  apply_track_intents = each_pending_intent o json verb_track track_one

  -- The repository as the observation leaves it, and whether that is news.
  abbrev pub observed_repo : Repo → Observation → ℕ → Repo
  observed_repo r obs at =
      let next = with_status r (next_repo_status (status_of r) obs) in
      elim (lookup r.name obs.settings_sources) [
        | none ↦ next
        | some source ↦ with_source next source at
      ]

  abbrev pub is_news : Repo → Observation → Bool
  is_news r obs =
      not (same_status (next_repo_status (status_of r) obs) (status_of r))
      || (elim (lookup r.name obs.settings_sources) [
        | none ↦ false
        | some source ↦ source != r.settings_source
      ])

  -- The clock is read only where the settings were.
  abbrev pub record_news : Repo → Observation → Act Unit
  record_news r obs =
      if has r.name obs.settings_sources
      then (now o >>= λ at. in_store (set_repo_state (observed_repo r obs at)))
      else in_store (set_repo_state (observed_repo r obs 0))

  unfoldable pub record_each_state : Observation → List Repo → Act Unit
  unfolding next_repo_status set_repo_state has
  record_each_state obs [] = pure tt
  record_each_state obs (r ∷ rs) =
      (if is_news r obs then record_news r obs else pure tt) >> record_each_state obs rs

  unfoldable pub record_repo_states : Act Unit
  unfolding repos record_each_state
  record_repo_states = do rs ← in_store repos; s ← get_state; record_each_state s.obs rs

  abbrev pub default_tracker : String
  default_tracker = "github"

  abbrev pub tracker_of : Observation → Repo → String
  tracker_of obs r = elim (lookup r.name obs.settings) [
    | none ↦ default_tracker
    | some st ↦ st.tracker
  ]

  abbrev pub placed : String → String → ImportedTicket → ImportedTicket
  placed repo kind t = record t { repo = repo; source = kind }

  -- The tickets of a repository, which needs a remote.
  abbrev pub tickets_of : String → Observation → Repo → Act (List ImportedTicket)
  tickets_of feature obs r =
      if r.remote == ""
      then pure []
      else (ask (resolve_tracker (tracker_of obs r) r.remote) o.done >>= λ _.
          ask (list_issues (tracker_of obs r) r.remote feature) o.issues >>= λ ts.
          pure (map (placed r.name (tracker_of obs r)) ts))

  unfoldable pub match_each : String → Observation → List Repo → Act (List ImportedTicket)
  match_each feature obs [] = pure []
  match_each feature obs (r ∷ rs) = do
    ts ← tickets_of feature obs r
    rest ← match_each feature obs rs
    pure (ts ++ rest)

  -- A refusal is recorded, and is no error of the loop.
  abbrev pub after_import : String → Result Unit → Act Unit
  after_import feature (ok _) = pure tt
  after_import feature (err (feature_conflict x)) =
      now o >>= λ at. in_store (record_import_refusal feature (conflicting x) at)
  after_import feature (err (feature_closure x)) =
      now o >>= λ at. in_store (record_import_refusal feature (unclosed x) at)
  after_import feature (err e) = raise e

  abbrev pub settled : {A : Type 0} → Act A → Act (Result A)
  settled m s = let (r, t) = m s in (ok r, t)

  abbrev pub is_ready : Repo → Bool
  is_ready r = r.phase == repo_ready

  unfoldable pub import_feature : String → Act Unit
  unfolding last_observation repos match_each import_tickets record_import_refusal
  import_feature feature = do
    seen ← in_store last_observation
    rs ← in_store repos
    matched ← match_each feature seen.0 (select is_ready rs)
    at ← now o
    outcome ← settled (in_store (import_tickets feature matched at))
    after_import feature outcome

  unfoldable pub apply_import_intents : Act Unit
  unfolding each_pending_intent import_feature
  apply_import_intents =
      each_pending_intent o json verb_import (λ i. import_feature i.ticket >> pure handled)

  abbrev pub after_edit : ℕ → Result Unit → Act Unit
  after_edit at (ok _) = pure tt
  after_edit at (err (feature_closure x)) =
      in_store (record_import_refusal x.feature (unclosed x) at)
  after_edit at (err e) = raise e

  unfoldable pub edit_each : ℕ → List EditTicketIntent → Act Unit
  unfolding edit_ticket record_import_refusal consume_verb_intent
  edit_each at [] = pure tt
  edit_each at (i ∷ is) = do
    outcome ← settled (in_store (edit_ticket i.ticket_id i.branch i.blocked_by))
    after_edit at outcome
    in_store (consume_verb_intent i.id at)
    edit_each at is

  unfoldable pub apply_edit_ticket_intents : Act Unit
  unfolding pending_edit_ticket_intents edit_each
  apply_edit_ticket_intents = do
    intents ← in_store pending_edit_ticket_intents
    at ← now o
    edit_each at intents
