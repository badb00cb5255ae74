-- ===== src/Plan/Observation/Effective.antt =====
-- internal/plan/rules.go, `RulesFor`: the settings and the errors that the rules of a repository come from.
use command_center.Prelude.{
  ℕ, ◌≤◌, String, ◌≡◌, refl, ◌∙◌, inl, inr, Bool, false, not, Option, none, some, [], ◌∷◌, arith,
  if◌then◌else◌, Bool-cases, length, select, is_empty, ◌==◌, nat_eq, string_eq, Map, lookup, insert,
  has, lookup-insert,
}
use command_center.Prelude.{subst}
use command_center.Plan.Observation.{
  RepoSettings, zero_settings, Observation, Rules, Daemon, add_rules, add_errors, add_settings,
  empty_rules, rules_for,
}

abbrev pub field : {A : Type 0} → (RepoSettings → A) → Option RepoSettings → Option A
field f none = none
field f (some s) = some (f s)

abbrev pub verifies : RepoSettings → Bool
verifies s = not (is_empty s.verify_command)

-- The rules of the repository `name` are those of the settings, or there are none.
pub record Reads (r : Rules) (name : String) (s : Option RepoSettings) : Type 0 where
  pub stacking : lookup name r.stacking ≡ field (λ (x : RepoSettings). x.stacking) s
  pub deny : lookup name r.deny ≡ field (λ (x : RepoSettings). x.deny) s
  pub checks : lookup name r.checks ≡ field (λ (x : RepoSettings). x.checks) s
  pub mergify_sha : lookup name r.mergify_sha ≡ field (λ (x : RepoSettings). x.mergify_sha) s
  pub compat_check : lookup name r.compat_check ≡ field (λ (x : RepoSettings). x.compat_check) s
  pub verify : lookup name r.verify ≡ field verifies s

-- What counts of a repository: its settings, else Go's zero settings where they did not parse.
unfoldable pub effective : Observation → String → Option RepoSettings
effective o name = elim (lookup name o.settings) [
  | some s ↦ some s
  | none ↦ if has name o.settings_errors then some zero_settings else none
]

-- How many entries of a map have the key.
abbrev pub entries_at : {A : Type 0} → String → Map String A → ℕ
entries_at {A} name m = length (select (λ (e : String × A). e.0 == name) m)

module _ {A : Type 0} where
  insert-field :
      (key name : String) (s : RepoSettings) (f : RepoSettings → A) (m : Map String A)
      (x : Option RepoSettings)
      → lookup name m ≡ field f x
      → lookup name (insert key (f s) m) ≡ field f (if key == name then some s else x)
  insert-field key name s f m x h = elim (Bool-cases (key == name)) [
    | inl y ↦ rw (lookup-insert key name (f s) m) (rw y refl)
    | inr z ↦ rw (lookup-insert key name (f s) m) (rw z h)
  ]

add_rules-Reads :
    (r : Rules) (key name : String) (s : RepoSettings) (x : Option RepoSettings)
    → Reads r name x
    → Reads (add_rules r key s) name (if key == name then some s else x)
unfolding add_rules
add_rules-Reads r key name s x h = record {
  stacking = insert-field key name s (λ (y : RepoSettings). y.stacking) r.stacking x h.stacking;
  deny = insert-field key name s (λ (y : RepoSettings). y.deny) r.deny x h.deny;
  checks = insert-field key name s (λ (y : RepoSettings). y.checks) r.checks x h.checks;
  mergify_sha =
      insert-field key name s (λ (y : RepoSettings). y.mergify_sha) r.mergify_sha x h.mergify_sha;
  compat_check =
      insert-field key name s (λ (y : RepoSettings). y.compat_check) r.compat_check x
        h.compat_check;
  verify = insert-field key name s verifies r.verify x h.verify;
}

-- The settings that a loop over errors leaves.
abbrev zero_or : Bool → Option RepoSettings → Option RepoSettings
zero_or failed x = if failed then some zero_settings else x

zero_or_step :
    (key e name : String) (m : Map String String) (x : Option RepoSettings)
    → zero_or (has name m) (if key == name then some zero_settings else x)
      ≡ zero_or (has name ((key, e) ∷ m)) x
unfolding has lookup
zero_or_step key e name m x = elim (Bool-cases (key == name)) [
  | inl y ↦ rw y (ground arith)
  | inr z ↦ rw z refl
]

add_errors-Reads :
    (r : Rules) (m : Map String String) (name : String) (x : Option RepoSettings)
    → Reads r name x
    → Reads (add_errors r m) name (zero_or (has name m) x)
unfolding add_errors has lookup
add_errors-Reads r [] name x h = h
add_errors-Reads r ((key, e) ∷ m) name x h =
    subst (λ y. Reads (add_errors (add_rules r key zero_settings) m) name y)
      (zero_or_step key e name m x)
      (add_errors-Reads (add_rules r key zero_settings) m name
        (if key == name then some zero_settings else x)
        (add_rules-Reads r key name zero_settings x h))

add_settings-others :
    (r : Rules) (m : Map String RepoSettings) (name : String) (x : Option RepoSettings)
    → Reads r name x
    → entries_at name m ≡ 0
    → Reads (add_settings r m) name x
unfolding add_settings
add_settings-others r [] name x h c = h
add_settings-others r ((key, s) ∷ m) name x h c =
    let other : (key == name) ≡ false = ground arith in
    add_settings-others (add_rules r key s) m name x
      (subst (λ b. Reads (add_rules r key s) name (if b then some s else x)) other
        (add_rules-Reads r key name s x h))
      (ground arith)

add_settings-Reads :
    (r : Rules) (m : Map String RepoSettings) (name : String) (x : Option RepoSettings)
    → Reads r name x
    → entries_at name m ≤ 1
    → Reads (add_settings r m) name (elim (lookup name m) [ some s ↦ some s | none ↦ x ])
unfolding add_settings lookup
add_settings-Reads r [] name x h c = h
add_settings-Reads r ((key, s) ∷ m) name x h c = elim (Bool-cases (key == name)) [
  | inl y ↦ rw y (
      add_settings-others (add_rules r key s) m name (some s)
        (subst (λ b. Reads (add_rules r key s) name (if b then some s else x)) y
          (add_rules-Reads r key name s x h))
        (ground arith))
  | inr z ↦ rw z (
      add_settings-Reads (add_rules r key s) m name x
        (subst (λ b. Reads (add_rules r key s) name (if b then some s else x)) z
          (add_rules-Reads r key name s x h))
        (ground arith))
]

empty_rules-Reads : (d : Daemon) (name : String) → Reads (empty_rules d) name none
unfolding lookup
empty_rules-Reads d name = record {
  stacking = refl;
  deny = refl;
  checks = refl;
  mergify_sha = refl;
  compat_check = refl;
  verify = refl;
}

-- The limits and the workflows of `q` are those of `r`.
abbrev KeepsLimits : Rules → Rules → Type 0
KeepsLimits q r =
    (q.max_agents ≡ r.max_agents)
    × (q.spend_limit_5h ≡ r.spend_limit_5h)
    × (q.workflows ≡ r.workflows)

add_settings-KeepsLimits :
    (r : Rules) (m : Map String RepoSettings) → KeepsLimits (add_settings r m) r
unfolding add_settings add_rules
add_settings-KeepsLimits r [] = (refl, refl, refl)
add_settings-KeepsLimits r ((key, s) ∷ m) = add_settings-KeepsLimits (add_rules r key s) m

add_errors-KeepsLimits : (r : Rules) (m : Map String String) → KeepsLimits (add_errors r m) r
unfolding add_errors add_rules
add_errors-KeepsLimits r [] = (refl, refl, refl)
add_errors-KeepsLimits r ((key, e) ∷ m) = add_errors-KeepsLimits (add_rules r key zero_settings) m

-- The rules of a repository, of which the observation lists the settings at most once, are its settings
-- where they were read, Go's zero settings where only an error was, and none otherwise; the limits
-- and the workflows are the daemon's.
pub rules_for-Reads :
    (d : Daemon) (o : Observation) (name : String)
    → entries_at name o.settings ≤ 1
    → Reads (rules_for d o) name (effective o name)
      × ((rules_for d o).max_agents ≡ d.max_agents)
      × ((rules_for d o).spend_limit_5h ≡ d.spend_limit_5h)
      × ((rules_for d o).workflows ≡ d.workflows)
unfolding rules_for effective
rules_for-Reads d o name c =
    let failed = add_errors (empty_rules d) o.settings_errors in
    let (a, b, w) = add_settings-KeepsLimits failed o.settings in
    let (e, f, v) = add_errors-KeepsLimits (empty_rules d) o.settings_errors in
    (
      add_settings-Reads failed o.settings name (zero_or (has name o.settings_errors) none)
          (add_errors-Reads (empty_rules d) o.settings_errors name none (empty_rules-Reads d name))
          c,
      a ∙ e,
      b ∙ f,
      w ∙ v,
    )
