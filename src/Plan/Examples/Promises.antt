-- ===== src/Plan/Examples/Promises.antt =====
-- A second tick on the same facts, a launch after its preview, and rules.
use command_center.Prelude.{
  ℕ, ◌≤◌, ◌≡◌, refl, sym, true, [], ◌∷◌, arith, In, here, there, nat_eq, string_eq, ==_iff, Map,
  lookup, get_or,
}
use command_center.Prelude.{subst}
use command_center.Plan.Ids.{TicketUrl, branch_ref_eq}
use command_center.Plan.Ticket.{Ticket, merged, ref}
use command_center.Plan.Ticket.Counts.{count}
use command_center.Plan.Observation.Effective.{Reads, effective, rules_for-Reads}
use command_center.Plan.Observation.{
  Observation, RepoSettings, zero_settings, Daemon, rules_for, pr_at, zero_pr,
}
use command_center.Plan.Snapshot.{Snapshot}
use command_center.Plan.Build.{derive}
use command_center.Plan.Input
use command_center.Plan.Input.{Recorded, zero_recorded}
use command_center.Plan.Transitions.{transitions}
use command_center.Plan.Transitions.Once.{again, transitions-again}
use command_center.Plan.Examples.Data.{
  base, top, ref_of, percents, plain_rules, plain_input, empty_observation,
}

-- Nothing is recorded twice, with one ticket merged.
abbrev merged_input : Input.Input ℕ
merged_input = record plain_input {
  obs = record empty_observation {
    prs = (ref_of "cc-1-base", record zero_pr { state = merged }) ∷ [];
  };
}

abbrev merges_recorded : Map TicketUrl Recorded
merges_recorded =
    ("t/1", record { opened = true; merged = true })
    ∷ ("t/2", record { opened = true; merged = true })
    ∷ []

merged_once : (t : Ticket) → In t merged_input.tickets → count t.url merged_input.tickets ≤ 1
merged_once t i =
    ground (arith, ==_iff base.url t.url, ==_iff top.url t.url, ==_iff base.url top.url)

merges :
    (t : Ticket)
    → In t merged_input.tickets
    → (pr_at merged_input.obs (ref t)).state ≡ merged
    → (get_or t.url zero_recorded merges_recorded).merged ≡ true
unfolding get_or lookup
merges t (here e) h =
    subst (λ (x : Ticket). (get_or x.url zero_recorded merges_recorded).merged ≡ true) (sym e) refl
merges t (there (here e)) h =
    subst (λ (x : Ticket). (get_or x.url zero_recorded merges_recorded).merged ≡ true) (sym e) refl
merges t (there (there i)) h = elim i [ ]

transitions-again_example :
    transitions plain_rules
      (again merges_recorded (transitions plain_rules merged_input).1 merged_input)
    ≡ ([], (transitions plain_rules merged_input).1)
transitions-again_example =
    transitions-again plain_rules merged_input merges_recorded merged_once merges

-- The launch of a ticket that has been previewed.
abbrev unlaunched : Input.Input ℕ
unlaunched = record plain_input { memberships = [] }

abbrev shown : Snapshot
shown = derive percents (λ text. text) plain_rules unlaunched

-- Rules from settings, beside an error.
abbrev stacked_app : RepoSettings
stacked_app = record zero_settings { stacking = true }

abbrev settings_read : Observation
settings_read = record empty_observation {
  settings = ("o/app", stacked_app) ∷ [];
  settings_errors = ("o/app", "old error") ∷ [];
}

abbrev small_daemon : Daemon
small_daemon = record { max_agents = 2; spend_limit_5h = 90; workflows = [] }

rules_for-Reads_example :
    Reads (rules_for small_daemon settings_read) "o/app" (effective settings_read "o/app")
    × ((rules_for small_daemon settings_read).max_agents ≡ 2)
    × ((rules_for small_daemon settings_read).spend_limit_5h ≡ 90)
    × ((rules_for small_daemon settings_read).workflows ≡ [])
rules_for-Reads_example = rules_for-Reads small_daemon settings_read "o/app" (omega arith)
