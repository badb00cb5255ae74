-- ===== src/Plan/Gates/Pushes.antt =====
-- internal/plan/gates.go, `Pushable`: what a tick pushes.
use command_center.Prelude.{◌≡◌, true, false, nat_eq, string_eq}
use command_center.Plan.Ids.{branch_ref_eq}
use command_center.Plan.Outcome.{Outcome}
use command_center.Plan.Observation.{Observation, is_alive}
use command_center.Plan.Input.{Entry, run_ended_as}
use command_center.Plan.Snapshot.{Snapshot}
use command_center.Plan.Gates.{Push, push, push_held, was_pushed_at}

-- The entry `e` of a snapshot may be pushed as `p`.
pub record IsPushable (s : Snapshot) (o : Observation) (p : Push) (e : Entry) : Type 0 where
  pub pushed : run_ended_as e.run Outcome.push ≡ true
  pub not_alive : is_alive o e.ticket.url ≡ false
  pub not_held : push_held e.run ≡ false
  pub is_new : was_pushed_at e.last_push p.local_tip ≡ false
  pub ticket : p.ticket ≡ e.ticket.url
