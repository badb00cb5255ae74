-- ===== src/Store/Launch/Applied.antt =====
-- internal/store/launch.go, `ApplyLaunchIntents`: what becomes of each launch intent.
use command_center.Prelude.{
  ℕ, ◌<◌, String, ◌≡◌, sym, ap, ◌∙◌, true, List, [], arith, select, contains, In, has, nat_eq,
  string_eq,
}
use command_center.Plan.Vocab.{verb_launch}
use command_center.Store.Db.{
  Db, World, Result, ok, IntentRow, LaunchPayload, statement, returning, of_result,
}
use command_center.Store.Atomic.{bind-inv, statement-ok, in_tx-ok, ok-inj}
use command_center.Store.Queries.Runs.{awaits}
use command_center.Store.Queries.Launch.{claim_launch_intents_query, launch_row, member_row}
use command_center.Store.Launch.{
  Groups, claim_loop, claim_launch_intents, insert_launches, apply_claimed, apply_launch_intents,
  launch_params, head_or, zero_pending,
}
use command_center.Store.Launch.Groups.{members_in}

-- The launch intents that are not consumed.
abbrev pub pending_launches : Db → List IntentRow
pending_launches d = select (awaits verb_launch) d.intents

pub claimed :
    (now : ℕ) (w t : World) (g : Groups)
    → claim_launch_intents now w ≡ (ok g, t)
    → (claim_loop (pending_launches w.db) ([], []) ≡ ok g)
      × (t.db ≡ (claim_launch_intents_query now w.db).1)
unfolding claim_launch_intents claim_launch_intents_query
claimed now w t g e =
    let (rows, u, first, after) =
      bind-inv (statement (returning (claim_launch_intents_query now)))
        (λ rows. of_result (claim_loop rows ([], []))) w t g e in
    let (same, at_u) = statement-ok (returning (claim_launch_intents_query now)) w u rows first in
    (
      ap (λ x. claim_loop x ([], [])) (ok-inj same) ∙ ap (λ p. p.0) after,
      ap (λ (p : Result Groups × World). p.1.db) (sym after) ∙ at_u,
    )

-- A success is a claim, and a launch of each claimed group.
pub applied :
    (now : ℕ) (w t : World)
    → apply_launch_intents now w ≡ (ok tt, t)
    → (g : Groups) × (u : World) × (v : World) × (claim_loop (pending_launches w.db) ([], [])
        ≡ ok g)
      × (u.db ≡ (claim_launch_intents_query now w.db).1)
      × (insert_launches now g.0 g.1 u ≡ (ok tt, v))
      × (t.db ≡ v.db)
unfolding apply_launch_intents
applied now w t e =
    let (b, left, begun, run, same) = in_tx-ok (apply_claimed now) w t tt e in
    let (g, u, first, after) =
      bind-inv (claim_launch_intents now) (λ g. insert_launches now g.0 g.1) b left tt run in
    let (loop, at_u) = claimed now b u g first in
    (
      g,
      u,
      left,
      ap (λ d. claim_loop (pending_launches d) ([], [])) (sym begun) ∙ loop,
      at_u ∙ ap (λ d. (claim_launch_intents_query now d).1) begun,
      after,
      same,
    )

abbrev pub no_groups : Groups
no_groups = ([], [])

pub no_group : (x : String) → has x no_groups.0 ≡ true → contains no_groups.1 x ≡ true
unfolding has
no_group x h = ground (arith, h)

-- The intent `i` of the database `d` is a member of a launch of `e`.
abbrev pub LaunchedIn : ℕ → Db → IntentRow → LaunchPayload → Db → Type 0
LaunchedIn now d i p e =
    (id : ℕ) × (d.launch_seq < id)
    × In
        (launch_row id
          (launch_params now (head_or zero_pending (members_in p.group (pending_launches d)))))
        e.launches
    × In (member_row id (i.ticket, p.prompt_hash)) e.members
