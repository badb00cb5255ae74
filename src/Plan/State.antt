-- ===== src/Plan/State.antt =====
-- internal/plan/state.go, with the states of internal/plan/plan.go: the table of what each state is
-- called and offers.
pub mod Words
use command_center.Prelude.{
  zero, suc, String, refl, Bool, true, false, ◌||◌, Option, none, some, List, [], ◌∷◌, arith,
  find_first, ◌==◌, nat_eq, string_eq,
}
use command_center.Plan.Vocab.{
  Verb, verb_launch, verb_kill, verb_re_run, verb_retry_push, verb_remove_worktree, verb_cancel,
  verb_refresh, verb_abort, verb_follow_up, GlyphWord, glyph_failed, glyph_attention, glyph_running,
  glyph_pending, glyph_checking, glyph_ready, glyph_blocked, glyph_done,
}

pub data State : Type 0 where
  unknown blocked ready queued running failed cut_failed push_pending : State
  checking needs_you push_failed review_me pr_merged pr_closed_unmerged base_gone : State
  cancelled base_moved ci_failed refresh_conflicted conflicts_with_main verification_failed
        waiting_on_producer_deploy awaiting_input :
      State

pub record StateSpec : Type 0 where
  pub name : String
  pub label : String
  pub glyph : GlyphWord
  pub verbs : List Verb
  pub unattended : Bool

abbrev spec : String → String → GlyphWord → List Verb → Bool → Option StateSpec
spec name label glyph verbs unattended =
    some
      (record { name = name; label = label; glyph = glyph; verbs = verbs; unattended = unattended })

-- The map `stateInfo`, which has no entry for `StateUnknown`.
unfoldable pub state_info : State → Option StateSpec
state_info unknown = none
state_info blocked = spec "blocked" "Blocked" glyph_blocked (verb_launch ∷ []) false
state_info ready = spec "ready" "Ready to launch" glyph_ready (verb_launch ∷ []) false
state_info queued = spec "queued" "Queued" glyph_pending (verb_cancel ∷ []) true
state_info running =
    spec "running" "Agent running" glyph_running (verb_kill ∷ verb_follow_up ∷ []) true
state_info failed = spec "failed" "Failed" glyph_failed (verb_re_run ∷ verb_follow_up ∷ []) false
state_info cut_failed =
    spec "cut_failed" "Cut failed" glyph_failed (verb_re_run ∷ verb_follow_up ∷ []) false
state_info push_pending = spec "push_pending" "Waiting to push" glyph_pending [] true
state_info checking =
    spec "checking" "Waiting on checks" glyph_checking (verb_re_run ∷ verb_follow_up ∷ []) true
state_info needs_you =
    spec "needs_you" "Needs you" glyph_attention (verb_re_run ∷ verb_follow_up ∷ verb_kill ∷ [])
      false
state_info push_failed =
    spec "push_failed" "Push failed" glyph_failed
      (verb_retry_push ∷ verb_re_run ∷ verb_follow_up ∷ []) false
state_info review_me = spec "review_me" "Ready for review" glyph_attention [] false
state_info pr_merged = spec "merged" "Merged" glyph_done (verb_remove_worktree ∷ []) false
state_info pr_closed_unmerged =
    spec "pr_closed_unmerged" "PR closed" glyph_failed
      (verb_re_run ∷ verb_follow_up ∷ verb_remove_worktree ∷ []) false
state_info base_gone =
    spec "base_gone" "Base gone" glyph_failed
      (verb_re_run ∷ verb_follow_up ∷ verb_remove_worktree ∷ []) false
state_info cancelled = spec "cancelled" "Cancelled" glyph_ready (verb_launch ∷ []) false
state_info base_moved =
    spec "base_moved" "Base moved" glyph_pending (verb_refresh ∷ verb_re_run ∷ verb_follow_up ∷ [])
      true
state_info ci_failed =
    spec "ci_failed" "Checks failing" glyph_failed (verb_re_run ∷ verb_follow_up ∷ []) false
state_info refresh_conflicted =
    spec "refresh_conflicted" "Refresh conflicted" glyph_failed (verb_abort ∷ []) false
state_info conflicts_with_main =
    spec "conflicts_with_main" "Conflicts with main" glyph_failed (verb_refresh ∷ []) false
state_info verification_failed =
    spec "verification_failed" "Verification failed" glyph_failed
      (verb_retry_push ∷ verb_re_run ∷ verb_follow_up ∷ []) false
state_info waiting_on_producer_deploy =
    spec "waiting_on_producer_deploy" "Waiting on deploy" glyph_blocked
      (verb_re_run ∷ verb_follow_up ∷ []) false
state_info awaiting_input =
    spec "awaiting_input" "Asked you a question" glyph_attention (verb_follow_up ∷ verb_re_run ∷ [])
      false

unfoldable pub state_string : State → String
unfolding state_info
state_string s = elim (state_info s) [ none ↦ "unknown" | some info ↦ info.name ]

unfoldable pub state_label : State → String
unfolding state_info
state_label s = elim (state_info s) [ none ↦ "Unknown" | some info ↦ info.label ]

unfoldable pub state_glyph : State → GlyphWord
unfolding state_info
state_glyph s = elim (state_info s) [ none ↦ glyph_failed | some info ↦ info.glyph ]

unfoldable pub is_unattended : State → Bool
unfolding state_info
is_unattended s = elim (state_info s) [ none ↦ false | some info ↦ info.unattended ]

-- Go's `Verbs`; an absent entry has no verbs.
unfoldable pub verbs_of : State → List Verb
unfolding state_info
verbs_of s = elim (state_info s) [ none ↦ [] | some info ↦ info.verbs ]

-- The keys of `stateInfo` in the order of Go's constants.
unfoldable pub all_states : List State
all_states =
    blocked ∷ ready ∷ queued ∷ running ∷ failed ∷ cut_failed ∷ push_pending ∷ checking ∷ needs_you
    ∷ push_failed ∷ review_me ∷ pr_merged ∷ pr_closed_unmerged ∷ base_gone ∷ cancelled ∷ base_moved
    ∷ ci_failed ∷ refresh_conflicted ∷ conflicts_with_main ∷ verification_failed
    ∷ waiting_on_producer_deploy ∷ awaiting_input ∷ []

-- The search of `ParseState` over the map. No two entries have one name, so the order does not
-- matter; `none` is the error of an unknown name.
unfoldable pub parse_state : String → Option State
unfolding state_string all_states
parse_state s = find_first (λ state. state_string state == s) all_states
