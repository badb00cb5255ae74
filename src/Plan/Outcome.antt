-- ===== src/Plan/Outcome.antt =====
-- internal/plan/disposition.go: how a run ended.
use command_center.Prelude.{
  ℕ, String, trim_space, ◌≡◌, ◌↔◌, Bool, true, false, ◌&&◌, Option, none, some, List, [], ◌∷◌,
  arith, ltb, nat_beq, if◌then◌else◌, find_first, Eq, ◌==◌, ◌!=◌, nat_eq, string_eq,
}
use command_center.Plan.Vocab.{
  RunKind, run_kind_agent, run_kind_follow_up, GlyphWord, glyph_done, glyph_attention, glyph_failed,
}

pub data Outcome : Type 0 where
  push failed cut_failed asked continued passed : Outcome

abbrev rank : Outcome → ℕ
rank push = 0
rank failed = 1
rank cut_failed = 2
rank asked = 3
rank continued = 4
rank passed = 5

abbrev pub outcome_beq : Outcome → Outcome → Bool
outcome_beq a b = nat_beq (rank a) (rank b)

pub outcome_beq_iff : (a b : Outcome) → (outcome_beq a b ≡ true) ↔ (a ≡ b)
outcome_beq_iff a b = ground arith

instance abbrev pub outcome_eq : Eq Outcome
outcome_eq = record { same = outcome_beq; same_iff = outcome_beq_iff }

-- Go's `outcome == option.Some(o)`.
abbrev pub ended_as : Option Outcome → Outcome → Bool
ended_as none o = false
ended_as (some p) o = p == o

unfoldable pub outcome_string : Outcome → String
outcome_string push = "push"
outcome_string failed = "failed"
outcome_string cut_failed = "cut_failed"
outcome_string asked = "asked"
outcome_string continued = "continued"
outcome_string passed = "passed"

unfoldable pub outcome_glyph : Outcome → GlyphWord
outcome_glyph push = glyph_done
outcome_glyph continued = glyph_done
outcome_glyph passed = glyph_done
outcome_glyph asked = glyph_attention
outcome_glyph failed = glyph_failed
outcome_glyph cut_failed = glyph_failed

abbrev pub all_outcomes : List Outcome
all_outcomes = push ∷ failed ∷ cut_failed ∷ asked ∷ continued ∷ passed ∷ []

-- `none` is the error of an unknown word.
unfoldable pub parse_outcome : String → Option Outcome
unfolding outcome_string
parse_outcome s = find_first (λ o. outcome_string o == s) all_outcomes

abbrev pub empty_question : String
empty_question = "(the agent asked without writing a question)"

-- The question file is a text here: bytes that are no UTF-8, which Go drops, are not modelled.
unfoldable pub asked_question : RunKind → Option String → Option String
unfolding trim_space
asked_question kind none = none
asked_question kind (some file) =
    let question = trim_space file in
    if kind != run_kind_agent && kind != run_kind_follow_up
    then none
    else if question == ""
    then some empty_question
    else some question

unfoldable pub disposition : ℕ → Outcome
disposition commits_after_baseline = if ltb 0 commits_after_baseline then push else failed
