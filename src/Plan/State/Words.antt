-- ===== src/Plan/State/Words.antt =====
-- internal/plan/state.go: the names of the states, and the verbs that they offer.
use command_center.Prelude.{
  String, ◌≡◌, refl, ◌≢◌, ◌↔◌, ◌⊎◌, Bool, true, false, some, arith, is_empty, ◌==◌, nat_eq,
  string_eq, ==_iff,
}
use command_center.Prelude.{find_first_sound, find_first-every}
use command_center.Plan.State.{
  State, state_string, all_states, parse_state, verbs_of, is_unattended,
}

abbrev is_known : State → Bool
is_known State.unknown = false
is_known _ = true

known : (s : State) → is_known s ≡ true → s ≢ State.unknown
known s h = λ e. ground arith

find-name : (s : State) → s ≢ State.unknown → parse_state (state_string s) ≡ some s
unfolding parse_state
find-name State.unknown h = absurd (h refl)
find-name State.blocked h = refl
find-name _ h = refl

-- A text parses to a state exactly when it is the state's name and the state is not `StateUnknown`.
-- So no two states share a name.
pub parse_state_iff :
    (text : String) (s : State)
    → (parse_state text ≡ some s) ↔ ((state_string s ≡ text) × (s ≢ State.unknown))
unfolding parse_state
parse_state_iff text s = (
  λ e. (
    (==_iff (state_string s) text).0
        (find_first_sound (λ state. state_string state == text) all_states s e),
    known s (find_first-every (λ state. state_string state == text) is_known all_states s refl e),
  ),
  λ (named, h). rw (← named) (find-name s h),
)

-- A state that waits for the owner offers a verb, but for the two states in which the owner acts on
-- GitHub: ready for review, and the unknown state.
pub verbs_of-attended :
    (s : State)
    → is_unattended s ≡ false
    → (is_empty (verbs_of s) ≡ false) ⊎ (s ≡ State.review_me) ⊎ (s ≡ State.unknown)
unfolding verbs_of is_unattended
verbs_of-attended s h = ground arith
