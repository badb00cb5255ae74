-- ===== src/Plan/Verdict.antt =====
-- internal/plan/verdict/verdict.go: the predicate over the checks of a pull request, and its verdict.
-- Times are nanoseconds since the zero time.
pub mod Kleene
pub mod Stability
pub mod Outcome
use command_center.Prelude.{
  ℕ, zero, suc, ◌-◌, String, ◌⧺◌, join, cut, refl, Bool, true, false, not, ◌&&◌, ◌||◌, none, some,
  List, [], ◌∷◌, ◌++◌, arith, leb, nat_beq, if◌then◌else◌, ◌==◌, ◌!=◌, nat_eq, string_eq, Map,
  lookup, insert, get_or,
}

pub data CheckState : Type 0 where
  pending success failure skipped : CheckState

abbrev check_rank : CheckState → ℕ
check_rank pending = 0
check_rank success = 1
check_rank failure = 2
check_rank skipped = 3

abbrev pub check_beq : CheckState → CheckState → Bool
check_beq a b = nat_beq (check_rank a) (check_rank b)

unfoldable pub check_string : CheckState → String
check_string success = "passed"
check_string skipped = "skipped"
check_string pending = "failed"
check_string failure = "failed"

pub data Kind : Type 0 where
  kind_unknown checking review_me needs_you ci_failed base_moved waiting_on_producer_deploy : Kind

-- The zero value of a missing entry of `kindNames` is the empty text.
unfoldable pub kind_string : Kind → String
kind_string kind_unknown = ""
kind_string checking = "checking"
kind_string review_me = "review_me"
kind_string needs_you = "needs_you"
kind_string ci_failed = "ci_failed"
kind_string base_moved = "base_moved"
kind_string waiting_on_producer_deploy = "waiting_on_producer_deploy"

-- Ten minutes.
abbrev pub bounded_wait : ℕ
bounded_wait = 600_000_000_000

-- `all_of`, `any_of`, `not` (absent is Go's nil), `success`, `skipped`, `absent_ok`, `author`.
mutual
  pub data Predicate : Type 0 where
    predicate : Predicates → Predicates → Negated → String → String → String → String → Predicate

  pub data Predicates : Type 0 where
    nil : Predicates
    cons : Predicate → Predicates → Predicates

  pub data Negated : Type 0 where
    absent : Negated
    negated : Predicate → Negated

abbrev pub is_nil : Predicates → Bool
is_nil nil = true
is_nil (cons p ps) = false

abbrev pub is_absent : Negated → Bool
is_absent absent = true
is_absent (negated p) = false

unfoldable pub is_zero : Predicate → Bool
is_zero (predicate conj disj neg on_success on_skipped on_absent by_author) =
    is_nil conj
    && is_nil disj
    && is_absent neg
    && on_success == ""
    && on_skipped == ""
    && on_absent == ""
    && by_author == ""

abbrev pub zero_predicate : Predicate
zero_predicate = predicate nil nil absent "" "" "" ""

pub record Input : Type 0 where
  pub checks : Map String CheckState
  pub head_oid_match : Bool
  pub stacked_base : Bool
  pub base_sha_match : Bool
  pub config_hash_ok : Bool
  pub pushed_at : ℕ
  pub now : ℕ
  pub author_login : String
  pub compat_check : String

pub record Result : Type 0 where
  pub kind : Kind
  pub reason : String
  pub red_leaves : List String

pub data TriState : Type 0 where
  waiting green red : TriState

unfoldable pub waited : Input → Bool
waited i = i.pushed_at != 0 && leb bounded_wait (i.now - i.pushed_at)

unfoldable pub negate : TriState → TriState
negate green = red
negate red = green
negate waiting = waiting

unfoldable pub require_conclusion : CheckState → CheckState → TriState
require_conclusion got want =
    if check_beq got want then green else if check_beq got pending then waiting else red

abbrev pub present_ok : CheckState → TriState
present_ok success = green
present_ok skipped = green
present_ok pending = waiting
present_ok failure = red

unfoldable pub absent_ok : Map String CheckState → String → Input → TriState
unfolding waited
absent_ok checks name i = elim (lookup name checks) [
  | none ↦ if waited i then green else waiting
  | some got ↦ present_ok got
]

unfoldable pub author : String → String → TriState
author got want = if got == want then green else red

unfoldable pub leaf_result : TriState → String → TriState × List String
leaf_result red name = (red, name ∷ [])
leaf_result t name = (t, [])

unfoldable pub leaf : Input → String → String → String → String → TriState × List String
unfolding leaf_result require_conclusion absent_ok author get_or
leaf i on_success on_skipped on_absent by_author =
    if on_success != ""
    then leaf_result (require_conclusion (get_or on_success pending i.checks) success) on_success
    else if on_skipped != ""
    then leaf_result (require_conclusion (get_or on_skipped pending i.checks) skipped) on_skipped
    else if on_absent != ""
    then leaf_result (absent_ok i.checks on_absent i) on_absent
    else if by_author != ""
    then leaf_result (author i.author_login by_author) by_author
    else (waiting, [])

-- One round of the loop of `allOf`, over its result so far.
unfoldable pub all_round : TriState × List String → TriState × List String → TriState × List String
all_round (result, leaves) (red, more) = (red, leaves ++ more)
all_round (green, leaves) (waiting, more) = (waiting, leaves)
all_round (result, leaves) (waiting, more) = (result, leaves)
all_round (result, leaves) (green, more) = (result, leaves)

-- One round of the loop of `anyOf` for a predicate that is not green.
unfoldable pub any_round : TriState × List String → TriState × List String → TriState × List String
any_round (result, leaves) (red, more) = (result, leaves ++ more)
any_round (result, leaves) (_, more) = (waiting, leaves)

unfoldable pub any_end : TriState × List String → TriState × List String
any_end (red, leaves) = (red, leaves)
any_end (result, leaves) = (result, [])

abbrev pub is_green : TriState → Bool
is_green green = true
is_green _ = false

-- `resolve`, with the loops of `allOf` and `anyOf` over their results so far.
unfoldable mutual
  unfolding leaf all_round any_round any_end negate

  pub resolve : Input → Predicate → TriState × List String
  resolve i (predicate conj disj neg on_success on_skipped on_absent by_author) =
      let of_all = all_of i conj (green, []) in
      let of_any = any_of i disj (red, []) in
      let of_not = resolve_not i neg in
      if not (is_nil conj)
      then of_all
      else if not (is_nil disj)
      then of_any
      else if not (is_absent neg)
      then of_not
      else leaf i on_success on_skipped on_absent by_author

  pub all_of : Input → Predicates → TriState × List String → TriState × List String
  all_of i nil acc = acc
  all_of i (cons p ps) acc = all_of i ps (all_round acc (resolve i p))

  pub any_of : Input → Predicates → TriState × List String → TriState × List String
  any_of i nil acc = any_end acc
  any_of i (cons p ps) acc =
      let r = resolve i p in
      let rest = any_of i ps (any_round acc r) in if is_green r.0 then (green, []) else rest

  pub resolve_not : Input → Negated → TriState × List String
  resolve_not i absent = (waiting, [])
  resolve_not i (negated p) = (negate (resolve i p).0, [])

-- The `switch` of `evaluate` on a resolved predicate.
unfoldable pub conclude : Input → TriState × List String → Result
unfolding waited join
conclude i (red, leaves) = record {
  kind = ci_failed;
  reason = "required check failed: " ⧺ join ", " leaves;
  red_leaves = leaves;
}
conclude i (green, leaves) =
    if i.config_hash_ok
    then record { kind = review_me; reason = "every required check passed"; red_leaves = [] }
    else record { kind = checking; reason = "check config changed"; red_leaves = [] }
conclude i (waiting, leaves) =
    if waited i
    then record { kind = needs_you; reason = "no matching rollup within the wait"; red_leaves = [] }
    else record { kind = checking; reason = "waiting on checks"; red_leaves = [] }

unfoldable pub evaluate_once : Predicate → Input → Result
evaluate_once p i = conclude i (resolve i p)

-- `make`, `maps.Copy` and the assignment: the copy has the entries of `checks`.
unfoldable pub forced_green : Map String CheckState → String → Map String CheckState
unfolding insert
forced_green checks name = insert name success checks

-- The second half of `Evaluate`: the run with the compat check forced, read by kind.
unfoldable pub reconsider : Result → Result → Result
reconsider result forced = elim forced.kind [
  | review_me ↦ record {
    kind = waiting_on_producer_deploy;
    reason = "every required check passed except the compat check";
    red_leaves = [];
  }
  | checking ↦ forced
  | _ ↦ result
]

abbrev pub is_refusal : Kind → Bool
is_refusal needs_you = true
is_refusal ci_failed = true
is_refusal _ = false

abbrev pub observed : Input → Input
observed i = if i.head_oid_match then i else record i { checks = [] }

unfoldable pub evaluate : Predicate → Input → Result
unfolding evaluate_once reconsider
evaluate p i =
    let seen = observed i in
    let result = evaluate_once p seen in
    let forced =
      evaluate_once p (record seen { checks = forced_green seen.checks seen.compat_check }) in
    if i.stacked_base && not i.base_sha_match
    then record {
      kind = base_moved;
      reason = "base moved: the parent advanced past what this branch was cut from";
      red_leaves = [];
    }
    else if not (is_refusal result.kind) || seen.compat_check == ""
    then result
    else reconsider result forced
