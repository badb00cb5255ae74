-- ===== src/Plan/Verdict/Kleene.antt =====
-- internal/plan/verdict/verdict.go: what a predicate means in the three-valued logic of Kleene.
use command_center.Prelude.{
  String, ◌≡◌, refl, sym, ap, ◌∙◌, ◌≢◌, ◌⊎◌, inl, inr, false, not, List, [], arith, if◌then◌else◌,
  nat_eq, string_eq,
}
use command_center.Plan.Verdict.{
  Predicate, predicate, Predicates, nil, cons, Negated, absent, negated, is_nil, is_absent, Input,
  TriState, waiting, green, red, negate, leaf, all_round, any_round, any_end, is_green, resolve,
  all_of, any_of, resolve_not,
}

-- Conjunction and disjunction: red and green win, in turn, over everything else.
unfoldable pub meet : TriState → TriState → TriState
meet red t = red
meet green t = t
meet waiting red = red
meet waiting green = waiting
meet waiting waiting = waiting

unfoldable pub join_tri : TriState → TriState → TriState
join_tri green t = green
join_tri red t = t
join_tri waiting green = green
join_tri waiting red = waiting
join_tri waiting waiting = waiting

unfoldable mutual
  unfolding meet join_tri

  pub meaning : Input → Predicate → TriState
  meaning i (predicate conj disj neg on_success on_skipped on_absent by_author) =
      let every_one = meaning_all i conj in
      let some_one = meaning_any i disj in
      let opposite = meaning_not i neg in
      if not (is_nil conj)
      then every_one
      else if not (is_nil disj)
      then some_one
      else if not (is_absent neg)
      then opposite
      else (leaf i on_success on_skipped on_absent by_author).0

  pub meaning_all : Input → Predicates → TriState
  meaning_all i nil = green
  meaning_all i (cons p ps) = meet (meaning i p) (meaning_all i ps)

  pub meaning_any : Input → Predicates → TriState
  meaning_any i nil = red
  meaning_any i (cons p ps) = join_tri (meaning i p) (meaning_any i ps)

  pub meaning_not : Input → Negated → TriState
  meaning_not i absent = waiting
  meaning_not i (negated p) = negate (meaning i p)

meet-all_round :
    (acc r : TriState × List String) (t : TriState)
    → meet (all_round acc r).0 t ≡ meet acc.0 (meet r.0 t)
unfolding meet all_round
meet-all_round acc r t = ground arith

meet_green : (t : TriState) → meet t green ≡ t
unfolding meet
meet_green t = ground arith

-- A round of `anyOf` that goes on has met no green predicate.
join-any_round :
    (acc r : TriState × List String) (t : TriState)
    → acc.0 ≢ green
    → r.0 ≢ green
    → (join_tri (any_round acc r).0 t ≡ join_tri acc.0 (join_tri r.0 t))
      × ((any_round acc r).0 ≢ green)
unfolding join_tri any_round
join-any_round acc r t h k = (ground arith, ground arith)

any_end_state : (acc : TriState × List String) → (any_end acc).0 ≡ acc.0
unfolding any_end
any_end_state acc = ground arith

join_red : (t : TriState) → join_tri t red ≡ t
unfolding join_tri
join_red t = ground arith

join_green : (t u : TriState) → join_tri t (join_tri green u) ≡ green
unfolding join_tri
join_green t u = ground arith

is_green-cases : (t : TriState) → (t ≡ green) ⊎ ((is_green t ≡ false) × (t ≢ green))
is_green-cases green = inl refl
is_green-cases waiting = inr (refl, λ e. cc)
is_green-cases red = inr (refl, λ e. cc)

mutual
  unfolding resolve meaning

  resolve-meaning : (i : Input) (p : Predicate) → (resolve i p).0 ≡ meaning i p
  resolve-meaning i (predicate conj disj neg on_success on_skipped on_absent by_author) = ground (
    arith,
    all_of-meaning i conj (green, []),
    any_of-meaning i disj (red, []) (λ e. cc),
    resolve_not-meaning i neg,
  )

  all_of-meaning :
      (i : Input) (ps : Predicates) (acc : TriState × List String)
      → (all_of i ps acc).0 ≡ meet acc.0 (meaning_all i ps)
  all_of-meaning i nil acc = sym (meet_green acc.0)
  all_of-meaning i (cons p ps) acc =
      all_of-meaning i ps (all_round acc (resolve i p))
      ∙ meet-all_round acc (resolve i p) (meaning_all i ps)
      ∙ ap (λ t. meet acc.0 (meet t (meaning_all i ps))) (resolve-meaning i p)

  any_of-meaning :
      (i : Input) (ps : Predicates) (acc : TriState × List String)
      → acc.0 ≢ green
      → (any_of i ps acc).0 ≡ join_tri acc.0 (meaning_any i ps)
  any_of-meaning i nil acc h = any_end_state acc ∙ sym (join_red acc.0)
  any_of-meaning i (cons p ps) acc h = elim (is_green-cases (resolve i p).0) [
    | inl e ↦ ground (arith, resolve-meaning i p, join_green acc.0 (meaning_any i ps))
    | inr (e, n) ↦ ground (
      arith,
      any_of-meaning i ps (any_round acc (resolve i p)),
      join-any_round acc (resolve i p) (meaning_any i ps) h n,
      resolve-meaning i p,
    )
  ]

  resolve_not-meaning : (i : Input) (n : Negated) → (resolve_not i n).0 ≡ meaning_not i n
  resolve_not-meaning i absent = refl
  resolve_not-meaning i (negated p) = ap negate (resolve-meaning i p)

-- The loops of `allOf` and `anyOf`, with their early exit, give a predicate its meaning in Kleene's
-- three-valued logic: the conjunction, disjunction or negation of its parts, or its leaf's state.
pub resolve_kleene : (i : Input) (p : Predicate) → (resolve i p).0 ≡ meaning i p
resolve_kleene i p = resolve-meaning i p
