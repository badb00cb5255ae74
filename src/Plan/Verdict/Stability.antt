-- ===== src/Plan/Verdict/Stability.antt =====
-- internal/plan/verdict/verdict.go: predicates while checks report, and predicates without checks.
use command_center.Prelude.{
  String, ◌≡◌, refl, ◌∙◌, ◌≢◌, ◌⊎◌, inl, inr, true, [], arith, nat_eq, string_eq, ==_iff, get_or,
}
use command_center.Plan.Verdict.{
  CheckState, pending, success, skipped, Predicate, predicate, Predicates, nil, cons, Negated,
  absent, negated, is_nil, is_absent, Input, TriState, waiting, negate, leaf, resolve,
  require_conclusion,
}
use command_center.Plan.Verdict.Kleene.{
  meet, join_tri, meaning, meaning_all, meaning_any, meaning_not, resolve_kleene,
}

-- No leaf of the predicate reads the absence of a check.
unfoldable mutual
  pub ReadsNoAbsence : Predicate → Type 0
  ReadsNoAbsence (predicate conj disj neg on_success on_skipped on_absent by_author) =
      ReadNoAbsence conj × ReadNoAbsence disj × NotReadsNoAbsence neg × (on_absent ≡ "")

  pub ReadNoAbsence : Predicates → Type 0
  ReadNoAbsence nil = Unit
  ReadNoAbsence (cons p ps) = ReadsNoAbsence p × ReadNoAbsence ps

  pub NotReadsNoAbsence : Negated → Type 0
  NotReadsNoAbsence absent = Unit
  NotReadsNoAbsence (negated p) = ReadsNoAbsence p

-- `later` has the checks of `i` that have finished, as they finished, and the same author.
pub record Extends (i later : Input) : Type 0 where
  pub same_author : later.author_login ≡ i.author_login
  pub finished :
      (name : String)
      → (get_or name pending i.checks ≡ pending)
        ⊎ (get_or name pending later.checks ≡ get_or name pending i.checks)

-- `t` is undecided, or `u` is the same.
abbrev Settles : TriState → TriState → Type 0
Settles t u = (t ≡ waiting) ⊎ (u ≡ t)

meet-Settles :
    (t t' u u' : TriState) → Settles t t' → Settles u u' → Settles (meet t u) (meet t' u')
unfolding meet
meet-Settles t t' u u' h k = ground arith

join-Settles :
    (t t' u u' : TriState) → Settles t t' → Settles u u' → Settles (join_tri t u) (join_tri t' u')
unfolding join_tri
join-Settles t t' u u' h k = ground arith

negate-Settles : (t t' : TriState) → Settles t t' → Settles (negate t) (negate t')
unfolding negate
negate-Settles t t' h = ground arith

require-Settles :
    (got later want : CheckState)
    → want ≢ pending
    → (got ≡ pending) ⊎ (later ≡ got)
    → Settles (require_conclusion got want) (require_conclusion later want)
unfolding require_conclusion
require-Settles got later want n h = ground arith

leaf-Settles :
    (i later : Input) (a b c d : String)
    → Extends i later
    → c ≡ ""
    → Settles (leaf i a b c d).0 (leaf later a b c d).0
unfolding leaf
leaf-Settles i later a b c d e n = ground (
  arith,
  require-Settles (get_or a pending i.checks) (get_or a pending later.checks) success,
  require-Settles (get_or b pending i.checks) (get_or b pending later.checks) skipped,
  e.finished a,
  e.finished b,
  e.same_author,
  ==_iff c "",
)

mutual
  unfolding meaning ReadsNoAbsence

  meaning-Settles :
      (i later : Input) (p : Predicate)
      → Extends i later
      → ReadsNoAbsence p
      → Settles (meaning i p) (meaning later p)
  meaning-Settles i later (predicate conj disj neg a b c d) e (hc, hd, hn, ha) = ground (
    arith,
    meaning_all-Settles i later conj e hc,
    meaning_any-Settles i later disj e hd,
    meaning_not-Settles i later neg e hn,
    leaf-Settles i later a b c d e ha,
  )

  meaning_all-Settles :
      (i later : Input) (ps : Predicates)
      → Extends i later
      → ReadNoAbsence ps
      → Settles (meaning_all i ps) (meaning_all later ps)
  meaning_all-Settles i later nil e h = inr refl
  meaning_all-Settles i later (cons p ps) e (h, k) =
      meet-Settles (meaning i p) (meaning later p) (meaning_all i ps) (meaning_all later ps)
        (meaning-Settles i later p e h) (meaning_all-Settles i later ps e k)

  meaning_any-Settles :
      (i later : Input) (ps : Predicates)
      → Extends i later
      → ReadNoAbsence ps
      → Settles (meaning_any i ps) (meaning_any later ps)
  meaning_any-Settles i later nil e h = inr refl
  meaning_any-Settles i later (cons p ps) e (h, k) =
      join-Settles (meaning i p) (meaning later p) (meaning_any i ps) (meaning_any later ps)
        (meaning-Settles i later p e h) (meaning_any-Settles i later ps e k)

  meaning_not-Settles :
      (i later : Input) (n : Negated)
      → Extends i later
      → NotReadsNoAbsence n
      → Settles (meaning_not i n) (meaning_not later n)
  meaning_not-Settles i later absent e h = inl refl
  meaning_not-Settles i later (negated p) e h =
      negate-Settles (meaning i p) (meaning later p) (meaning-Settles i later p e h)

-- A predicate with no `absent_ok` leaf that resolves to green or red on the checks of `i` resolves
-- to the same on every `later` input by the same author in which the checks that had finished stand
-- as they finished, whatever the other checks report.
pub resolve_stable :
    (i later : Input) (p : Predicate)
    → ReadsNoAbsence p
    → Extends i later
    → (resolve i p).0 ≢ waiting
    → (resolve later p).0 ≡ (resolve i p).0
resolve_stable i later p h e n =
    ground (arith, resolve_kleene i p, resolve_kleene later p, meaning-Settles i later p e h)

-- Only leaves that ask for a check to succeed or be skipped, under `all_of` and `any_of`.
unfoldable mutual
  pub AsksChecks : Predicate → Type 0
  AsksChecks (predicate conj disj neg on_success on_skipped on_absent by_author) =
      AskChecks conj × AskChecks disj × (is_absent neg ≡ true) × (on_absent ≡ "") × (by_author ≡ "")

  pub AskChecks : Predicates → Type 0
  AskChecks nil = Unit
  AskChecks (cons p ps) = AsksChecks p × AskChecks ps

unchecked_leaf :
    (i : Input) (a b c d : String) → i.checks ≡ [] → c ≡ "" → d ≡ "" → (leaf i a b c d).0 ≡ waiting
unfolding leaf
unchecked_leaf i a b c d h n m = ground (arith, ==_iff c "", ==_iff d "")

mutual
  unfolding meaning meet join_tri AsksChecks

  unchecked_meaning :
      (i : Input) (p : Predicate) → i.checks ≡ [] → AsksChecks p → meaning i p ≡ waiting
  unchecked_meaning i (predicate conj disj neg a b c d) h (hc, hd, hn, ha, hu) = ground (
    arith,
    unchecked_all i conj h hc,
    unchecked_any i disj h hd,
    unchecked_leaf i a b c d h ha hu,
  )

  unchecked_all :
      (i : Input) (ps : Predicates)
      → i.checks ≡ []
      → AskChecks ps
      → (is_nil ps ≡ true) ⊎ (meaning_all i ps ≡ waiting)
  unchecked_all i nil h a = inl refl
  unchecked_all i (cons p nil) h (a, b) = inr (ground (arith, unchecked_meaning i p h a))
  unchecked_all i (cons p ps) h (a, b) =
      inr (ground (arith, unchecked_meaning i p h a, unchecked_all i ps h b))

  unchecked_any :
      (i : Input) (ps : Predicates)
      → i.checks ≡ []
      → AskChecks ps
      → (is_nil ps ≡ true) ⊎ (meaning_any i ps ≡ waiting)
  unchecked_any i nil h a = inl refl
  unchecked_any i (cons p nil) h (a, b) = inr (ground (arith, unchecked_meaning i p h a))
  unchecked_any i (cons p ps) h (a, b) =
      inr (ground (arith, unchecked_meaning i p h a, unchecked_any i ps h b))

pub unchecked-resolve :
    (i : Input) (p : Predicate) → i.checks ≡ [] → AsksChecks p → (resolve i p).0 ≡ waiting
unchecked-resolve i p h a = resolve_kleene i p ∙ unchecked_meaning i p h a
