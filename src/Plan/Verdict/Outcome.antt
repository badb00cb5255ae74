-- ===== src/Plan/Verdict/Outcome.antt =====
-- internal/plan/verdict/verdict.go, `Evaluate`: the kinds of verdicts.
use command_center.Prelude.{
  String, ◌≡◌, ◌≢◌, ◌↔◌, Bool, true, false, not, ◌&&◌, List, arith, nat_eq, string_eq,
}
use command_center.Plan.Verdict.{
  review_me, needs_you, ci_failed, base_moved, waiting_on_producer_deploy, Predicate, Input,
  TriState, waiting, green, red, waited, resolve, conclude, evaluate, observed, forced_green,
}
use command_center.Plan.Verdict.Stability.{AsksChecks, unchecked-resolve}

-- The parent moved past the base that the branch was pushed on.
abbrev pub base_has_moved : Input → Bool
base_has_moved i = i.stacked_base && not i.base_sha_match

-- The input of the second run, with the compat check taken as passed.
abbrev pub forced : Input → Input
forced i = record (observed i) { checks = forced_green (observed i).checks i.compat_check }

observed_flags :
    (i : Input)
    → ((observed i).config_hash_ok ≡ i.config_hash_ok)
      × ((observed i).compat_check ≡ i.compat_check)
      × (waited (observed i) ≡ waited i)
unfolding waited
observed_flags i = ground arith

conclude_kind :
    (i : Input) (r : TriState × List String)
    → (((conclude i r).kind ≡ review_me) ↔ ((r.0 ≡ green) × (i.config_hash_ok ≡ true)))
      × (((conclude i r).kind ≡ ci_failed) ↔ (r.0 ≡ red))
      × (((conclude i r).kind ≡ needs_you) ↔ ((r.0 ≡ waiting) × (waited i ≡ true)))
      × ((conclude i r).kind ≢ base_moved)
      × ((conclude i r).kind ≢ waiting_on_producer_deploy)
unfolding conclude
conclude_kind i r = ground arith

-- The verdict is `review_me` exactly when the base has not moved, the predicate resolves to green on
-- the checks of the pushed head, and the check configuration is the recorded one.
pub evaluate-review_me_iff :
    (p : Predicate) (i : Input)
    → ((evaluate p i).kind ≡ review_me) ↔ (
        (base_has_moved i ≡ false)
        × ((resolve (observed i) p).0 ≡ green)
        × (i.config_hash_ok ≡ true))
unfolding evaluate
evaluate-review_me_iff p i = ground (
  arith,
  conclude_kind (observed i) (resolve (observed i) p),
  conclude_kind (forced i) (resolve (forced i) p),
  observed_flags i,
)

-- When the pushed head is not the one observed, a predicate that only asks for checks to succeed or
-- be skipped gives neither a green verdict nor a failed one: the checks of another commit count for
-- nothing.
pub evaluate_unobserved :
    (p : Predicate) (i : Input)
    → i.head_oid_match ≡ false
    → AsksChecks p
    → ((evaluate p i).kind ≢ review_me) × ((evaluate p i).kind ≢ ci_failed)
unfolding evaluate
evaluate_unobserved p i h a = ground (
  arith,
  conclude_kind (observed i) (resolve (observed i) p),
  conclude_kind (forced i) (resolve (forced i) p),
  unchecked-resolve (observed i) p (ground arith) a,
)
