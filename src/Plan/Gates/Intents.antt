-- ===== src/Plan/Gates/Intents.antt =====
-- internal/plan/gates.go, `Intents`: the intents of a verb.
use command_center.Prelude.{
  ◌≡◌, refl, ap, ◌∙◌, inl, inr, Bool, ◌&&◌, List, [], ◌∷◌, ltb, Bool-cases, length, select, ◌==◌,
  nat_eq, string_eq,
}
use command_center.Prelude.Sorting.{Ascending, sort_by-Ascending, passing-sort_by}
use command_center.Plan.Vocab.{Verb}
use command_center.Plan.Input.{Intent}
use command_center.Plan.Snapshot.{Snapshot}
use command_center.Plan.Gates.{all_intents, intents_of}

select_twice {ℓ} :
    {A : Type ℓ} (p q : A → Bool) (xs : List A)
    → select p (select q xs) ≡ select (λ x. p x && q x) xs
select_twice p q [] = refl
select_twice p q (x ∷ xs) = elim (Bool-cases (q x)) [
  | inl y ↦ elim (Bool-cases (p x)) [
    | inl k ↦ rw y (rw k (ap (◌∷◌ x) (select_twice p q xs)))
    | inr k ↦ rw y (rw k (select_twice p q xs))
  ]
  | inr z ↦ elim (Bool-cases (p x)) [
    | inl k ↦ rw z (rw k (select_twice p q xs))
    | inr k ↦ rw z (rw k (select_twice p q xs))
  ]
]

-- The intents of a verb come in ascending order of their ids, and are the recorded ones of the verb: a
-- test passes on as many of them as there are recorded intents of the verb on which it passes.
pub intents_of-Ascending :
    (s : Snapshot) (verb : Verb) (p : Intent → Bool)
    → Ascending (λ (x : Intent). x.id) (intents_of s verb)
      × (length (select p (intents_of s verb))
          ≡ length (select (λ (x : Intent). p x && x.verb == verb) (all_intents s.intents)))
unfolding intents_of
intents_of-Ascending s verb p =
    let of_verb = λ (x : Intent). x.verb == verb in
    (
      sort_by-Ascending (λ (x : Intent). x.id) (select of_verb (all_intents s.intents)),
      passing-sort_by p (λ (a b : Intent). ltb a.id b.id) (select of_verb (all_intents s.intents))
          ∙ ap length (select_twice p of_verb (all_intents s.intents)),
    )
