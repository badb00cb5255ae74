-- ===== src/Plan/Launch/Slots.antt =====
-- internal/plan/launch.go: the slots of a launch plan.
use command_center.Prelude.{
  ℕ, zero, suc, ◌+◌, ◌-◌, ◌≤◌, ◌<◌, ◌≡◌, refl, sym, ap, ◌∙◌, inl, inr, Bool, true, false, List, [],
  ◌∷◌, ◌++◌, map, append-nil, append_assoc, arith, leb, if◌then◌else◌, Bool-cases, length, take,
  select, length-append, length-take-le, ◌==◌, nat_eq, string_eq,
}
use command_center.Plan.Ids.{TicketUrl}
use command_center.Plan.Launch.{LaunchCandidate, picked, select_round, launch_plan}

-- The URLs of the candidates of one round, in order.
abbrev pub round_urls : Bool → List LaunchCandidate → List TicketUrl
round_urls in_flight cs = map (λ (c : LaunchCandidate). c.url) (select (picked in_flight) cs)

take_nil {ℓ} : {A : Type ℓ} (n : ℕ) → take {A = A} n [] ≡ []
take_nil zero = refl
take_nil (suc n) = refl

take-append {ℓ} :
    {A : Type ℓ} (n : ℕ) (xs ys : List A)
    → take n (xs ++ ys) ≡ take n xs ++ take (n - length (take n xs)) ys
take-append zero xs ys = refl
take-append (suc n) [] ys = let e : suc n - 0 ≡ suc n = omega arith in rw e refl
take-append (suc n) (x ∷ xs) ys =
    let e : suc n - suc (length (take n xs)) ≡ n - length (take n xs) = omega arith in
    rw e (ap (◌∷◌ x) (take-append n xs ys))

append_one :
    (free : ℕ) (selected rest : List TicketUrl) (u : TicketUrl)
    → length selected < free
    → (selected ++ u ∷ []) ++ take (free - length (selected ++ u ∷ [])) rest
      ≡ selected ++ take (free - length selected) (u ∷ rest)
append_one free selected rest u h =
    let e : free - length selected ≡ suc (free - length (selected ++ u ∷ [])) =
      omega (arith, length-append selected (u ∷ [])) in
    rw e (append_assoc selected (u ∷ []) (take (free - length (selected ++ u ∷ [])) rest))

select_round-take :
    (free : ℕ) (in_flight : Bool) (selected : List TicketUrl) (cs : List LaunchCandidate)
    → length selected ≤ free
    → select_round free in_flight selected cs
      ≡ selected ++ take (free - length selected) (round_urls in_flight cs)
unfolding select_round
select_round-take free in_flight selected [] h =
    rw (take_nil (free - length selected)) (sym (append-nil selected))
select_round-take free in_flight selected (c ∷ cs) h =
    elim (Bool-cases (leb free (length selected))) [
      | inl full ↦
          let e : free - length selected ≡ 0 = ground arith in
          rw full (rw e (sym (append-nil selected)))
      | inr some_left ↦
          let below : length selected < free = ground arith in
          elim (Bool-cases (picked in_flight c)) [
            | inl y ↦ rw some_left (
                rw y (
                  select_round-take free in_flight (selected ++ c.url ∷ []) cs
                    (omega (arith, length-append selected (c.url ∷ [])))
                  ∙ append_one free selected (round_urls in_flight cs) c.url below))
            | inr z ↦ rw some_left (rw z (select_round-take free in_flight selected cs h))
          ]
    ]

first_round :
    (free : ℕ) (cs : List LaunchCandidate)
    → select_round free true [] cs ≡ take free (round_urls true cs)
first_round free cs =
    let e : free - 0 ≡ free = omega arith in
    select_round-take free true [] cs (omega arith) ∙ rw e refl

pub launch_plan-take :
    (cs : List LaunchCandidate) (running max_agents : ℕ) (paused : Bool)
    → launch_plan cs running max_agents paused ≡ (
        if paused
        then []
        else take (max_agents - running) (round_urls true cs ++ round_urls false cs))
unfolding launch_plan
launch_plan-take cs running max_agents paused = elim (Bool-cases paused) [
  | inl y ↦ rw y refl
  | inr z ↦ elim (Bool-cases ((max_agents - running) == 0)) [
    | inl none_free ↦ let e : max_agents - running ≡ 0 = ground arith in rw z (rw e refl)
    | inr free ↦ rw z (
        rw free (
          rw (first_round (max_agents - running) cs) (
            select_round-take (max_agents - running) false
              (take (max_agents - running) (round_urls true cs)) cs
              (length-take-le (max_agents - running) (round_urls true cs))
            ∙ sym (take-append (max_agents - running) (round_urls true cs) (round_urls false cs)))))
  ]
]

-- With at most `max_agents` runs under way, launching the whole plan leaves at most `max_agents`.
pub launch_plan_capped :
    (cs : List LaunchCandidate) (running max_agents : ℕ) (paused : Bool)
    → running ≤ max_agents
    → running + length (launch_plan cs running max_agents paused) ≤ max_agents
launch_plan_capped cs running max_agents paused h =
    rw (launch_plan-take cs running max_agents paused) (
      ground
        (arith, length-take-le (max_agents - running) (round_urls true cs ++ round_urls false cs)))
