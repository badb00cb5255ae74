-- ===== src/Plan/Stack/Depth.antt =====
-- internal/plan/stack.go, `StackDepth`: the walk along the bases of a stack.
use command_center.Prelude.{
  ℕ, zero, suc, ◌+◌, ◌≤◌, ◌<◌, String, ◌≡◌, refl, inl, inr, Bool, false, not, ◌||◌, some, List, [],
  ◌∷◌, arith, Bool-cases, Option-cases, length, select, length-select-le, ◌==◌, nat_eq, string_eq,
  ==_iff, ==_self, contains, Map, lookup, get_or,
}
use command_center.Plan.Ticket.{default_base_branch}
use command_center.Plan.Stack.{depth_loop, stack_depth}

-- The entries whose base has not been visited.
abbrev unvisited : List String → Map String String → ℕ
unvisited visited m = length (select (λ (e : String × String). not (contains visited e.1)) m)

unvisited-more :
    (b : String) (visited : List String) (m : Map String String)
    → unvisited (b ∷ visited) m ≤ unvisited visited m
unvisited-more b visited [] = omega arith
unvisited-more b visited ((k, v) ∷ m) = ground (arith, unvisited-more b visited m)

-- A base that is read for the first time lowers the number.
unvisited-less :
    (branch : String) (visited : List String) (m : Map String String) (b : String)
    → lookup branch m ≡ some b
    → contains visited b ≡ false
    → unvisited (b ∷ visited) m < unvisited visited m
unfolding lookup
unvisited-less branch visited [] b e h = cc
unvisited-less branch visited ((k, v) ∷ m) b e h = elim (Bool-cases (k == branch)) [
  | inl y ↦ ground (arith, unvisited-more b visited m, ==_iff b v, ==_self b)
  | inr z ↦ ground (arith, unvisited-less branch visited m b)
]

-- The loop stops at a base.
abbrev stops : List String → String → Bool
stops visited base = base == "" || base == default_base_branch || contains visited base

-- A base at which the loop goes on is in the map, and new.
going_on :
    (m : Map String String) (visited : List String) (branch : String)
    → stops visited (get_or branch "" m) ≡ false
    → (lookup branch m ≡ some (get_or branch "" m))
      × (contains visited (get_or branch "" m) ≡ false)
unfolding get_or
going_on m visited branch z = elim (Option-cases (lookup branch m)) [
  | inl n ↦ ground (arith, ==_self (get_or branch "" m))
  | inr (b, e) ↦ ground arith
]

-- With more fuel than bases left, the loop returns, and counts at most those bases.
depth_loop-ends :
    (f : ℕ) (m : Map String String) (visited : List String) (branch : String) (depth : ℕ)
    → unvisited visited m < f
    → (d : ℕ) × (depth_loop f m visited branch depth ≡ some d) × (d ≤ depth + unvisited visited m)
unfolding depth_loop
depth_loop-ends zero m visited branch depth h = ground arith
depth_loop-ends (suc f) m visited branch depth h =
    elim (Bool-cases (stops visited (get_or branch "" m))) [
      | inl y ↦ (depth, rw y refl, omega arith)
      | inr z ↦
          let base = get_or branch "" m in
          let (e, fresh) = going_on m visited branch z in
          let less = unvisited-less branch visited m base e fresh in
          let (d, k, bound) = depth_loop-ends f m (base ∷ visited) base (suc depth) (omega arith) in
          (d, rw z k, omega arith)
    ]

unvisited-le : (visited : List String) (m : Map String String) → unvisited visited m ≤ length m
unvisited-le visited m = length-select-le (λ (e : String × String). not (contains visited e.1)) m

-- The walk down a stack always ends, cycles included, and its depth is at most the number of branches
-- that have a base.
pub stack_depth-ends :
    (branch : String) (bases : Map String String)
    → (d : ℕ) × (stack_depth branch bases ≡ some d) × (d ≤ length bases)
unfolding stack_depth
stack_depth-ends branch bases =
    let (d, e, h) =
      depth_loop-ends (suc (length bases)) bases (branch ∷ []) branch 0
        (omega (arith, unvisited-le (branch ∷ []) bases)) in
    (d, e, omega (arith, unvisited-le (branch ∷ []) bases))
