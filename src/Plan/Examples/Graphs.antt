-- ===== src/Plan/Examples/Graphs.antt =====
-- The waves of a graph.
use command_center.Prelude.{
  ℕ, ◌+◌, ◌≡◌, refl, sym, ap, inl, inr, false, none, some, [], ◌∷◌, arith, if◌then◌else◌,
  Bool-cases, ◌==◌, nat_eq, string_eq, ==_iff, contains, Map, lookup, keys, get_or, has,
}
use command_center.Prelude.{subst}
use command_center.Plan.Ids.{TicketUrl}
use command_center.Plan.Waves.{Blocking, waves}
use command_center.Plan.Waves.Levels.{above, waves-level}
use command_center.Plan.Waves.Total.{waves-ends}
use command_center.Plan.Examples.Data.{base, top}

-- The waves of two tickets, one of which blocks the other.
abbrev one_blocks : Blocking
one_blocks = ("t/1", []) ∷ ("t/2", "t/1" ∷ []) ∷ []

abbrev one_above : TicketUrl → ℕ
one_above u = if u == "t/2" then 1 else 0

abbrev IsLevel : TicketUrl → Type 0
IsLevel u = one_above u ≡ above one_above one_blocks (get_or u [] one_blocks)

one_above-IsLevel : (u : TicketUrl) → IsLevel u
unfolding get_or has lookup
one_above-IsLevel u = elim (Bool-cases (u == top.url)) [
  | inl y ↦ subst IsLevel (sym ((==_iff u top.url).0 y)) refl
  | inr z ↦ elim (Bool-cases (base.url == u)) [
    | inl k ↦ subst IsLevel ((==_iff base.url u).0 k) refl
    | inr n ↦
        let other : (top.url == u) ≡ false = ground (arith, ==_iff u top.url, ==_iff top.url u) in
        let empty : get_or u [] one_blocks ≡ [] = rw (get_or, n) (rw other refl) in
        rw z (sym (ap (above one_above one_blocks) empty))
  ]
]

waves-level_example :
    (m : Map TicketUrl ℕ) × (waves one_blocks ≡ some m)
    × ((u : TicketUrl)
        → lookup u m ≡ (if contains ("t/1" ∷ "t/2" ∷ []) u then some (one_above u + 1) else none))
waves-level_example = waves-level one_above one_blocks one_above-IsLevel (λ u. ground arith)

-- Two tickets that block each other.
abbrev cycle : Blocking
cycle = ("t/1", "t/2" ∷ []) ∷ ("t/2", "t/1" ∷ []) ∷ []

waves-ends_example :
    (m : Map TicketUrl ℕ) × (waves cycle ≡ some m)
    × ((u : TicketUrl) → has u m ≡ contains (keys cycle) u)
waves-ends_example = waves-ends cycle
