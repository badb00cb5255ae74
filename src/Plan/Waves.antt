-- ===== src/Plan/Waves.antt =====
-- internal/plan/stack.go, `Waves` and `WaveCount`: the order in which the tickets of a graph can start.
pub mod Levels
pub mod Total
use command_center.Prelude.{
  ℕ, zero, suc, ◌+◌, max, refl, Bool, true, false, ◌||◌, Option, none, some, List, [], ◌∷◌, arith,
  if◌then◌else◌, length, nat_eq, string_eq, Map, keys, values, lookup, insert, get_or, has,
}
use command_center.Plan.Ids.{TicketUrl}

abbrev pub Blocking : Type 0
Blocking = Map TicketUrl (List TicketUrl)

-- The variables `depth` and `visiting` of `Waves`.
pub record WaveState : Type 0 where
  pub depth : Map TicketUrl ℕ
  pub visiting : Map TicketUrl Bool

-- The loop over the blockers of a ticket; `depth_of` is the closure `depthOf`. `none` is a lack of fuel.
unfoldable pub blockers_depth :
    (TicketUrl → WaveState → Option (ℕ × WaveState))
    → Blocking
    → List TicketUrl
    → ℕ
    → WaveState
    → Option (ℕ × WaveState)
blockers_depth depth_of blocking [] d s = some (d, s)
blockers_depth depth_of blocking (x ∷ xs) d s =
    if has x blocking
    then elim (depth_of x s) [
      | none ↦ none
      | some (e, t) ↦ blockers_depth depth_of blocking xs (max d (e + 1)) t
    ]
    else blockers_depth depth_of blocking xs d s

abbrev pub settle : TicketUrl → Option (ℕ × WaveState) → Option (ℕ × WaveState)
settle url none = none
settle url (some (d, s)) =
    some (d, record { depth = insert url d s.depth; visiting = insert url false s.visiting })

abbrev pub visit : TicketUrl → WaveState → WaveState
visit url s = record s { visiting = insert url true s.visiting }

unfoldable pub depth_of : ℕ → Blocking → TicketUrl → WaveState → Option (ℕ × WaveState)
unfolding blockers_depth
depth_of zero blocking url s = none
depth_of (suc f) blocking url s =
    let deeper =
      settle url
        (blockers_depth (depth_of f blocking) blocking (get_or url [] blocking) 0 (visit url s)) in
    elim (lookup url s.depth) [
      | some d ↦ some (d, s)
      | none ↦ if get_or url false s.visiting then some (0, s) else deeper
    ]

-- The loop over the tickets. Its depths are at most the number of the tickets, so one more round is
-- enough fuel.
unfoldable pub waves_loop :
    Blocking → List TicketUrl → WaveState → Map TicketUrl ℕ → Option (Map TicketUrl ℕ)
unfolding depth_of
waves_loop blocking [] s waves = some waves
waves_loop blocking (u ∷ us) s waves = elim (depth_of (suc (length blocking)) blocking u s) [
  | none ↦ none
  | some (d, t) ↦ waves_loop blocking us t (insert u (d + 1) waves)
]

unfoldable pub waves : Blocking → Option (Map TicketUrl ℕ)
unfolding waves_loop
waves blocking = waves_loop blocking (keys blocking) (record { depth = []; visiting = [] }) []

unfoldable pub highest : List ℕ → ℕ
highest [] = 0
highest (n ∷ ns) = max n (highest ns)

unfoldable pub wave_count : Blocking → Option ℕ
unfolding waves highest
wave_count blocking = elim (waves blocking) [ none ↦ none | some m ↦ some (highest (values m)) ]
