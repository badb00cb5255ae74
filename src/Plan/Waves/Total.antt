-- ===== src/Plan/Waves/Total.antt =====
-- internal/plan/stack.go, `Waves`: the walk on every graph, with cycles or without.
use command_center.Prelude.{
  ℕ, zero, suc, ◌+◌, ◌≤◌, ◌<◌, max, ◌≡◌, refl, sym, ap, ◌∙◌, inl, inr, Bool, true, false, not, ◌||◌,
  Option, none, some, List, [], ◌∷◌, arith, if◌then◌else◌, Bool-cases, Option-cases, is_some,
  length, select, length-select-le, All, ◌==◌, nat_eq, string_eq, ==_iff, ==_self, contains, Map,
  keys, lookup, insert, get_or, has, lookup-insert,
}
use command_center.Prelude.{subst, get_or-insert}
use command_center.Plan.Ids.{TicketUrl}
use command_center.Plan.Waves.{
  Blocking, WaveState, blockers_depth, settle, visit, depth_of, waves_loop, waves,
}
use command_center.Plan.Waves.Levels.{
  step_known, step_unknown, depth_of_memo, depth_of_new, step_waves,
}

abbrev is_visiting : WaveState → TicketUrl → Bool
is_visiting s u = get_or u false s.visiting

-- How many of the listed tickets are not being visited.
abbrev idle : WaveState → Blocking → ℕ
idle s b = length (select (λ (e : TicketUrl × List TicketUrl). not (is_visiting s e.0)) b)

abbrev SameVisits : WaveState → WaveState → Type 0
SameVisits s t = (u : TicketUrl) → is_visiting t u ≡ is_visiting s u

idle-SameVisits : (s t : WaveState) (b : Blocking) → SameVisits s t → idle t b ≡ idle s b
idle-SameVisits s t [] h = refl
idle-SameVisits s t ((k, v) ∷ b) h = ground (arith, h k, idle-SameVisits s t b h)

visit_lem :
    (u v : TicketUrl) (s : WaveState)
    → is_visiting (visit u s) v ≡ (if u == v then true else is_visiting s v)
visit_lem u v s = get_or-insert u v false true s.visiting

idle-visit-le : (u : TicketUrl) (s : WaveState) (b : Blocking) → idle (visit u s) b ≤ idle s b
idle-visit-le u s [] = omega arith
idle-visit-le u s ((k, v) ∷ b) = ground (arith, visit_lem u k s, idle-visit-le u s b)

-- A visit of a listed ticket leaves fewer of them idle.
idle-visit :
    (u : TicketUrl) (s : WaveState) (b : Blocking)
    → has u b ≡ true
    → is_visiting s u ≡ false
    → idle (visit u s) b < idle s b
unfolding has lookup
idle-visit u s [] h n = ground arith
idle-visit u s ((k, v) ∷ b) h n = elim (Bool-cases (k == u)) [
  | inl y ↦ ground (
    arith,
    visit_lem u k s,
    idle-visit-le u s b,
    ==_iff k u,
    ==_iff u k,
    subst (λ w. is_visiting s w ≡ false) (sym ((==_iff k u).0 y)) n,
  )
  | inr z ↦ ground (arith, visit_lem u k s, idle-visit u s b, ==_iff u k, ==_iff k u)
]

-- A computed depth, behind which the same tickets are being visited.
abbrev Returns : Option (ℕ × WaveState) → WaveState → Type 0
Returns r s = (d : ℕ) × (t : WaveState) × (r ≡ some (d, t)) × SameVisits s t

abbrev Solves : (TicketUrl → WaveState → Option (ℕ × WaveState)) → Blocking → ℕ → Type 0
Solves solve b f =
    (u : TicketUrl) (s : WaveState) → has u b ≡ true → idle s b < f → Returns (solve u s) s

blockers_depth-Returns :
    (solve : TicketUrl → WaveState → Option (ℕ × WaveState)) (b : Blocking) (f : ℕ)
    → Solves solve b f
    → (xs : List TicketUrl) (d : ℕ) (s : WaveState) → idle s b < f
    → Returns (blockers_depth solve b xs d s) s
unfolding blockers_depth
blockers_depth-Returns solve b f solves [] d s h = (d, s, refl, λ u. refl)
blockers_depth-Returns solve b f solves (x ∷ xs) d s h = elim (Bool-cases (has x b)) [
  | inl y ↦
      let (e, t, k, same) = solves x s y h in
      let (g, w, k', same') =
        blockers_depth-Returns solve b f solves xs (max d (e + 1)) t
          (omega (arith, idle-SameVisits s t b same)) in
      (g, w, step_known solve b x xs d s e t y k ∙ k', λ u. same' u ∙ same u)
  | inr z ↦
      let (g, w, k', same') = blockers_depth-Returns solve b f solves xs d s h in
      (g, w, step_unknown solve b x xs d s z ∙ k', same')
]

settled-SameVisits :
    (u : TicketUrl) (d : ℕ) (s t : WaveState)
    → is_visiting s u ≡ false
    → SameVisits (visit u s) t
    → SameVisits s (record { depth = insert u d t.depth; visiting = insert u false t.visiting })
settled-SameVisits u d s t n same v = elim (Bool-cases (u == v)) [
  | inl y ↦
      get_or-insert u v false false t.visiting
      ∙ rw y (sym (subst (λ w. is_visiting s w ≡ false) ((==_iff u v).0 y) n))
  | inr z ↦ get_or-insert u v false false t.visiting ∙ rw z (same v ∙ visit_lem u v s ∙ rw z refl)
]

depth_of_visiting :
    (f : ℕ) (b : Blocking) (u : TicketUrl) (s : WaveState)
    → lookup u s.depth ≡ none
    → is_visiting s u ≡ true
    → depth_of (suc f) b u s ≡ some (0, s)
unfolding depth_of
depth_of_visiting f b u s n v = rw (depth_of, n) (rw v refl)

depth_of-Solves : (b : Blocking) (f : ℕ) → Solves (depth_of f b) b f
depth_of-Solves b zero u s k h = ground arith
depth_of-Solves b (suc f) u s k h = elim (Option-cases (lookup u s.depth)) [
  | inr (d, e) ↦ (d, s, depth_of_memo f b u s d e, λ v. refl)
  | inl n ↦ elim (Bool-cases (is_visiting s u)) [
    | inl y ↦ (0, s, depth_of_visiting f b u s n y, λ v. refl)
    | inr z ↦
        let (d, t, e, same) =
          blockers_depth-Returns (depth_of f b) b f (depth_of-Solves b f) (get_or u [] b) 0
            (visit u s) (omega (arith, idle-visit u s b k z)) in
        (
          d,
          record { depth = insert u d t.depth; visiting = insert u false t.visiting },
          depth_of_new f b u s n z ∙ ap (settle u) e,
          settled-SameVisits u d s t z same,
        )
  ]
]

has-insert :
    (u v : TicketUrl) (d : ℕ) (m : Map TicketUrl ℕ) → has v (insert u d m) ≡ ((u == v) || has v m)
unfolding has
has-insert u v d m =
    ap is_some (lookup-insert u v d m)
    ∙ elim (Bool-cases (u == v)) [ inl y ↦ rw y refl | inr z ↦ rw z refl ]

waves_loop-ends :
    (b : Blocking) (us : List TicketUrl) (s : WaveState) (out : Map TicketUrl ℕ)
    → All (λ u. has u b ≡ true) us
    → (m : Map TicketUrl ℕ) × (waves_loop b us s out ≡ some m)
      × ((v : TicketUrl) → has v m ≡ (contains us v || has v out))
unfolding waves_loop
waves_loop-ends b [] s out h = (out, refl, λ v. refl)
waves_loop-ends b (u ∷ us) s out (k, ks) =
    let le : idle s b ≤ length b =
      length-select-le (λ (e : TicketUrl × List TicketUrl). not (is_visiting s e.0)) b in
    let (d, t, e, same) = depth_of-Solves b (suc (length b)) u s k (omega arith) in
    let (m, g, all) = waves_loop-ends b us t (insert u (d + 1) out) ks in
    (m, step_waves b u us s t out d e ∙ g, λ v. ground (arith, all v, has-insert u v (d + 1) out))

has-more :
    (k : TicketUrl) (v : List TicketUrl) (b : Blocking) (us : List TicketUrl)
    → All (λ u. has u b ≡ true) us
    → All (λ u. has u ((k, v) ∷ b) ≡ true) us
unfolding has lookup
has-more k v b [] h = tt
has-more k v b (u ∷ us) (h, hs) =
    (elim (Bool-cases (k == u)) [ inl y ↦ rw y refl | inr z ↦ rw z h ], has-more k v b us hs)

has-keys : (b : Blocking) → All (λ u. has u b ≡ true) (keys b)
unfolding has lookup
has-keys [] = tt
has-keys ((k, v) ∷ b) = (rw (==_self k) refl, has-more k v b (keys b) (has-keys b))

-- `Waves` returns on every graph, whether or not it has cycles, and gives exactly the tickets of
-- the graph a wave.
pub waves-ends :
    (b : Blocking)
    → (m : Map TicketUrl ℕ) × (waves b ≡ some m) × ((u : TicketUrl) → has u m ≡ contains (keys b) u)
unfolding waves has lookup
waves-ends b =
    let (m, e, all) =
      waves_loop-ends b (keys b) (record { depth = []; visiting = [] }) [] (has-keys b) in
    (m, e, λ u. all u ∙ ground arith)
