-- ===== src/Plan/Waves/Levels.antt =====
-- internal/plan/stack.go, `Waves`: the levels of a graph without cycles.
use command_center.Prelude.{
  ℕ, zero, suc, ◌+◌, ◌≤◌, ◌<◌, max, ◌≡◌, refl, sym, ap, ◌∙◌, inl, inr, true, false, Option, none,
  some, List, [], ◌∷◌, arith, if◌then◌else◌, Bool-cases, Option-cases, length, ◌==◌, nat_eq,
  string_eq, ==_iff, contains, Map, keys, lookup, insert, get_or, has, lookup-insert,
}
use command_center.Prelude.{subst, get_or-insert}
use command_center.Plan.Ids.{TicketUrl}
use command_center.Plan.Waves.{
  Blocking, WaveState, blockers_depth, settle, visit, depth_of, waves_loop, waves,
}

module _ (solve : TicketUrl → WaveState → Option (ℕ × WaveState)) (blocking : Blocking)
    (x : TicketUrl) (xs : List TicketUrl) (d : ℕ) (s : WaveState) where
  pub step_known :
      (e : ℕ) (t : WaveState)
      → has x blocking ≡ true
      → solve x s ≡ some (e, t)
      → blockers_depth solve blocking (x ∷ xs) d s
        ≡ blockers_depth solve blocking xs (max d (e + 1)) t
  unfolding blockers_depth
  step_known e t y k = rw (blockers_depth, y) (rw k refl)

  pub step_unknown :
      has x blocking ≡ false
      → blockers_depth solve blocking (x ∷ xs) d s ≡ blockers_depth solve blocking xs d s
  unfolding blockers_depth
  step_unknown z = rw (blockers_depth, z) refl

pub depth_of_memo :
    (f : ℕ) (blocking : Blocking) (u : TicketUrl) (s : WaveState) (d : ℕ)
    → lookup u s.depth ≡ some d
    → depth_of (suc f) blocking u s ≡ some (d, s)
unfolding depth_of
depth_of_memo f blocking u s d e = rw (depth_of, e) refl

pub depth_of_new :
    (f : ℕ) (blocking : Blocking) (u : TicketUrl) (s : WaveState)
    → lookup u s.depth ≡ none
    → get_or u false s.visiting ≡ false
    → depth_of (suc f) blocking u s
      ≡ settle u
          (blockers_depth (depth_of f blocking) blocking (get_or u [] blocking) 0 (visit u s))
unfolding depth_of
depth_of_new f blocking u s n i = rw (depth_of, n) (rw i refl)

module _ (level : TicketUrl → ℕ) (blocking : Blocking) where
  -- One more than the highest level of the blockers that are listed.
  abbrev pub above : List TicketUrl → ℕ
  above [] = 0
  above (x ∷ xs) = let rest = above xs in if has x blocking then max (suc (level x)) rest else rest

  -- Every recorded depth is the level.
  abbrev Exact : WaveState → Type 0
  Exact s = (u : TicketUrl) (d : ℕ) → lookup u s.depth ≡ some d → d ≡ level u

  -- Every ticket being visited has at least the level `n`.
  abbrev VisitsAbove : ℕ → WaveState → Type 0
  VisitsAbove n s = (u : TicketUrl) → get_or u false s.visiting ≡ true → n ≤ level u

  abbrev SameVisits : WaveState → WaveState → Type 0
  SameVisits s t = (u : TicketUrl) → get_or u false t.visiting ≡ get_or u false s.visiting

  -- A computed depth, with what holds of the state behind it.
  abbrev Yields : Option (ℕ × WaveState) → ℕ → WaveState → Type 0
  Yields r n s = (t : WaveState) × (r ≡ some (n, t)) × Exact t × SameVisits s t

  -- What is shown of `depth_of` on some fuel.
  abbrev Solves : (TicketUrl → WaveState → Option (ℕ × WaveState)) → ℕ → Type 0
  Solves solve f =
      (u : TicketUrl) (s : WaveState)
      → level u < f
      → Exact s
      → VisitsAbove (suc (level u)) s
      → Yields (solve u s) (level u) s

  blockers_depth-Yields :
      (solve : TicketUrl → WaveState → Option (ℕ × WaveState)) (f n : ℕ)
      → Solves solve f
      → n ≤ f
      → (xs : List TicketUrl) (d : ℕ) (s : WaveState) → above xs ≤ n
      → Exact s
      → VisitsAbove n s
      → Yields (blockers_depth solve blocking xs d s) (max d (above xs)) s
  unfolding blockers_depth
  blockers_depth-Yields solve f n solves le [] d s a ex va =
      let e : d ≡ max d 0 = ground arith in (s, ap (λ k. some (k, s)) e, ex, λ u. refl)
  blockers_depth-Yields solve f n solves le (x ∷ xs) d s a ex va =
      elim (Bool-cases (has x blocking)) [
        | inl y ↦
            let low : suc (level x) ≤ n = ground arith in
            let (t, e, ex', same) = solves x s (omega arith) ex (λ u v. omega (arith, va u v)) in
            let (w, e', ex'', same') =
              blockers_depth-Yields solve f n solves le xs (max d (level x + 1)) t (ground arith)
                ex' (λ u v. va u (sym (same u) ∙ v)) in
            let m : max (max d (level x + 1)) (above xs) ≡ max d (above (x ∷ xs)) = ground arith in
            (
              w,
              step_known solve blocking x xs d s (level x) t y e ∙ e' ∙ ap (λ k. some (k, w)) m,
              ex'',
              λ u. same' u ∙ same u,
            )
        | inr z ↦
            let skip : above xs ≡ above (x ∷ xs) = ground arith in
            let (w, e', ex'', same') =
              blockers_depth-Yields solve f n solves le xs d s (ground arith) ex va in
            (
              w,
              step_unknown solve blocking x xs d s z ∙ e' ∙ ap (λ k. some (max d k, w)) skip,
              ex'',
              same',
            )
      ]

  module _ (levels : (u : TicketUrl) → level u ≡ above (get_or u [] blocking)) where
    visit-VisitsAbove :
        (u : TicketUrl) (s : WaveState)
        → VisitsAbove (suc (level u)) s
        → VisitsAbove (level u) (visit u s)
    visit-VisitsAbove u s va v h = elim (Bool-cases (u == v)) [
      | inl y ↦ subst (λ w. level u ≤ level w) ((==_iff u v).0 y) (omega arith)
      | inr z ↦
          let old : get_or v false (visit u s).visiting ≡ get_or v false s.visiting =
            get_or-insert u v false true s.visiting ∙ rw z refl in
          omega (arith, va v (sym old ∙ h))
    ]

    settled_Exact :
        (u : TicketUrl) (t : WaveState)
        → Exact t
        → Exact
            (record { depth = insert u (level u) t.depth; visiting = insert u false t.visiting })
    settled_Exact u t ex v d e = elim (Bool-cases (u == v)) [
      | inl y ↦
          let new : some (level u) ≡ some d =
            sym (lookup-insert u v (level u) t.depth ∙ rw y refl) ∙ e in
          let same : level u ≡ level v = ap level ((==_iff u v).0 y) in ground arith
      | inr z ↦ ex v d (sym (lookup-insert u v (level u) t.depth ∙ rw z refl) ∙ e)
    ]

    settled_SameVisits :
        (u : TicketUrl) (s t : WaveState)
        → get_or u false s.visiting ≡ false
        → SameVisits (visit u s) t
        → SameVisits s
            (record { depth = insert u (level u) t.depth; visiting = insert u false t.visiting })
    settled_SameVisits u s t idle same v = elim (Bool-cases (u == v)) [
      | inl y ↦
          get_or-insert u v false false t.visiting
          ∙ rw y (sym (subst (λ w. get_or w false s.visiting ≡ false) ((==_iff u v).0 y) idle))
      | inr z ↦
          get_or-insert u v false false t.visiting
          ∙ rw z (same v ∙ get_or-insert u v false true s.visiting ∙ rw z refl)
    ]

    depth_of-Solves : (f : ℕ) → Solves (depth_of f blocking) f
    unfolding depth_of
    depth_of-Solves zero u s h ex va = ground arith
    depth_of-Solves (suc f) u s h ex va = elim (Option-cases (lookup u s.depth)) [
      | inr (d, e) ↦
          (s, depth_of_memo f blocking u s d e ∙ ap (λ k. some (k, s)) (ex u d e), ex, λ v. refl)
      | inl n ↦
          let idle : get_or u false s.visiting ≡ false = ground (arith, va u) in
          let (t, e, ex', same) =
            blockers_depth-Yields (depth_of f blocking) f (level u) (depth_of-Solves f)
              (omega arith) (get_or u [] blocking) 0 (visit u s) (omega (arith, levels u)) ex
              (visit-VisitsAbove u s va) in
          let k : max 0 (above (get_or u [] blocking)) ≡ level u = omega (arith, levels u) in
          (
            record { depth = insert u (level u) t.depth; visiting = insert u false t.visiting },
            depth_of_new f blocking u s n idle
                ∙ ap (settle u) e
                ∙ ap
                    (λ d. some (
                      d,
                      record { depth = insert u d t.depth; visiting = insert u false t.visiting },
                    ))
                    k,
            settled_Exact u t ex',
            settled_SameVisits u s t idle same,
          )
    ]

pub step_waves :
    (blocking : Blocking) (u : TicketUrl) (us : List TicketUrl) (s t : WaveState)
    (out : Map TicketUrl ℕ) (d : ℕ)
    → depth_of (suc (length blocking)) blocking u s ≡ some (d, t)
    → waves_loop blocking (u ∷ us) s out ≡ waves_loop blocking us t (insert u (d + 1) out)
unfolding waves_loop
step_waves blocking u us s t out d e = rw (waves_loop, e) refl

module _ (level : TicketUrl → ℕ) (blocking : Blocking)
    (levels : (u : TicketUrl) → level u ≡ above level blocking (get_or u [] blocking))
    (bound : (u : TicketUrl) → level u ≤ length blocking) where
  -- The waves of the tickets `us`, and what there was of the others.
  abbrev Wave : List TicketUrl → Map TicketUrl ℕ → Map TicketUrl ℕ → Type 0
  Wave us out m =
      (u : TicketUrl) → lookup u m ≡ (if contains us u then some (level u + 1) else lookup u out)

  Wave-step :
      (u : TicketUrl) (us : List TicketUrl) (out m : Map TicketUrl ℕ)
      → Wave us (insert u (level u + 1) out) m
      → Wave (u ∷ us) out m
  Wave-step u us out m h v = elim (Bool-cases (contains us v)) [
    | inl y ↦ h v ∙ ground arith
    | inr z ↦ elim (Bool-cases (u == v)) [
      | inl k ↦
          let same : level u ≡ level v = ap level ((==_iff u v).0 k) in
          h v ∙ rw z (lookup-insert u v (level u + 1) out ∙ rw k (ap (λ n. some (n + 1)) same))
      | inr k ↦ h v ∙ rw z (lookup-insert u v (level u + 1) out ∙ rw k refl)
    ]
  ]

  waves_loop-Wave :
      (us : List TicketUrl) (s : WaveState) (out : Map TicketUrl ℕ)
      → ((u : TicketUrl) (d : ℕ) → lookup u s.depth ≡ some d → d ≡ level u)
      → ((u : TicketUrl) → get_or u false s.visiting ≡ false)
      → (m : Map TicketUrl ℕ) × (waves_loop blocking us s out ≡ some m) × Wave us out m
  unfolding waves_loop
  waves_loop-Wave [] s out ex idle = (out, refl, λ u. refl)
  waves_loop-Wave (u ∷ us) s out ex idle =
      let (t, e, ex', same) =
        depth_of-Solves level blocking levels (suc (length blocking)) u s (omega (arith, bound u))
          ex (λ v h. ground (arith, idle v)) in
      let (m, k, h) =
        waves_loop-Wave us t (insert u (level u + 1) out) ex' (λ v. same v ∙ idle v) in
      (m, step_waves blocking u us s t out (level u) e ∙ k, Wave-step u us out m h)

-- Where the tickets have levels, so that each is on the level above its highest listed blocker and no
-- level is higher than the number of tickets, `Waves` returns, and puts each listed ticket, and no
-- other, in the wave after its level.
pub waves-level :
    (level : TicketUrl → ℕ) (blocking : Blocking)
    → ((u : TicketUrl) → level u ≡ above level blocking (get_or u [] blocking))
    → ((u : TicketUrl) → level u ≤ length blocking)
    → (m : Map TicketUrl ℕ) × (waves blocking ≡ some m)
      × ((u : TicketUrl)
          → lookup u m ≡ (if contains (keys blocking) u then some (level u + 1) else none))
unfolding waves lookup get_or
waves-level level blocking levels bound =
    waves_loop-Wave level blocking levels bound (keys blocking)
      (record { depth = []; visiting = [] }) [] (λ u d e. ground (arith, e)) (λ u. refl)
