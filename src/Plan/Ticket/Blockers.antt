-- ===== src/Plan/Ticket/Blockers.antt =====
-- internal/plan/plan.go, `Unlocked`: when a ticket is unlocked, on which base, and what holds it back.
use command_center.Prelude.{
  String, ◌≡◌, refl, sym, ap, ◌↔◌, ◌⊎◌, inl, inr, Bool, true, false, List, [], ◌∷◌, ◌++◌,
  append-nil, append_assoc, arith, if◌then◌else◌, Bool-cases, Option-cases, every, All, ◌==◌,
  nat_eq, string_eq, lookup, has,
}
use command_center.Plan.Ids.{TicketUrl}
use command_center.Plan.Ticket.{
  PrState, absent, opened, merged, closed, pr_state_eq, Ticket, default_base_branch, Tickets,
  PrStates, pr_of, unlocked_on_blocker, unlocked_on_blockers, unresolved, gather_loop,
  decide_unlock, unlocked, same_repo_blockers, base_on, prospective_base,
}

-- Every blocker of the ticket is a tracked ticket.
abbrev pub all_tracked : Ticket → Tickets → Bool
all_tracked t by_url = every (λ u. has u by_url) t.blocked_by

-- What the pull requests of the blockers in the ticket's own repository must be.
abbrev pub Cleared : PrStates → List Ticket → Type 0
Cleared prs [] = Unit
Cleared prs (b ∷ []) = (pr_of prs b.branch ≡ opened) ⊎ (pr_of prs b.branch ≡ merged)
Cleared prs (b ∷ c ∷ r) = All (λ (x : Ticket). pr_of prs x.branch ≡ merged) (b ∷ c ∷ r)

gather_tracked :
    (repo : String) (by_url : Tickets) (us : List TicketUrl) (acc : List Ticket)
    → every (λ u. has u by_url) us ≡ true
    → gather_loop repo by_url us acc ≡ inr (acc ++ same_repo_blockers repo by_url us)
unfolding gather_loop same_repo_blockers has
gather_tracked repo by_url [] acc h = ap inr (sym (append-nil acc))
gather_tracked repo by_url (u ∷ us) acc h = elim (Option-cases (lookup u by_url)) [
  | inl e ↦ ground arith
  | inr (b, e) ↦ ground (
    arith,
    gather_tracked repo by_url us acc,
    gather_tracked repo by_url us (acc ++ b ∷ []),
    append_assoc acc (b ∷ []) (same_repo_blockers repo by_url us),
  )
]

gather_untracked :
    (repo : String) (by_url : Tickets) (us : List TicketUrl) (acc : List Ticket)
    → every (λ u. has u by_url) us ≡ false
    → (u : TicketUrl) × (gather_loop repo by_url us acc ≡ inl u) × (has u by_url ≡ false)
unfolding gather_loop has
gather_untracked repo by_url [] acc h = cc
gather_untracked repo by_url (u ∷ us) acc h = elim (Option-cases (lookup u by_url)) [
  | inl e ↦ (u, ground arith, ground arith)
  | inr (b, e) ↦
      let (v, found, missing) =
        gather_untracked repo by_url us (if b.repo == repo then acc ++ b ∷ [] else acc)
          (ground arith) in
      (v, ground arith, missing)
]

unresolved-nil :
    (bs : List Ticket) (prs : PrStates)
    → (unresolved bs prs ≡ []) ↔ All (λ (x : Ticket). pr_of prs x.branch ≡ merged) bs
unfolding unresolved
unresolved-nil [] prs = (λ e. tt, λ h. refl)
unresolved-nil (b ∷ bs) prs = (
  λ e. (ground arith, (unresolved-nil bs prs).0 (ground arith)),
  λ (h, k). ground (arith, (unresolved-nil bs prs).1 k),
)

several_cleared :
    (bs : List Ticket) (prs : PrStates)
    → ((unlocked_on_blockers bs prs).unlocked ≡ true)
      ↔ All (λ (x : Ticket). pr_of prs x.branch ≡ merged) bs
unfolding unlocked_on_blockers
several_cleared bs prs = (
  λ e. (unresolved-nil bs prs).0 (ground arith),
  λ h. ground (arith, (unresolved-nil bs prs).1 h),
)

decide-Cleared :
    (prs : PrStates) (stacking : Bool) (bs : List Ticket)
    → ((decide_unlock prs stacking (inr bs)).unlocked ≡ true) ↔ Cleared prs bs
unfolding decide_unlock
decide-Cleared prs stacking [] = (λ e. tt, λ h. refl)
decide-Cleared prs stacking (b ∷ []) = ground arith
decide-Cleared prs stacking (b ∷ c ∷ r) = several_cleared (b ∷ c ∷ r) prs

unlocked-decide :
    (t : Ticket) (by_url : Tickets) (prs : PrStates) (stacking : Bool)
    → all_tracked t by_url ≡ true
    → unlocked t by_url prs stacking
      ≡ decide_unlock prs stacking (inr (same_repo_blockers t.repo by_url t.blocked_by))
unfolding unlocked
unlocked-decide t by_url prs stacking h =
    ap (decide_unlock prs stacking) (gather_tracked t.repo by_url t.blocked_by [] h)

unlocked-untracked :
    (t : Ticket) (by_url : Tickets) (prs : PrStates) (stacking : Bool)
    → all_tracked t by_url ≡ false
    → ((unlocked t by_url prs stacking).unlocked ≡ false)
      × ((unlocked t by_url prs stacking).blocker_closed ≡ false)
unfolding unlocked
unlocked-untracked t by_url prs stacking h =
    let (u, found, missing) = gather_untracked t.repo by_url t.blocked_by [] h in
    rw found (refl, refl)

-- A ticket is unlocked exactly when each of its blockers is tracked and those of its own repository
-- are cleared: a single one has an open or merged pull request, and of several each has merged.
pub unlocked_iff :
    (t : Ticket) (by_url : Tickets) (prs : PrStates) (stacking : Bool)
    → ((unlocked t by_url prs stacking).unlocked ≡ true) ↔ (
        (all_tracked t by_url ≡ true) × Cleared prs (same_repo_blockers t.repo by_url t.blocked_by))
unlocked_iff t by_url prs stacking = elim (Bool-cases (all_tracked t by_url)) [
  | inl e ↦
      let cleared = decide-Cleared prs stacking (same_repo_blockers t.repo by_url t.blocked_by) in
      (
        λ h. (e, cleared.0 (rw (unlocked-decide t by_url prs stacking e) at h)),
        λ (_, k). rw (unlocked-decide t by_url prs stacking e) (cleared.1 k),
      )
  | inr e ↦
      let (locked, _) = unlocked-untracked t by_url prs stacking e in
      (λ h. absurd (ground arith), λ (k, _). absurd (ground arith))
]

decide-base :
    (prs : PrStates) (stacking : Bool) (bs : List Ticket)
    → (decide_unlock prs stacking (inr bs)).unlocked ≡ true
    → ((decide_unlock prs stacking (inr bs)).base_branch ≡ base_on stacking bs)
      ⊎ ((b : Ticket) × (bs ≡ b ∷ [])
          × (pr_of prs b.branch ≡ merged)
          × ((decide_unlock prs stacking (inr bs)).base_branch ≡ default_base_branch))
unfolding decide_unlock base_on
decide-base prs stacking [] h = inl refl
decide-base prs stacking (b ∷ []) h = go (pr_of prs b.branch) refl
  where
    go :
        (s : PrState)
        → pr_of prs b.branch ≡ s
        → ((unlocked_on_blocker b prs stacking).base_branch
            ≡ (if stacking then b.branch else default_base_branch))
          ⊎ ((c : Ticket) × (b ∷ [] ≡ c ∷ [])
              × (pr_of prs c.branch ≡ merged)
              × ((unlocked_on_blocker b prs stacking).base_branch ≡ default_base_branch))
    go opened e = inl (ground arith)
    go merged e = inr (b, refl, e, ground arith)
    go closed e = absurd (ground arith)
    go absent e = absurd (ground arith)
decide-base prs stacking (b ∷ c ∷ r) h = inl (ground arith)

-- An unlocked ticket is cut from its prospective base, or from main where its only blocker in the
-- repository has merged.
pub unlocked-base :
    (t : Ticket) (by_url : Tickets) (prs : PrStates) (stacking : Bool)
    → (unlocked t by_url prs stacking).unlocked ≡ true
    → ((unlocked t by_url prs stacking).base_branch ≡ prospective_base t by_url stacking)
      ⊎ ((b : Ticket) × (same_repo_blockers t.repo by_url t.blocked_by ≡ b ∷ [])
          × (pr_of prs b.branch ≡ merged)
          × ((unlocked t by_url prs stacking).base_branch ≡ default_base_branch))
unfolding prospective_base
unlocked-base t by_url prs stacking h =
    let (tracked, _) = (unlocked_iff t by_url prs stacking).0 h in
    let e = unlocked-decide t by_url prs stacking tracked in
    rw e (decide-base prs stacking (same_repo_blockers t.repo by_url t.blocked_by) (rw e at h))

one_closed :
    (prs : PrStates) (stacking : Bool) (b : Ticket)
    → ((unlocked_on_blocker b prs stacking).blocker_closed ≡ true) ↔ (
        (pr_of prs b.branch ≡ closed)
        × ((unlocked_on_blocker b prs stacking).unlocked ≡ false)
        × ((unlocked_on_blocker b prs stacking).blocking ≡ b.url ∷ []))
unfolding unlocked_on_blocker
one_closed prs stacking b = ground arith

abbrev ClosedOne : PrStates → Bool → List Ticket → Type 0
ClosedOne prs stacking bs =
    (b : Ticket) × (bs ≡ b ∷ [])
    × (pr_of prs b.branch ≡ closed)
    × ((decide_unlock prs stacking (inr bs)).unlocked ≡ false)
    × ((decide_unlock prs stacking (inr bs)).blocking ≡ b.url ∷ [])

decide-closed :
    (prs : PrStates) (stacking : Bool) (bs : List Ticket)
    → (decide_unlock prs stacking (inr bs)).blocker_closed ≡ true
    → ClosedOne prs stacking bs
unfolding decide_unlock
decide-closed prs stacking [] h = cc
decide-closed prs stacking (b ∷ []) h =
    let (c, u, k) = (one_closed prs stacking b).0 h in (b, refl, c, u, k)
decide-closed prs stacking (b ∷ c ∷ r) h = absurd (ground arith)

closed-decide :
    (prs : PrStates) (stacking : Bool) (bs : List Ticket)
    → ClosedOne prs stacking bs
    → (decide_unlock prs stacking (inr bs)).blocker_closed ≡ true
unfolding decide_unlock unlocked_on_blocker
closed-decide prs stacking bs (b, e, c, _, _) = rw e (ground arith)

-- The unlock of a ticket says that a blocker is closed exactly when every blocker is tracked and the
-- only one in the ticket's repository has a pull request closed without merging; the ticket is then
-- locked, and that blocker is what it names as blocking.
pub unlocked-closed_iff :
    (t : Ticket) (by_url : Tickets) (prs : PrStates) (stacking : Bool)
    → ((unlocked t by_url prs stacking).blocker_closed ≡ true) ↔ (
        (all_tracked t by_url ≡ true)
        × ((b : Ticket) × (same_repo_blockers t.repo by_url t.blocked_by ≡ b ∷ [])
            × (pr_of prs b.branch ≡ closed)
            × ((unlocked t by_url prs stacking).unlocked ≡ false)
            × ((unlocked t by_url prs stacking).blocking ≡ b.url ∷ [])))
unlocked-closed_iff t by_url prs stacking = elim (Bool-cases (all_tracked t by_url)) [
  | inl e ↦
      let bs = same_repo_blockers t.repo by_url t.blocked_by in
      rw (unlocked-decide t by_url prs stacking e)
        (λ h. (e, decide-closed prs stacking bs h), λ (_, k). closed-decide prs stacking bs k)
  | inr e ↦
      let (_, open_end) = unlocked-untracked t by_url prs stacking e in
      (λ h. absurd (ground arith), λ (k, _). absurd (ground arith))
]
