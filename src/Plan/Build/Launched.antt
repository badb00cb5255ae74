-- ===== src/Plan/Build/Launched.antt =====
-- internal/plan/derive.go and launch.go: the launches of a derived snapshot, by its tickets.
use command_center.Prelude.{
  ℕ, ◌+◌, ◌-◌, String, ◌≡◌, refl, sym, ap, ◌∙◌, ◌≢◌, ◌⊎◌, inl, inr, Bool, true, false, Option, none,
  List, [], ◌∷◌, ◌++◌, map, append-nil, append_assoc, arith, if◌then◌else◌, Bool-cases, take,
  select, In, nat_eq, string_eq, ==_iff, Map, get_or,
}
use command_center.Prelude.{subst, In-append, In-take, In-select, In-map}
use command_center.Plan.Ids.{TicketUrl, branch_ref_eq}
use command_center.Plan.Ticket.{Ticket, Tickets, PrStates, Unlock, ref}
use command_center.Plan.State.{State}
use command_center.Plan.Status.{RunFact, status, status_of_launch, status_from_run}
use command_center.Plan.Launch.{LaunchCandidate, eligible, picked, launch_plan}
use command_center.Plan.Launch.Slots.{round_urls, launch_plan-take}
use command_center.Plan.Observation.{Rules, pr_at}
use command_center.Plan.Spend.{Floats}
use command_center.Plan.Compose.{compose}
use command_center.Plan.Peers.{conflicting_peer_hold}
use command_center.Plan.Derive.{tickets_by_url, prs_by_branch}
use command_center.Plan.Snapshot.{Snapshot, launch_after}
use command_center.Plan.Workflow.{Next}
use command_center.Plan.Build.{
  candidate_of, status_in, Derived, derive_ticket, add_derived, derive_loop, derive, empty_snapshot,
}
use command_center.Plan.Input
use command_center.Plan.Input.{Entry, LaunchMembership, zero_membership}

picked-eligible : (b : Bool) (c : LaunchCandidate) → picked b c ≡ true → eligible c ≡ true
unfolding picked
picked-eligible true c p = ground arith
picked-eligible false c p = ground arith

-- A launch picks an eligible candidate of the list.
launch_plan-In :
    (u : TicketUrl) (cs : List LaunchCandidate) (running max_agents : ℕ) (paused : Bool)
    → In u (launch_plan cs running max_agents paused)
    → (c : LaunchCandidate) × In c cs × (c.url ≡ u) × (eligible c ≡ true)
launch_plan-In u cs running max_agents paused i =
    let j = subst (In u) (launch_plan-take cs running max_agents paused) i in
    elim (Bool-cases paused) [
      | inl y ↦
          elim (subst
            (λ b. In u (
              if b
              then []
              else take (max_agents - running) (round_urls true cs ++ round_urls false cs)))
            y j) [ ]
      | inr z ↦
          let k =
            subst
              (λ b. In u (
                if b
                then []
                else take (max_agents - running) (round_urls true cs ++ round_urls false cs)))
              z j in
          elim (In-append u (round_urls true cs) (round_urls false cs)
            (In-take u (max_agents - running) (round_urls true cs ++ round_urls false cs) k)) [
              | inl l ↦ of_round true l
              | inr l ↦ of_round false l
            ]
    ]
  where
    of_round :
        (b : Bool)
        → In u (round_urls b cs)
        → (c : LaunchCandidate) × In c cs × (c.url ≡ u) × (eligible c ≡ true)
    of_round b i =
        let (c, j, e) = In-map (λ (x : LaunchCandidate). x.url) u (select (picked b) cs) i in
        let (k, p) = In-select (picked b) c cs j in (c, k, sym e, picked-eligible b c p)

module _ {F : Type 0} (hash : String → String) (r : Rules) (i : Input.Input F) where
  derive_loop-launch :
      (by_url : Tickets) (prs : PrStates) (peers : Map TicketUrl String) (ts : List Ticket)
      (s : Snapshot)
      → (derive_loop hash r i by_url prs peers ts s).launch
        ≡ s.launch ++ map (λ (t : Ticket). (derive_ticket hash r i by_url prs peers t).candidate) ts
  unfolding derive_loop add_derived
  derive_loop-launch by_url prs peers [] s = sym (append-nil s.launch)
  derive_loop-launch by_url prs peers (t ∷ ts) s =
      let d = derive_ticket hash r i by_url prs peers t in
      derive_loop-launch by_url prs peers ts (add_derived d (pr_at i.obs (ref t)) s)
      ∙ append_assoc s.launch (d.candidate ∷ [])
          (map (λ (t : Ticket). (derive_ticket hash r i by_url prs peers t).candidate) ts)

-- The facts of a ticket's own launch.
pub record Authorised {F : Type 0} (hash : String → String) (i : Input.Input F) (t : Ticket)
    (d : Derived) : Type 0 where
  pub unlocked : d.entry.unlock.unlocked ≡ true
  pub in_launch : d.entry.launch_id ≢ 0
  pub same_prompt : d.entry.prompt_hash ≡ hash (compose d.entry.ticket)
  pub no_run : d.entry.run ≡ none
  pub clean_base : d.entry.conflicted_base ≡ ""
  pub shown :
      (get_or t.url zero_membership i.memberships).cancelled ≡ false → d.entry.state ≡ State.queued

eligible_candidate :
    (hash : String → String) (t : Ticket) (unlock : Unlock) (m : LaunchMembership)
    (run : Option RunFact) (conflicted : String) (n : Next)
    → eligible (candidate_of hash t unlock m run conflicted n) ≡ true
    → (candidate_of hash t unlock m run conflicted n).in_flight ≡ false
    → (unlock.unlocked ≡ true)
      × (m.launch_id ≢ 0)
      × (m.prompt_hash ≡ hash (compose t))
      × (run ≡ none)
      × (conflicted ≡ "")
unfolding eligible candidate_of
eligible_candidate hash t unlock m run conflicted n e z =
    ground (arith, ==_iff m.prompt_hash (hash (compose t)), ==_iff conflicted "")

queued_state :
    (unlock : Unlock) (m : LaunchMembership) (run : Option RunFact) (conflicted : String)
    → unlock.unlocked ≡ true
    → m.launch_id ≢ 0
    → run ≡ none
    → conflicted ≡ ""
    → m.cancelled ≡ false
    → (status_in unlock m run conflicted).0 ≡ State.queued
unfolding status_in status status_from_run status_of_launch
queued_state unlock m run conflicted u l n c k = ground (arith, ==_iff conflicted "")

module _ {F : Type 0} (hash : String → String) (r : Rules) (i : Input.Input F) where
  derived-Authorised :
      (by_url : Tickets) (prs : PrStates) (peers : Map TicketUrl String) (t : Ticket)
      → eligible (derive_ticket hash r i by_url prs peers t).candidate ≡ true
      → (derive_ticket hash r i by_url prs peers t).candidate.in_flight ≡ false
      → Authorised hash i t (derive_ticket hash r i by_url prs peers t)
  unfolding derive_ticket
  derived-Authorised by_url prs peers t e z =
      let d = (derive_ticket hash r i by_url prs peers t).entry in
      let m = get_or t.url zero_membership i.memberships in
      let (u, l, p, n, c) =
        eligible_candidate hash d.ticket d.unlock m d.run d.conflicted_base d.next e z in
      record {
        unlocked = u;
        in_launch = l;
        same_prompt = p;
        no_run = n;
        clean_base = c;
        shown = λ k. queued_state d.unlock m d.run d.conflicted_base u l n c k;
      }

  candidate-url :
      (by_url : Tickets) (prs : PrStates) (peers : Map TicketUrl String) (t : Ticket)
      → (derive_ticket hash r i by_url prs peers t).candidate.url ≡ t.url
  unfolding derive_ticket
  candidate-url by_url prs peers t = refl

  derived-launch :
      (by_url : Tickets) (prs : PrStates) (peers : Map TicketUrl String) (t : Ticket)
      → eligible (derive_ticket hash r i by_url prs peers t).candidate ≡ true
      → ((derive_ticket hash r i by_url prs peers t).candidate.in_flight ≡ true)
        ⊎ Authorised hash i t (derive_ticket hash r i by_url prs peers t)
  derived-launch by_url prs peers t e =
      elim (Bool-cases (derive_ticket hash r i by_url prs peers t).candidate.in_flight) [
        | inl y ↦ inl y
        | inr z ↦ inr (derived-Authorised by_url prs peers t e z)
      ]

-- A launch of a derived snapshot starts only listed tickets: ones whose workflow has a step to run
-- next behind a run, and ones that are unlocked, in a launch with the hash of their prompt, without a
-- run and on a base without a conflict. The latter are shown as queued, if their launch was not
-- cancelled.
pub launched-Authorised :
    {F : Type 0} (ops : Floats F) (hash : String → String) (r : Rules) (i : Input.Input F)
    (spawned : ℕ) (u : TicketUrl)
    → In u (launch_after (derive ops hash r i) spawned)
    → (t : Ticket) × In t i.tickets
      × (t.url ≡ u)
      × (let d =
            derive_ticket hash r i
              (tickets_by_url i.tickets [])
              (prs_by_branch i.obs i.tickets [])
              (conflicting_peer_hold r i.tickets
                (tickets_by_url i.tickets [])
                (prs_by_branch i.obs i.tickets [])
                i.obs)
              t in
          (d.candidate.in_flight ≡ true) ⊎ Authorised hash i t d)
unfolding launch_after derive
launched-Authorised ops hash r i spawned u j =
    let by_url = tickets_by_url i.tickets [] in
    let prs = prs_by_branch i.obs i.tickets [] in
    let peers = conflicting_peer_hold r i.tickets by_url prs i.obs in
    let s = derive ops hash r i in
    let (c, k, e, p) =
      launch_plan-In u s.launch (s.running + spawned) s.max_agents s.spend_paused j in
    let (t, l, q) =
      In-map (λ (x : Ticket). (derive_ticket hash r i by_url prs peers x).candidate) c i.tickets
        (subst (In c)
          (derive_loop-launch hash r i by_url prs peers i.tickets (empty_snapshot ops r i)) k) in
    (
      t,
      l,
      sym (candidate-url hash r i by_url prs peers t)
          ∙ ap (λ (x : LaunchCandidate). x.url) (sym q)
          ∙ e,
      derived-launch hash r i by_url prs peers t (ap eligible (sym q) ∙ p),
    )
