-- ===== src/Plan/Transitions/Once.antt =====
-- internal/plan/transition.go: a tick that meets again what has been recorded.
use command_center.Prelude.{
  ℕ, ◌≤◌, String, ◌≡◌, refl, sym, ap, ◌∙◌, inl, inr, true, false, Option, none, some, List, [], ◌∷◌,
  arith, if◌then◌else◌, Bool-cases, Option-cases, In, here, there, ◌==◌, nat_eq, string_eq, ==_iff,
  ==_self, Map, keys, lookup, get_or, lookup-insert,
}
use command_center.Prelude.{subst, get_or-same, get_or-found}
use command_center.Prelude.Sorting.{string_lt, sort_by}
use command_center.Plan.Ids.{TicketUrl, branch_ref_eq}
use command_center.Plan.Verdict.{kind_string}
use command_center.Plan.Ticket.{Ticket, merged, pr_state_eq, ref}
use command_center.Plan.Ticket.Counts.{count, In-count}
use command_center.Plan.Observation
use command_center.Plan.Observation.{Rules, pr_at}
use command_center.Plan.Derive.{apply_verdict}
use command_center.Plan.Input
use command_center.Plan.Input.{Recorded, zero_recorded, zero_push_fact}
use command_center.Plan.Transitions.{
  Transition, is_pending, newly_landed, landed_loop, opened_transition, merged_transition,
  checks_landed_transitions, verdict_transition, transitions_of, transitions_loop, transitions,
}

-- The input of a tick that observes the same again, with `recorded` and the verdict words recorded.
abbrev pub again :
    {F : Type 0} → Map TicketUrl Recorded → Map TicketUrl String → Input.Input F → Input.Input F
again recorded words i = record i { prev = i.obs; recorded = recorded; last_verdicts = words }

landed_again :
    (url : TicketUrl) (now : ℕ) (checks : Map String Observation.CheckState) (names : List String)
    → landed_loop url now checks checks names ≡ []
unfolding landed_loop newly_landed
landed_again url now checks [] = refl
landed_again url now checks (name ∷ names) = elim (Option-cases (lookup name checks)) [
  | inl n ↦ rw (landed_loop, n) (landed_again url now checks names)
  | inr (c, e) ↦ elim (Bool-cases (is_pending c)) [
    | inl y ↦ rw (landed_loop, e) (rw y (landed_again url now checks names))
    | inr z ↦ rw (landed_loop, e) (rw z (rw e (rw z (landed_again url now checks names))))
  ]
]

module _ {F : Type 0} (r : Rules) (i : Input.Input F) (recorded : Map TicketUrl Recorded)
    (words : Map TicketUrl String) where
  opened_again : (t : Ticket) → opened_transition t (again recorded words i) ≡ []
  unfolding opened_transition
  opened_again t = ground arith

  verdict_kept :
      (t : Ticket)
      → verdict_transition r t i ≡ none
      → get_or t.url "" words ≡ get_or t.url "" i.last_verdicts
      → verdict_transition r t (again recorded words i) ≡ none
  unfolding verdict_transition
  verdict_kept t n e = ground arith

  verdict_recorded :
      (t : Ticket) (event : Transition) (w : String)
      → verdict_transition r t i ≡ some (event, w)
      → get_or t.url "" words ≡ w
      → verdict_transition r t (again recorded words i) ≡ none
  unfolding verdict_transition
  verdict_recorded t event w n e = elim (Option-cases (apply_verdict r t i.obs i.verdict)) [
    | inl no_result ↦ ground arith
    | inr (result, k) ↦ ground (arith, ==_iff (get_or t.url "" words) (kind_string result.kind))
  ]

-- What the words say of a ticket after a round for it.
abbrev word_after : Option (Transition × String) → Option String → Option String
word_after none old = old
word_after (some (_, word)) old = some word

module _ {F : Type 0} (r : Rules) (i : Input.Input F) where
  transitions_of-word :
      (t : Ticket) (acc : List Transition × Map TicketUrl String) (u : TicketUrl)
      → lookup u (transitions_of r i t acc).1 ≡ (
          if t.url == u
          then word_after (verdict_transition r t i) (lookup u acc.1)
          else lookup u acc.1)
  unfolding transitions_of
  transitions_of-word t acc u = elim (Option-cases (verdict_transition r t i)) [
    | inl n ↦ rw (transitions_of, n) (ground arith)
    | inr (x, e) ↦ rw (transitions_of, e) (lookup-insert t.url u x.1 acc.1)
  ]

  -- The rounds for the other tickets leave a word alone.
  transitions_loop-others :
      (ts : List Ticket) (acc : List Transition × Map TicketUrl String) (u : TicketUrl)
      → count u ts ≡ 0
      → lookup u (transitions_loop r i ts acc).1 ≡ lookup u acc.1
  unfolding transitions_loop
  transitions_loop-others [] acc u c = refl
  transitions_loop-others (t ∷ ts) acc u c = elim (Bool-cases (t.url == u)) [
    | inl y ↦ ground arith
    | inr z ↦
        transitions_loop-others ts (transitions_of r i t acc) u (ground arith)
        ∙ transitions_of-word t acc u
        ∙ rw z refl
  ]

  own_round :
      (s : Ticket) (ts : List Ticket) (acc : List Transition × Map TicketUrl String)
      → count s.url (s ∷ ts) ≤ 1
      → lookup s.url (transitions_loop r i ts (transitions_of r i s acc)).1
        ≡ word_after (verdict_transition r s i) (lookup s.url acc.1)
  own_round s ts acc c =
      transitions_loop-others ts (transitions_of r i s acc) s.url (ground (arith, ==_self s.url))
      ∙ transitions_of-word s acc s.url
      ∙ rw (==_self s.url) refl

  -- Behind all rounds, the word of a ticket is the one that its round recorded, if any.
  transitions_loop-word :
      (ts : List Ticket) (acc : List Transition × Map TicketUrl String) (t : Ticket)
      → In t ts
      → count t.url ts ≤ 1
      → lookup t.url (transitions_loop r i ts acc).1
        ≡ word_after (verdict_transition r t i) (lookup t.url acc.1)
  unfolding transitions_loop
  transitions_loop-word [] acc t j c = elim j [ ]
  transitions_loop-word (s ∷ ts) acc t (here e) c =
      subst
        (λ (x : Ticket).
          lookup x.url (transitions_loop r i ts (transitions_of r i s acc)).1
          ≡ word_after (verdict_transition r x i) (lookup x.url acc.1))
        (sym e) (own_round s ts acc (subst (λ (x : Ticket). count x.url (s ∷ ts) ≤ 1) e c))
  transitions_loop-word (s ∷ ts) acc t (there j) c =
      let other : (s.url == t.url) ≡ false = ground (arith, In-count t ts j) in
      transitions_loop-word ts (transitions_of r i s acc) t j (ground arith)
      ∙ ap (word_after (verdict_transition r t i)) (transitions_of-word s acc t.url ∙ rw other refl)

module _ {F : Type 0} (r : Rules) (i : Input.Input F) (recorded : Map TicketUrl Recorded) where
  verdict_again :
      (t : Ticket)
      → In t i.tickets
      → count t.url i.tickets ≤ 1
      → verdict_transition r t (again recorded (transitions r i).1 i) ≡ none
  unfolding transitions
  verdict_again t j c =
      let word = transitions_loop-word r i i.tickets ([], i.last_verdicts) t j c in
      elim (Option-cases (verdict_transition r t i)) [
        | inl n ↦
            let same : lookup t.url (transitions r i).1 ≡ lookup t.url i.last_verdicts =
              word ∙ ap (λ x. word_after x (lookup t.url i.last_verdicts)) n in
            verdict_kept r i recorded (transitions r i).1 t n
              (get_or-same t.url "" (transitions r i).1 i.last_verdicts same)
        | inr ((event, w), e) ↦
            let new : lookup t.url (transitions r i).1 ≡ some w =
              word ∙ ap (λ x. word_after x (lookup t.url i.last_verdicts)) e in
            verdict_recorded r i recorded (transitions r i).1 t event w e
              (get_or-found t.url "" w (transitions r i).1 new)
      ]

  checks_again :
      (t : Ticket) (words : Map TicketUrl String)
      → checks_landed_transitions t (again recorded words i) ≡ []
  unfolding checks_landed_transitions
  checks_again t words =
      let checks = (pr_at i.obs (ref t)).checks in
      landed_again t.url i.now checks (sort_by string_lt (keys checks))

  merged_again :
      (t : Ticket) (words : Map TicketUrl String)
      → ((pr_at i.obs (ref t)).state ≡ merged → (get_or t.url zero_recorded recorded).merged ≡ true)
      → merged_transition t (again recorded words i) ≡ []
  unfolding merged_transition
  merged_again t words h = ground arith

  round_again :
      (t : Ticket) (words : Map TicketUrl String)
      → ((pr_at i.obs (ref t)).state ≡ merged → (get_or t.url zero_recorded recorded).merged ≡ true)
      → verdict_transition r t (again recorded words i) ≡ none
      → transitions_of r (again recorded words i) t ([], words) ≡ ([], words)
  unfolding transitions_of checks_landed_transitions
  round_again t words h v =
      rw (transitions_of, v)
        (rw (opened_again r i recorded words t)
          (rw (checks_again t words) (rw (merged_again t words h) refl)))

  transitions_loop-again :
      (ts : List Ticket) (words : Map TicketUrl String)
      → ((t : Ticket)
          → In t ts
          → ((pr_at i.obs (ref t)).state ≡ merged
              → (get_or t.url zero_recorded recorded).merged ≡ true)
            × (verdict_transition r t (again recorded words i) ≡ none))
      → transitions_loop r (again recorded words i) ts ([], words) ≡ ([], words)
  unfolding transitions_loop
  transitions_loop-again [] words h = refl
  transitions_loop-again (t ∷ ts) words h =
      let (m, v) = h t (here refl) in
      rw (round_again t words m v) (transitions_loop-again ts words (λ s j. h s (there j)))

-- Where each ticket has its own URL, a tick that observes the same again, after what the first tick
-- saw and its verdict words are recorded and every merge is, records no event and changes no word.
pub transitions-again :
    {F : Type 0} (r : Rules) (i : Input.Input F) (recorded : Map TicketUrl Recorded)
    → ((t : Ticket) → In t i.tickets → count t.url i.tickets ≤ 1)
    → ((t : Ticket)
        → In t i.tickets
        → (pr_at i.obs (ref t)).state ≡ merged
        → (get_or t.url zero_recorded recorded).merged ≡ true)
    → transitions r (again recorded (transitions r i).1 i) ≡ ([], (transitions r i).1)
unfolding transitions
transitions-again r i recorded once merges =
    transitions_loop-again r i recorded i.tickets (transitions r i).1
      (λ t j. (merges t j, verdict_again r i recorded t j (once t j)))
