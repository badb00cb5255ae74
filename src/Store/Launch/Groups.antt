-- ===== src/Store/Launch/Groups.antt =====
-- internal/store/launch.go, `claimLaunchIntents`: the groups of the claimed intents.
use command_center.Prelude.{
  String, ◌≡◌, refl, sym, ap, ◌∙◌, inl, inr, Bool, true, false, ◌||◌, none, some, List, [], ◌∷◌,
  ◌++◌, append_assoc, append-nil, arith, if◌then◌else◌, Bool-cases, Option-cases, is_some, any,
  contains, has, get_or, get_or-insert, lookup-insert, any-append, nat_eq, string_eq, ◌==◌, ==_iff,
  subst, Map,
}
use command_center.Plan.Ids.{TicketUrl}
use command_center.Store.Db.{ok, err, IntentRow, LaunchPayload, malformed}
use command_center.Store.Atomic.{err-ne-ok, ok-inj}
use command_center.Store.Launch.{
  PendingIntent, pending_intent, decode_launch, Groups, add_claimed, note_group, claim_loop,
}
use command_center.Store.Runs.{append_to}

-- The intents of a group, in the order in which they were queued.
unfoldable pub members_in : String → List IntentRow → List PendingIntent
members_in group [] = []
members_in group (r ∷ rs) =
    let rest = members_in group rs in
    elim (decode_launch r.payload) [
      | none ↦ rest
      | some p ↦ if p.group == group then pending_intent r.ticket p ∷ rest else rest
    ]

get_or-append_to :
    {A : Type 0} (url group : String) (a : A) (m : Map String (List A))
    → get_or group [] (append_to url a m)
      ≡ (if url == group then get_or group [] m ++ a ∷ [] else get_or group [] m)
get_or-append_to url group a m = elim (Bool-cases (url == group)) [
  | inl y ↦
      get_or-insert url group [] (get_or url [] m ++ a ∷ []) m
      ∙ rw y (ap (λ k. get_or k [] m ++ a ∷ []) ((==_iff url group).0 y))
  | inr n ↦ get_or-insert url group [] (get_or url [] m ++ a ∷ []) m ∙ rw n refl
]

claim_loop_fails :
    (r : IntentRow) (rs : List IntentRow) (g : Groups)
    → decode_launch r.payload ≡ none
    → claim_loop (r ∷ rs) g ≡ err (malformed r.ticket)
unfolding claim_loop
claim_loop_fails r rs g e = rw (e, claim_loop) refl

claim_loop_adds :
    (r : IntentRow) (rs : List IntentRow) (g : Groups) (p : LaunchPayload)
    → decode_launch r.payload ≡ some p
    → claim_loop (r ∷ rs) g ≡ claim_loop rs (add_claimed r.ticket p g)
unfolding claim_loop
claim_loop_adds r rs g p e = rw (e, claim_loop) refl

pub members_in-some :
    (group : String) (r : IntentRow) (rs : List IntentRow) (p : LaunchPayload)
    → decode_launch r.payload ≡ some p
    → members_in group (r ∷ rs) ≡ (
        if p.group == group
        then pending_intent r.ticket p ∷ members_in group rs
        else members_in group rs)
unfolding members_in
members_in-some group r rs p e = rw (e, members_in) refl

pub members_in-none :
    (group : String) (r : IntentRow) (rs : List IntentRow)
    → decode_launch r.payload ≡ none
    → members_in group (r ∷ rs) ≡ members_in group rs
unfolding members_in
members_in-none group r rs e = rw (e, members_in) refl

claim_loop_done : (g : Groups) → claim_loop [] g ≡ ok g
unfolding claim_loop
claim_loop_done g = refl

pub members_in_done : (group : String) → members_in group [] ≡ []
unfolding members_in
members_in_done group = refl

-- The groups of the claimed intents hold them in order.
pub claim_loop-groups :
    (group : String) (rs : List IntentRow) (g h : Groups)
    → claim_loop rs g ≡ ok h
    → get_or group [] h.0 ≡ get_or group [] g.0 ++ members_in group rs
claim_loop-groups group [] g h e =
    ap (λ (x : Groups). get_or group [] x.0) (sym (ok-inj (sym (claim_loop_done g) ∙ e)))
    ∙ sym (append-nil _)
    ∙ ap (λ xs. get_or group [] g.0 ++ xs) (sym (members_in_done group))
claim_loop-groups group (r ∷ rs) g h e = elim (Option-cases (decode_launch r.payload)) [
  | inl n ↦ absurd (err-ne-ok (malformed r.ticket) h (sym (claim_loop_fails r rs g n) ∙ e))
  | inr (p, k) ↦
      let rest : get_or group [] h.0
          ≡ get_or group [] (add_claimed r.ticket p g).0 ++ members_in group rs =
        claim_loop-groups group rs (add_claimed r.ticket p g) h
          (sym (claim_loop_adds r rs g p k) ∙ e) in
      let step = get_or-append_to p.group group (pending_intent r.ticket p) g.0 in
      elim (Bool-cases (p.group == group)) [
        | inl y ↦
            let here = members_in-some group r rs p k ∙ rw y refl in
            rest
            ∙ ap (λ xs. xs ++ members_in group rs) (step ∙ rw y refl)
            ∙ append_assoc (get_or group [] g.0) (pending_intent r.ticket p ∷ [])
                (members_in group rs)
            ∙ ap (λ xs. get_or group [] g.0 ++ xs) (sym here)
        | inr n ↦
            rest
            ∙ ap (λ xs. xs ++ members_in group rs) (step ∙ rw n refl)
            ∙ ap (λ xs. get_or group [] g.0 ++ xs)
                (sym (members_in-some group r rs p k ∙ rw n refl))
      ]
]

has-append_to :
    {A : Type 0} (url group : String) (a : A) (m : Map String (List A))
    → has group (append_to url a m) ≡ ((url == group) || has group m)
unfolding has
has-append_to url group a m =
    ap is_some (lookup-insert url group (get_or url [] m ++ a ∷ []) m)
    ∙ elim (Bool-cases (url == group)) [ inl y ↦ rw y refl | inr n ↦ rw n refl ]

contains-append :
    (xs ys : List String) (a : String) → contains (xs ++ ys) a ≡ (contains xs a || contains ys a)
contains-append xs ys a = any-append (λ x. x == a) xs ys

abbrev pub Ordered : Groups → Type 0
Ordered g = (group : String) → has group g.0 ≡ true → contains g.1 group ≡ true

note_group-contains :
    (noted group : String) (g : Groups)
    → Ordered g
    → ((noted == group) || has group g.0) ≡ true
    → contains (note_group noted g) group ≡ true
note_group-contains noted group g o h = elim (Bool-cases (has noted g.0)) [
  | inl y ↦ rw y (o group (known y))
  | inr n ↦ rw n (contains-append g.1 (noted ∷ []) group ∙ ground (arith, h, o group))
]
  where
    known : has noted g.0 ≡ true → has group g.0 ≡ true
    known y = elim (Bool-cases (noted == group)) [
      | inl k ↦ subst (λ x. has x g.0 ≡ true) ((==_iff noted group).0 k) y
      | inr k ↦ ground (arith, h, k)
    ]

add_claimed-Ordered :
    (ticket : TicketUrl) (p : LaunchPayload) (g : Groups)
    → Ordered g
    → Ordered (add_claimed ticket p g)
add_claimed-Ordered ticket p g o group h =
    note_group-contains p.group group g o
      (sym (has-append_to p.group group (pending_intent ticket p) g.0) ∙ h)

unfoldable pub names : String → IntentRow → Bool
names group r = elim (decode_launch r.payload) [ none ↦ false | some p ↦ p.group == group ]

pub names-some :
    (group : String) (r : IntentRow) (p : LaunchPayload)
    → decode_launch r.payload ≡ some p
    → names group r ≡ (p.group == group)
unfolding names
names-some group r p e = rw (e, names) refl

pub names-none :
    (group : String) (r : IntentRow) → decode_launch r.payload ≡ none → names group r ≡ false
unfolding names
names-none group r e = rw (e, names) refl

-- Every group that was there, or that an intent names, comes in the order.
pub claim_loop-order :
    (group : String) (rs : List IntentRow) (g h : Groups)
    → claim_loop rs g ≡ ok h
    → Ordered g
    → (has group g.0 || any (λ (r : IntentRow). names group r) rs) ≡ true
    → contains h.1 group ≡ true
claim_loop-order group [] g h e o k =
    subst (λ (x : Groups). contains x.1 group ≡ true) (ok-inj (sym (claim_loop_done g) ∙ e))
      (o group (ground (arith, k)))
claim_loop-order group (r ∷ rs) g h e o k = elim (Option-cases (decode_launch r.payload)) [
  | inl n ↦ absurd (err-ne-ok (malformed r.ticket) h (sym (claim_loop_fails r rs g n) ∙ e))
  | inr (p, d) ↦
      claim_loop-order group rs (add_claimed r.ticket p g) h (sym (claim_loop_adds r rs g p d) ∙ e)
        (add_claimed-Ordered r.ticket p g o)
        (ground (
          arith,
          k,
          has-append_to p.group group (pending_intent r.ticket p) g.0,
          names-some group r p d,
        ))
]
