-- ===== src/Loop/Calls.antt =====
-- internal/loop: which calls an operation adds to those made before.
use command_center.Prelude.{
  ◌≡◌, refl, sym, ap, ◌∙◌, ◌⊎◌, inl, inr, String, Bool, true, false, List, [], ◌∷◌, ◌++◌,
  append_assoc, append-nil, arith, every, subst, if◌then◌else◌,
}
use command_center.Plan.Ids.{TicketUrl}
use command_center.Store.Db.{Action, Result, ok, err, ◌>>=◌, then_on}
use command_center.Store.Events.{EventKind, plain_event, append_event}
use command_center.Loop.Machine.{
  LoopState, Act, Outside, Call, in_store, called, attempt, ask, or_fail, now, event,
}

-- `t` has made the calls of `s` and then calls that pass the test.
abbrev pub Added : (Call → Bool) → LoopState → LoopState → Type 0
Added p s t = (cs : List Call) × (t.calls ≡ s.calls ++ cs) × (every p cs ≡ true)

-- The action adds only calls that pass the test, whatever its result is.
abbrev pub Only : {A : Type 0} → (Call → Bool) → Act A → Type 0
Only p m = (s : LoopState) → Added p s (m s).1

every-append :
    {A : Type 0} (p : A → Bool) (xs ys : List A)
    → every p xs ≡ true
    → every p ys ≡ true
    → every p (xs ++ ys) ≡ true
every-append p [] ys h k = k
every-append p (x ∷ xs) ys h k = ground (arith, h, every-append p xs ys, k)

pub calls_kept : (p : Call → Bool) (s t : LoopState) → t.calls ≡ s.calls → Added p s t
calls_kept p s t e = ([], e ∙ sym (append-nil s.calls), refl)

pub calls_joined : (p : Call → Bool) (s t u : LoopState) → Added p s t → Added p t u → Added p s u
calls_joined p s t u (cs, e, h) (ds, k, j) =
    (cs ++ ds, k ∙ ap (λ xs. xs ++ ds) e ∙ append_assoc s.calls cs ds, every-append p cs ds h j)

then_on-Added :
    {A B : Type 0} (p : Call → Bool) (s : LoopState) (r : Result A × LoopState) (f : A → Act B)
    → Added p s r.1
    → ((a : A) → Only p (f a))
    → Added p s (then_on f r).1
then_on-Added p s (ok a, t) f h k = calls_joined p s t (f a t).1 h (k a t)
then_on-Added p s (err e, t) f h k = h

pub bind-Only :
    {A B : Type 0} (p : Call → Bool) (m : Act A) (f : A → Act B)
    → Only p m
    → ((a : A) → Only p (f a))
    → Only p (m >>= f)
bind-Only p m f h k s = then_on-Added p s (m s) f (h s) k

pub in_store-Only : {A : Type 0} (p : Call → Bool) (m : Action A) → Only p (in_store m)
in_store-Only p m s = calls_kept p s (in_store m s).1 refl

pub now-Only : (p : Call → Bool) (o : Outside) → Only p (now o)
now-Only p o s = calls_kept p s (now o s).1 refl

pub event-Only :
    (p : Call → Bool) (o : Outside) (url : TicketUrl) (kind : EventKind) (detail : String)
    → Only p (event o url kind detail)
unfolding event
event-Only p o url kind detail =
    bind-Only p (now o) (λ at. in_store (append_event (plain_event at url kind detail)))
      (now-Only p o) (λ at. in_store-Only p (append_event (plain_event at url kind detail)))

pub called-Added :
    (p : Call → Bool) (c : Call) (s : LoopState) → p c ≡ true → Added p s (called c s)
called-Added p c s h = (c ∷ [], refl, ground (arith, h))

or_fail_same : {A : Type 0} (r : String ⊎ A) (s : LoopState) → (or_fail r s).1 ≡ s
or_fail_same (inl e) s = refl
or_fail_same (inr a) s = refl

pub ask-Only :
    {A : Type 0} (p : Call → Bool) (c : Call) (answer : List Call → String ⊎ A)
    → p c ≡ true
    → Only p (ask c answer)
ask-Only p c answer h s =
    subst (Added p s) (sym (or_fail_same (answer (s.calls ++ c ∷ [])) (called c s)))
      (called-Added p c s h)

pub attempt-Only :
    {A : Type 0} (p : Call → Bool) (c : Call) (answer : List Call → String ⊎ A)
    → p c ≡ true
    → Only p (attempt c answer)
attempt-Only p c answer h s = called-Added p c s h

pub if-Only :
    {A : Type 0} (p : Call → Bool) (b : Bool) (m k : Act A)
    → Only p m
    → Only p k
    → Only p (if b then m else k)
if-Only p true m k h j = h
if-Only p false m k h j = j

pub event-calls :
    (o : Outside) (url : TicketUrl) (kind : EventKind) (detail : String) (s : LoopState)
    → (event o url kind detail s).1.calls ≡ s.calls
unfolding event
event-calls o url kind detail s =
    in_store_calls (append_event (plain_event (o.clock s.reads) url kind detail)) (now o s).1
  where
    in_store_calls : (m : Action Unit) (t : LoopState) → (in_store m t).1.calls ≡ t.calls
    in_store_calls m t = refl
