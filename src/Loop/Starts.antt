-- ===== src/Loop/Starts.antt =====
-- internal/loop/loop.go: how many runs an operation of a tick adds to those that it has started.
use command_center.Prelude.{
  ℕ, ◌+◌, ◌≤◌, ◌⊎◌, inl, inr, String, Bool, true, false, List, [], ◌∷◌, ◌++◌, arith, if◌then◌else◌,
  length, string_eq,
}
use command_center.Plan.Ids.{TicketUrl, branch_ref_eq}
use command_center.Store.Db.{Action, Result, ok, err, Error, ◌>>=◌, then_on, pure, raise}
use command_center.Store.Events.{EventKind, append_event, plain_event}
use command_center.Loop.Machine.{
  LoopState, Act, Outside, Call, in_store, ask, or_fail, called, attempt, now, event,
}

-- The action starts at most `n` runs, whatever its result is.
abbrev pub Starts : {A : Type 0} → ℕ → Act A → Type 0
Starts n m = (s : LoopState) → length (m s).1.spawned ≤ length s.spawned + n

then_on-Starts :
    {A B : Type 0} (a b : ℕ) (k : ℕ) (r : Result A × LoopState) (f : A → Act B)
    → length r.1.spawned ≤ k + a
    → ((x : A) → Starts b (f x))
    → length (then_on f r).1.spawned ≤ k + (a + b)
then_on-Starts a b k (ok x, t) f h g = omega (arith, h, g x t)
then_on-Starts a b k (err e, t) f h g = omega (arith, h)

pub bind-Starts :
    {A B : Type 0} (a b : ℕ) (m : Act A) (f : A → Act B)
    → Starts a m
    → ((x : A) → Starts b (f x))
    → Starts (a + b) (m >>= f)
bind-Starts a b m f h g s = then_on-Starts a b (length s.spawned) (m s) f (h s) g

pub if-Starts :
    {A : Type 0} (n : ℕ) (b : Bool) (m k : Act A)
    → Starts n m
    → Starts n k
    → Starts n (if b then m else k)
if-Starts n true m k h j = h
if-Starts n false m k h j = j

pub in_store-Starts : {A : Type 0} (m : Action A) → Starts 0 (in_store m)
in_store-Starts m s = omega arith

pub now-Starts : (o : Outside) → Starts 0 (now o)
now-Starts o s = omega arith

pub pure-Starts : {A : Type 0} (n : ℕ) (a : A) → Starts n (pure a)
pure-Starts n a s = omega arith

pub raise-Starts : (A : Type 0) (n : ℕ) (e : Error) → Starts {A = A} n (raise e)
raise-Starts A n e s = omega arith

pub more-Starts : {A : Type 0} (a b : ℕ) (m : Act A) → a ≤ b → Starts a m → Starts b m
more-Starts a b m le h s = omega (arith, le, h s)

pub ask-Starts : {A : Type 0} (c : Call) (answer : List Call → String ⊎ A) → Starts 0 (ask c answer)
ask-Starts {A = A} c answer s = by_answer (answer (s.calls ++ c ∷ []))
  where
    by_answer : (r : String ⊎ A) → length (or_fail r (called c s)).1.spawned ≤ length s.spawned + 0
    by_answer (inl e) = omega arith
    by_answer (inr a) = omega arith

pub attempt-Starts :
    {A : Type 0} (c : Call) (answer : List Call → String ⊎ A) → Starts 0 (attempt c answer)
attempt-Starts c answer s = omega arith

pub event-Starts :
    (o : Outside) (url : TicketUrl) (kind : EventKind) (detail : String)
    → Starts 0 (event o url kind detail)
unfolding event
event-Starts o url kind detail =
    bind-Starts 0 0 (now o) (λ at. in_store (append_event (plain_event at url kind detail)))
      (now-Starts o) (λ at. in_store-Starts (append_event (plain_event at url kind detail)))

pub ask-pure-Starts :
    {A B : Type 0} (c : Call) (answer : List Call → String ⊎ A) (b : B)
    → Starts 0 (ask c answer >>= λ _. pure b)
ask-pure-Starts c answer b =
    bind-Starts 0 0 (ask c answer) (λ _. pure b) (ask-Starts c answer) (λ _. pure-Starts 0 b)
