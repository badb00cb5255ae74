-- ===== src/Store/Atomic.antt =====
-- internal/store/store.go: what a statement, a chain of statements and a transaction leave behind.
use command_center.Prelude.{
  sym, ◌≢◌, ◌≡◌, refl, ◌∙◌, ◌⊎◌, inl, inr, Bool, true, false, List, [], ◌∷◌, ap,
}
use command_center.Store.Db.{
  Db, World, Action, ActionOn, Result, ok, err, Error, fault, statement, execute, query, in_tx,
  after_commit, after_body, after_begin, idle, is_err, ◌>>=◌, then_on,
}

pub err-ne-ok : {A : Type 0} (x : Error) (a : A) → Result.err x ≢ Result.ok a
err-ne-ok x a e = cc

pub ok-inj : {A : Type 0} {a b : A} → Result.ok a ≡ Result.ok b → a ≡ b
ok-inj e = cc

-- A chain goes on after a success and stops at an error.
pub bind-ok :
    {W A B : Type 0} (m : ActionOn W A) (f : A → ActionOn W B) (w t : W) (a : A)
    → m w ≡ (ok a, t)
    → (m >>= f) w ≡ f a t
bind-ok m f w t a e = ap (then_on f) e

pub bind-err :
    {W A B : Type 0} (m : ActionOn W A) (f : A → ActionOn W B) (w t : W) (x : Error)
    → m w ≡ (err x, t)
    → (m >>= f) w ≡ (err x, t)
bind-err m f w t x e = ap (then_on f) e

-- A statement fails and changes nothing, or it runs.
pub statement-cases :
    {A : Type 0} (run : Db → Result A × Db) (w : World)
    → ((ahead : List Bool) × (statement run w ≡ (err fault, record { faults = ahead; db = w.db })))
      ⊎ ((ahead : List Bool) × (statement run w
            ≡ ((run w.db).0, record { faults = ahead; db = (run w.db).1 })))
unfolding statement
statement-cases run w = faults-cases w.faults refl
  where
    faults-cases :
        (fs : List Bool)
        → w.faults ≡ fs
        → ((ahead : List Bool) × (statement run w
              ≡ (err fault, record { faults = ahead; db = w.db })))
          ⊎ ((ahead : List Bool) × (statement run w
                ≡ ((run w.db).0, record { faults = ahead; db = (run w.db).1 })))
    faults-cases [] e = inr ([], rw e refl)
    faults-cases (true ∷ ahead) e = inl (ahead, rw e refl)
    faults-cases (false ∷ ahead) e = inr (ahead, rw e refl)

after_commit-atomic :
    {A : Type 0} (d : Db) (a : A) (r : Result Unit × World)
    → is_err (after_commit d a r).0 ≡ true
    → (after_commit d a r).1.db ≡ d
unfolding after_commit
after_commit-atomic d a (err e, w) h = refl
after_commit-atomic d a (ok _, w) h = cc

after_body-atomic :
    {A : Type 0} (d : Db) (r : Result A × World)
    → is_err (after_body d r).0 ≡ true
    → (after_body d r).1.db ≡ d
unfolding after_body
after_body-atomic d (err e, w) h = refl
after_body-atomic d (ok a, w) h = after_commit-atomic d a (execute idle w) h

after_begin-atomic :
    {A : Type 0} (body : Action A) (d : Db) (r : Result Unit × World)
    → r.1.db ≡ d
    → is_err (after_begin body d r).0 ≡ true
    → (after_begin body d r).1.db ≡ d
unfolding after_begin
after_begin-atomic body d (err e, w) k h = k
after_begin-atomic body d (ok _, w) k h = after_body-atomic d (body w) h

execute-idle : (w : World) → (execute idle w).1.db ≡ w.db
unfolding execute
execute-idle w = elim (statement-cases (λ d. (ok tt, idle d)) w) [
  | inl (ahead, e) ↦ rw e refl
  | inr (ahead, e) ↦ rw e refl
]

pub in_tx-atomic :
    {A : Type 0} (body : Action A) (w : World)
    → is_err (in_tx body w).0 ≡ true
    → (in_tx body w).1.db ≡ w.db
unfolding in_tx
in_tx-atomic body w h = after_begin-atomic body w.db (execute idle w) (execute-idle w) h

-- What a success says of the parts.
pub then_on-ok :
    {W A B : Type 0} (f : A → ActionOn W B) (r : Result A × W) (b : B) (t : W)
    → then_on f r ≡ (ok b, t)
    → (a : A) × (u : W) × (r ≡ (ok a, u)) × (f a u ≡ (ok b, t))
then_on-ok f (ok a, u) b t e = (a, u, refl, e)
then_on-ok f (err x, u) b t e = absurd (err-ne-ok x b (ap (λ p. p.0) e))

pub bind-inv :
    {W A B : Type 0} (m : ActionOn W A) (f : A → ActionOn W B) (w t : W) (b : B)
    → (m >>= f) w ≡ (ok b, t)
    → (a : A) × (u : W) × (m w ≡ (ok a, u)) × (f a u ≡ (ok b, t))
bind-inv m f w t b e = then_on-ok f (m w) b t e

pub statement-ok :
    {A : Type 0} (run : Db → Result A × Db) (w t : World) (a : A)
    → statement run w ≡ (ok a, t)
    → ((run w.db).0 ≡ ok a) × (t.db ≡ (run w.db).1)
statement-ok run w t a e = elim (statement-cases run w) [
  | inl (ahead, k) ↦ absurd (err-ne-ok fault a (ap (λ p. p.0) (sym k ∙ e)))
  | inr (ahead, k) ↦ (ap (λ p. p.0) (sym k ∙ e), ap (λ p. p.1.db) (sym e ∙ k))
]

pub execute-ok : (write : Db → Db) (w t : World) → execute write w ≡ (ok tt, t) → t.db ≡ write w.db
unfolding execute
execute-ok write w t e = (statement-ok (λ d. (ok tt, write d)) w t tt e).1

pub query-ok :
    {A : Type 0} (read : Db → A) (w t : World) (a : A)
    → query read w ≡ (ok a, t)
    → (read w.db ≡ a) × (t.db ≡ w.db)
unfolding query
query-ok read w t a e =
    let (k, same) = statement-ok (λ d. (ok (read d), d)) w t a e in (ok-inj k, same)

after_commit-ok :
    {A : Type 0} (d : Db) (a b : A) (r : Result Unit × World) (t : World)
    → after_commit d a r ≡ (ok b, t)
    → (a ≡ b) × (r.1 ≡ t)
unfolding after_commit
after_commit-ok d a b (err e, w) t k = absurd (err-ne-ok e b (ap (λ p. p.0) k))
after_commit-ok d a b (ok _, w) t k = (ok-inj (ap (λ p. p.0) k), ap (λ p. p.1) k)

after_body-ok :
    {A : Type 0} (d : Db) (r : Result A × World) (b : A) (t : World)
    → after_body d r ≡ (ok b, t)
    → (left : World) × (r ≡ (ok b, left)) × (t.db ≡ left.db)
unfolding after_body
after_body-ok d (err e, w) b t k = absurd (err-ne-ok e b (ap (λ p. p.0) k))
after_body-ok d (ok a, w) b t k =
    let (same, left) = after_commit-ok d a b (execute idle w) t k in
    (w, ap (λ x. (ok x, w)) same, ap (λ (x : World). x.db) (sym left) ∙ execute-idle w)

after_begin-ok :
    {A : Type 0} (body : Action A) (d : Db) (r : Result Unit × World) (b : A) (t : World)
    → after_begin body d r ≡ (ok b, t)
    → (left : World) × (body r.1 ≡ (ok b, left)) × (t.db ≡ left.db)
unfolding after_begin
after_begin-ok body d (err e, w) b t k = absurd (err-ne-ok e b (ap (λ p. p.0) k))
after_begin-ok body d (ok _, w) b t k = after_body-ok d (body w) b t k

-- A transaction that succeeds is a run of its function from the database as it was.
pub in_tx-ok :
    {A : Type 0} (body : Action A) (w t : World) (b : A)
    → in_tx body w ≡ (ok b, t)
    → (u : World) × (left : World) × (u.db ≡ w.db) × (body u ≡ (ok b, left)) × (t.db ≡ left.db)
unfolding in_tx
in_tx-ok body w t b e =
    let (left, run, same) = after_begin-ok body w.db (execute idle w) b t e in
    ((execute idle w).1, left, execute-idle w, run, same)
