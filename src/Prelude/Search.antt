-- ===== src/Prelude/Search.antt =====
-- What a search of a list finds, and what a test of its elements says.
use Prim.Native.Nat.{ℕ, zero, suc}
use mathlib.Core.Path.{◌≡◌, refl, sym, ap, subst, ◌∙◌}
use mathlib.Core.Logic.{◌↔◌, ◌⊎◌, inl, inr}
use mathlib.Core.Bool.{Bool, true, false, ◌||◌}
use mathlib.Core.List.{List, [], ◌∷◌, ◌++◌, map}
use mathlib.Core.Option.{none, some}
use native.Mathlib.Omega.{arith}
use command_center.Prelude.Tests.{Bool-cases, if◌then◌else◌}
use command_center.Prelude.Lists.{any, every, find_first, select, take, All, In, here, there}

module _ {ℓ} {A : Type ℓ} where
  pub any-false_iff : (p : A → Bool) (xs : List A) → (any p xs ≡ false) ↔ All (λ x. p x ≡ false) xs
  any-false_iff p [] = (λ e. tt, λ h. refl)
  any-false_iff p (x ∷ xs) = (
    λ e. (ground arith, (any-false_iff p xs).0 (ground arith)),
    λ (h, k). ground (arith, (any-false_iff p xs).1 k),
  )

  pub any-true : (p : A → Bool) (xs : List A) → any p xs ≡ true → (x : A) × In x xs × (p x ≡ true)
  any-true p [] e = cc
  any-true p (x ∷ xs) e = elim (Bool-cases (p x)) [
    | inl h ↦ (x, here refl, h)
    | inr h ↦ let (y, i, k) = any-true p xs (ground arith) in (y, there i, k)
  ]

  pub In-any : (p : A → Bool) (x : A) (xs : List A) → In x xs → p x ≡ true → any p xs ≡ true
  In-any p x xs (here e) h = ground (arith, ap p e)
  In-any p x xs (there {xs = ys} i) h = ground (arith, In-any p x ys i h)

  pub In-append_left : (x : A) (xs ys : List A) → In x xs → In x (xs ++ ys)
  In-append_left x xs ys (here e) = here e
  In-append_left x xs ys (there {xs = zs} i) = there (In-append_left x zs ys i)

  pub In-append_right : (x : A) (xs ys : List A) → In x ys → In x (xs ++ ys)
  In-append_right x [] ys i = i
  In-append_right x (y ∷ xs) ys i = there (In-append_right x xs ys i)

  pub find_first_sound :
      (p : A → Bool) (xs : List A) (x : A) → find_first p xs ≡ some x → p x ≡ true
  find_first_sound p [] x e = cc
  find_first_sound p (y ∷ ys) x e = elim (Bool-cases (p y)) [
    | inl h ↦ ground arith
    | inr h ↦ find_first_sound p ys x (ground arith)
  ]

  pub find_first-every :
      (p q : A → Bool) (xs : List A) (x : A)
      → every q xs ≡ true
      → find_first p xs ≡ some x
      → q x ≡ true
  find_first-every p q [] x h e = cc
  find_first-every p q (y ∷ ys) x h e = elim (Bool-cases (p y)) [
    | inl k ↦ ground arith
    | inr k ↦ find_first-every p q ys x (ground arith) (ground arith)
  ]

  pub find_first-none_iff :
      (p : A → Bool) (xs : List A) → (find_first p xs ≡ none) ↔ All (λ x. p x ≡ false) xs
  find_first-none_iff p [] = (λ e. tt, λ h. refl)
  find_first-none_iff p (x ∷ xs) = (
    λ e. (ground arith, (find_first-none_iff p xs).0 (ground arith)),
    λ (h, k). ground (arith, (find_first-none_iff p xs).1 k),
  )

  -- What is found has only elements before it on which the test fails.
  pub find_first-split :
      (p : A → Bool) (xs : List A) (x : A)
      → find_first p xs ≡ some x
      → (before after : List A) × (xs ≡ before ++ x ∷ after)
        × All (λ y. p y ≡ false) before
        × (p x ≡ true)
  find_first-split p [] x e = cc
  find_first-split p (y ∷ ys) x e = elim (Bool-cases (p y)) [
    | inl h ↦ let same : y ≡ x = ground arith in ([], ys, ap (λ z. z ∷ ys) same, tt, ground arith)
    | inr h ↦
        let (before, after, k, a, t) = find_first-split p ys x (ground arith) in
        (y ∷ before, after, ap (◌∷◌ y) k, (h, a), t)
  ]

  pub find_first-some :
      (p : A → Bool) (xs : List A) → any p xs ≡ true → (x : A) × (find_first p xs ≡ some x)
  find_first-some p [] e = cc
  find_first-some p (y ∷ ys) e = elim (Bool-cases (p y)) [
    | inl h ↦ (y, ground arith)
    | inr h ↦ let (x, k) = find_first-some p ys (ground arith) in (x, ground arith)
  ]

  pub find_first-weaker :
      (p q : A → Bool) (xs : List A) (x : A)
      → ((y : A) → p y ≡ true → q y ≡ true)
      → find_first p xs ≡ some x
      → (y : A) × (find_first q xs ≡ some y)
  find_first-weaker p q [] x h e = cc
  find_first-weaker p q (y ∷ ys) x h e = elim (Bool-cases (q y)) [
    | inl k ↦ (y, ground arith)
    | inr k ↦
        let (z, found) = find_first-weaker p q ys x h (ground (arith, h y)) in (z, ground arith)
  ]

  pub any-append : (p : A → Bool) (xs ys : List A) → any p (xs ++ ys) ≡ (any p xs || any p ys)
  any-append p [] ys = refl
  any-append p (x ∷ xs) ys = ground (arith, any-append p xs ys)

module _ {ℓ} {A : Type ℓ} where
  pub In-append : (x : A) (xs ys : List A) → In x (xs ++ ys) → In x xs ⊎ In x ys
  In-append x [] ys i = inr i
  In-append x (z ∷ xs) ys (here e) = inl (here e)
  In-append x (z ∷ xs) ys (there i) = elim (In-append x xs ys i) [
    | inl j ↦ inl (there j)
    | inr j ↦ inr j
  ]

  pub In-take : (x : A) (n : ℕ) (xs : List A) → In x (take n xs) → In x xs
  In-take x zero xs i = elim i [ ]
  In-take x (suc n) [] i = elim i [ ]
  In-take x (suc n) (y ∷ ys) (here e) = here e
  In-take x (suc n) (y ∷ ys) (there i) = there (In-take x n ys i)

  pub In-select : (p : A → Bool) (x : A) (xs : List A) → In x (select p xs) → In x xs × (p x ≡ true)
  In-select p x [] i = elim i [ ]
  In-select p x (y ∷ ys) i = elim (Bool-cases (p y)) [
    | inl h ↦
        at_head (subst (λ b. In x (if b then y ∷ select p ys else select p ys)) h i) h
          (λ j. In-select p x ys j)
    | inr h ↦
        let (j, k) =
          In-select p x ys (subst (λ b. In x (if b then y ∷ select p ys else select p ys)) h i) in
        (there j, k)
  ]
    where
      at_head :
          In x (y ∷ select p ys)
          → p y ≡ true
          → (In x (select p ys) → In x ys × (p x ≡ true))
          → In x (y ∷ ys) × (p x ≡ true)
      at_head (here e) h rest = (here e, ap p e ∙ h)
      at_head (there j) h rest = let (k, l) = rest j in (there k, l)

  pub In-map {κ} :
      {B : Type κ} (f : A → B) (y : B) (xs : List A)
      → In y (map f xs)
      → (x : A) × In x xs × (y ≡ f x)
  In-map f y [] i = elim i [ ]
  In-map f y (x ∷ xs) (here e) = (x, here refl, e)
  In-map f y (x ∷ xs) (there i) = let (z, j, e) = In-map f y xs i in (z, there j, e)

pub In-mapped : {A B : Type 0} (f : A → B) (x : A) (xs : List A) → In x xs → In (f x) (map f xs)
In-mapped f x xs (here e) = here (ap f e)
In-mapped f x xs (there {xs = ys} i) = there (In-mapped f x ys i)

pub one_or_rest {ℓ} :
    {A : Type ℓ} (P : A → Type ℓ) (a : A) (xs : List A)
    → P a
    → ((x : A) → In x xs → P x)
    → (x : A) → In x (a ∷ xs)
    → P x
one_or_rest P a xs h each x (here e) = subst P (sym e) h
one_or_rest P a xs h each x (there i) = each x i

pub select_none {ℓ} :
    {A : Type ℓ} (p : A → Bool) (xs : List A) → ((x : A) → In x xs → p x ≡ false) → select p xs ≡ []
select_none p [] h = refl
select_none p (x ∷ xs) h = ground (arith, h x (here refl), select_none p xs (λ y i. h y (there i)))

pub select-In {ℓ} :
    {A : Type ℓ} (p : A → Bool) (x : A) (xs : List A) → In x xs → p x ≡ true → In x (select p xs)
select-In p x [] i h = elim i [ ]
select-In p x (y ∷ xs) (here e) h =
    subst (λ z. In x (select p (z ∷ xs))) e (subst (In x) (sym (first_picked p x xs h)) (here refl))
  where
    first_picked :
        {A : Type ℓ} (p : A → Bool) (x : A) (xs : List A)
        → p x ≡ true
        → select p (x ∷ xs) ≡ x ∷ select p xs
    first_picked p x xs h = rw h refl
select-In p x (y ∷ xs) (there i) h = later (p y) (select-In p x xs i h)
  where
    later : (b : Bool) → In x (select p xs) → In x (if b then y ∷ select p xs else select p xs)
    later true j = there j
    later false j = j
