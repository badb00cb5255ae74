-- ===== src/Prelude/Sorting.antt =====
-- Go's `slices.SortFunc`, which sorts up to 12 elements by insertion, and the order of `strings.Compare`.
use Prim.Native.Char.{code}
use Prim.Native.String.{String}
use mathlib.Core.Bool.{Bool, true, false}
use mathlib.Core.List.{List, [], ◌∷◌}
use Prim.Native.Nat.{ℕ, ◌+◌, ◌≤◌}
use mathlib.Core.Path.{◌≡◌, refl}
use mathlib.Core.Logic.{inl, inr}
use native.Mathlib.Omega.{arith}
use command_center.Prelude.Tests.{Bool-cases, ltb, if◌then◌else◌}
use command_center.Prelude.Lists.{length, select, All}

-- `strings.Compare(a, b) < 0`.
unfoldable pub string_lt : String → String → Bool
string_lt s String.[] = false
string_lt String.[] (String.◌∷◌ d t) = true
string_lt (String.◌∷◌ c s) (String.◌∷◌ d t) =
    let rest = string_lt s t in
    if ltb (code c) (code d) then true else if ltb (code d) (code c) then false else rest

module _ {ℓ} {A : Type ℓ} where
  -- An element moves to the left past those it is less than; the prefix is reversed.
  unfoldable pub slot_in : (A → A → Bool) → A → List A → List A
  slot_in less x [] = x ∷ []
  slot_in less x (y ∷ ys) =
      let rest = slot_in less x ys in if less x y then y ∷ rest else x ∷ y ∷ ys

  unfoldable pub sort_onto : (A → A → Bool) → List A → List A → List A
  unfolding slot_in
  sort_onto less prefix [] = prefix
  sort_onto less prefix (x ∷ xs) = sort_onto less (slot_in less x prefix) xs

  abbrev pub reverse_onto : List A → List A → List A
  reverse_onto [] acc = acc
  reverse_onto (x ∷ xs) acc = reverse_onto xs (x ∷ acc)

  unfoldable pub sort_by : (A → A → Bool) → List A → List A
  unfolding sort_onto
  sort_by less xs = reverse_onto (sort_onto less [] xs) []

-- A sort keeps how many elements pass a test.
module _ {ℓ} {A : Type ℓ} (p : A → Bool) (less : A → A → Bool) where
  passing-slot_in :
      (x : A) (ys : List A) → length (select p (slot_in less x ys)) ≡ length (select p (x ∷ ys))
  unfolding slot_in
  passing-slot_in x [] = refl
  passing-slot_in x (y ∷ ys) = ground (arith, passing-slot_in x ys)

  passing-sort_onto :
      (prefix xs : List A)
      → length (select p (sort_onto less prefix xs))
        ≡ length (select p prefix) + length (select p xs)
  unfolding sort_onto
  passing-sort_onto prefix [] = omega arith
  passing-sort_onto prefix (x ∷ xs) =
      ground (arith, passing-sort_onto (slot_in less x prefix) xs, passing-slot_in x prefix)

  passing-reverse_onto :
      (xs acc : List A)
      → length (select p (reverse_onto xs acc)) ≡ length (select p xs) + length (select p acc)
  passing-reverse_onto [] acc = omega arith
  passing-reverse_onto (x ∷ xs) acc = ground (arith, passing-reverse_onto xs (x ∷ acc))

  pub passing-sort_by : (xs : List A) → length (select p (sort_by less xs)) ≡ length (select p xs)
  unfolding sort_by
  passing-sort_by xs =
      omega (arith, passing-reverse_onto (sort_onto less [] xs) [], passing-sort_onto [] xs)

module _ {ℓ} {A : Type ℓ} (p q : A → Bool) where
  pub passing-select : (xs : List A) → length (select p (select q xs)) ≤ length (select p xs)
  passing-select [] = omega arith
  passing-select (x ∷ xs) = ground (arith, passing-select xs)

-- A sort by a number gives the elements in ascending order of it.
module _ {ℓ} {A : Type ℓ} (key : A → ℕ) where
  abbrev pub Ascending : List A → Type 0
  Ascending [] = Unit
  Ascending (x ∷ xs) = All (λ y. key x ≤ key y) xs × Ascending xs

  abbrev Descending : List A → Type 0
  Descending [] = Unit
  Descending (x ∷ xs) = All (λ y. key y ≤ key x) xs × Descending xs

  abbrev pub below : A → A → Bool
  below x y = ltb (key x) (key y)

  All-weaker : (n m : ℕ) (xs : List A) → All (λ y. key y ≤ n) xs → n ≤ m → All (λ y. key y ≤ m) xs
  All-weaker n m [] h e = tt
  All-weaker n m (x ∷ xs) (h, hs) e = (omega arith, All-weaker n m xs hs e)

  All-slot_in :
      (n : ℕ) (x : A) (ys : List A)
      → All (λ y. key y ≤ n) ys
      → key x ≤ n
      → All (λ y. key y ≤ n) (slot_in below x ys)
  unfolding slot_in
  All-slot_in n x [] h e = (e, tt)
  All-slot_in n x (y ∷ ys) (h, hs) e = elim (Bool-cases (ltb (key x) (key y))) [
    | inl less ↦ rw less (h, All-slot_in n x ys hs e)
    | inr more ↦ rw more (e, (h, hs))
  ]

  slot_in-Descending : (x : A) (ys : List A) → Descending ys → Descending (slot_in below x ys)
  unfolding slot_in
  slot_in-Descending x [] d = (tt, tt)
  slot_in-Descending x (y ∷ ys) (h, d) = elim (Bool-cases (ltb (key x) (key y))) [
    | inl less ↦ rw less (All-slot_in (key y) x ys h (ground arith), slot_in-Descending x ys d)
    | inr more ↦
        let le : key y ≤ key x = ground arith in
        rw more ((le, All-weaker (key y) (key x) ys h le), (h, d))
  ]

  sort_onto-Descending :
      (prefix xs : List A) → Descending prefix → Descending (sort_onto below prefix xs)
  unfolding sort_onto
  sort_onto-Descending prefix [] d = d
  sort_onto-Descending prefix (x ∷ xs) d =
      sort_onto-Descending (slot_in below x prefix) xs (slot_in-Descending x prefix d)

  both :
      (x : A) (xs acc : List A)
      → All (λ y. key y ≤ key x) xs
      → All (λ z. All (λ y. key z ≤ key y) acc) xs
      → All (λ z. All (λ y. key z ≤ key y) (x ∷ acc)) xs
  both x [] acc h k = tt
  both x (y ∷ ys) acc (h, hs) (k, ks) = ((h, k), both x ys acc hs ks)

  above_nothing : (xs : List A) → All (λ z. All (λ y. key z ≤ key y) []) xs
  above_nothing [] = tt
  above_nothing (x ∷ xs) = (tt, above_nothing xs)

  reverse_onto-Ascending :
      (xs acc : List A)
      → Descending xs
      → Ascending acc
      → All (λ x. All (λ y. key x ≤ key y) acc) xs
      → Ascending (reverse_onto xs acc)
  reverse_onto-Ascending [] acc d a h = a
  reverse_onto-Ascending (x ∷ xs) acc (h, d) a (k, ks) =
      reverse_onto-Ascending xs (x ∷ acc) d (k, a) (both x xs acc h ks)

  pub sort_by-Ascending : (xs : List A) → Ascending (sort_by below xs)
  unfolding sort_by
  sort_by-Ascending xs =
      reverse_onto-Ascending (sort_onto below [] xs) [] (sort_onto-Descending [] xs tt) tt
        (above_nothing (sort_onto below [] xs))
