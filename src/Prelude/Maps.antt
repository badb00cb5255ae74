-- ===== src/Prelude/Maps.antt =====
-- Go maps as association lists: a read of an absent key is `none`, or the zero value with `get_or`;
-- a write replaces the entry of its key. A `range` loop visits the entries in the list's order,
-- which stands for the unspecified order of Go.
use mathlib.Core.Path.{◌≡◌, refl, ap, ◌∙◌}
use mathlib.Core.Logic.{inl, inr}
use mathlib.Core.Bool.{Bool}
use mathlib.Core.List.{List, [], ◌∷◌, map}
use mathlib.Core.Option.{Option, none, some}
use native.Mathlib.Omega.{arith}
use command_center.Prelude.Tests.{Bool-cases, if◌then◌else◌, is_some}
use command_center.Prelude.Equality.{Eq, ◌==◌, ==_iff, ==_self}

abbrev pub Map {ℓ κ} : Type ℓ → Type κ → Type (ℓ ⊔ κ)
Map K V = List (K × V)

module _ {ℓ κ} {K : Type ℓ} {V : Type κ} where
  abbrev pub keys : Map K V → List K
  keys = map (λ e. e.0)

  abbrev pub values : Map K V → List V
  values = map (λ e. e.1)

module _ {ℓ κ} {K : Type ℓ} {V : Type κ} ⦃e : Eq K⦄ where
  unfoldable pub lookup : K → Map K V → Option V
  lookup k [] = none
  lookup k ((j, v) ∷ m) = let rest = lookup k m in if j == k then some v else rest

  unfoldable pub insert : K → V → Map K V → Map K V
  insert key value [] = (key, value) ∷ []
  insert key value ((old_key, old) ∷ m) =
      let rest = insert key value m in
      if old_key == key then (key, value) ∷ m else (old_key, old) ∷ rest

  unfoldable pub get_or : K → V → Map K V → V
  unfolding lookup
  get_or k d m = elim (lookup k m) [ none ↦ d | some v ↦ v ]

  unfoldable pub has : K → Map K V → Bool
  unfolding lookup
  has k m = is_some (lookup k m)

module _ {ℓ κ} {K : Type ℓ} {V : Type κ} ⦃e : Eq K⦄ where
  pub lookup-insert :
      (key read : K) (value : V) (m : Map K V)
      → lookup read (insert key value m) ≡ (if key == read then some value else lookup read m)
  unfolding lookup insert
  lookup-insert key read value [] = refl
  lookup-insert key read value ((old_key, old) ∷ m) = ground (
    arith,
    ==_iff old_key key,
    ==_iff old_key read,
    ==_iff key read,
    lookup-insert key read value m,
  )

  pub lookup-insert_self : (k : K) (v : V) (m : Map K V) → lookup k (insert k v m) ≡ some v
  lookup-insert_self k v m = rw (lookup-insert k k v m) (rw (==_self k))

  pub get_or-same :
      (k : K) (d : V) (m n : Map K V) → lookup k m ≡ lookup k n → get_or k d m ≡ get_or k d n
  unfolding get_or
  get_or-same k d m n e = ap (λ (x : Option V). elim x as (λ _. V) [ none ↦ d | some v ↦ v ]) e

  pub get_or-found : (k : K) (d v : V) (m : Map K V) → lookup k m ≡ some v → get_or k d m ≡ v
  unfolding get_or
  get_or-found k d v m e = ap (λ (x : Option V). elim x as (λ _. V) [ none ↦ d | some w ↦ w ]) e

  pub get_or-insert :
      (k j : K) (d v : V) (m : Map K V)
      → get_or j d (insert k v m) ≡ (if k == j then v else get_or j d m)
  unfolding get_or
  get_or-insert k j d v m = elim (Bool-cases (k == j)) [
    | inl y ↦ get_or-found j d v (insert k v m) (lookup-insert k j v m ∙ rw y refl) ∙ rw y refl
    | inr z ↦ get_or-same j d (insert k v m) m (lookup-insert k j v m ∙ rw z refl) ∙ rw z refl
  ]
