-- ===== src/Prelude/Equality.antt =====
-- Go's `==` on the key types of the program, as an instance argument.
use Prim.Native.Nat.{ℕ}
use Prim.Native.String.{String}
use mathlib.Core.Path.{◌≡◌, refl}
use mathlib.Core.Logic.{◌↔◌}
use mathlib.Core.Bool.{Bool, true, false}
use mathlib.Core.List.{List}
use text.Mathlib.Text.{◌==◌ as str_beq}
use text.Mathlib.TextEquality.{eq_iff}
use command_center.Prelude.Tests.{nat_beq, nat_beq_iff}
use command_center.Prelude.Lists.{any}

-- The keys of a type can be told apart: `same` decides whether two of them are equal.
pub record Eq {ℓ} (Key : Type ℓ) : Type ℓ where
  pub same : Key → Key → Bool
  pub same_iff : (k j : Key) → (same k j ≡ true) ↔ (k ≡ j)

infix 50 ◌!=◌ ◌==◌
module _ {ℓ} {Key : Type ℓ} ⦃e : Eq Key⦄ where
  abbrev pub ◌==◌ : Key → Key → Bool
  ◌==◌ = e.same

  abbrev pub ◌!=◌ : Key → Key → Bool
  ◌!=◌ k j = elim (e.same k j) [ true ↦ false | false ↦ true ]

instance abbrev pub nat_eq : Eq ℕ
nat_eq = record { same = nat_beq; same_iff = nat_beq_iff }

instance abbrev pub string_eq : Eq String
string_eq = record { same = str_beq; same_iff = eq_iff }

module _ {ℓ} {A : Type ℓ} ⦃e : Eq A⦄ where
  pub ==_iff : (a b : A) → ((a == b) ≡ true) ↔ (a ≡ b)
  ==_iff a b = e.same_iff a b

  pub ==_self : (a : A) → (a == a) ≡ true
  ==_self a = (e.same_iff a a).1 refl

  -- Go's `slices.Contains`.
  abbrev pub contains : List A → A → Bool
  contains xs a = any (λ x. x == a) xs
