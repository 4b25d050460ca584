-- ===== src/Prelude/Keys.antt =====
-- Python's `==` on the keys that the program compares: an interface with a law.
use Prim.Native.Nat.{ℕ}
use Prim.Native.String.{String}
use mathlib.Core.Path.{◌≡◌, refl, sym, ap, ◌∙◌}
use mathlib.Core.Logic.{◌≢◌, ◌↔◌, ◌⊎◌}
use mathlib.Core.Bool.{Bool, true, false, ◌&&◌}
use mathlib.Core.Option.{Option, none, some}
use mathlib.Core.List.{List, [], ◌∷◌}
use native.Mathlib.Omega.{arith}
use text.Mathlib.Text.{◌==◌ as str_eq}
use text.Mathlib.TextEquality.{eq_iff}
use enterprise_sales_intelli.Prelude.Tests.{eqb, eqb_iff, some_inj}

pub record Eq {ℓ} (A : Type ℓ) : Type ℓ where
  pub equals : A → A → Bool
  pub equals_iff : (p q : A) → (equals p q ≡ true) ↔ (p ≡ q)

infix 50 ◌==◌
abbrev pub ◌==◌ {ℓ} : {A : Type ℓ} ⦃e : Eq A⦄ → A → A → Bool
◌==◌ ⦃e⦄ = e.equals

instance abbrev pub string_eq : Eq String
string_eq = record { equals = str_eq; equals_iff = eq_iff }

instance abbrev pub nat_eq : Eq ℕ
nat_eq = record { equals = eqb; equals_iff = eqb_iff }

module _ {ℓ κ} {A : Type ℓ} {B : Type κ} ⦃e : Eq A⦄ ⦃d : Eq B⦄ where
  abbrev pub pair_beq : A × B → A × B → Bool
  pair_beq (a, b) (a', b') = a == a' && b == b'

  pub pair_beq_iff : (p q : A × B) → (pair_beq p q ≡ true) ↔ (p ≡ q)
  pair_beq_iff (a, b) (a', b') = ground (arith, e.equals_iff a a', d.equals_iff b b')

  instance abbrev pub pair_eq : Eq (A × B)
  pair_eq = record { equals = pair_beq; equals_iff = pair_beq_iff }

module _ {ℓ} {A : Type ℓ} ⦃e : Eq A⦄ where
  pub beq_refl : (a : A) → (a == a) ≡ true
  beq_refl a = (e.equals_iff a a).1 refl

  -- The law of `==` as a statement that the tactics take at a pair.
  abbrev pub IsEqual : A → A → Type ℓ
  IsEqual a b = ((a == b) ≡ true) ↔ (a ≡ b)

  pub beq-cases : (a b : A) → ((a == b) ≡ true) × (a ≡ b) ⊎ ((a == b) ≡ false) × (a ≢ b)
  beq-cases a b = grind (arith, e.equals_iff a b)

-- The equality of a `StrEnum`: that of the members' texts, of which each names one member.
module _ {ℓ} {A : Type ℓ} (text : A → String) (of_text : String → Option A)
    (of_text-text : (a : A) → of_text (text a) ≡ some a) where
  text_inj : (a b : A) → text a ≡ text b → a ≡ b
  text_inj a b p = some_inj (sym (of_text-text a) ∙ ap of_text p ∙ of_text-text b)

  pub text_iff : (a b : A) → (str_eq (text a) (text b) ≡ true) ↔ (a ≡ b)
  text_iff a b = (
    λ h. text_inj a b ((eq_iff (text a) (text b)).0 h),
    λ p. (eq_iff (text a) (text b)).1 (ap text p),
  )

  abbrev pub eq_by_text : Eq A
  eq_by_text = record { equals = λ a b. str_eq (text a) (text b); equals_iff = text_iff }

module _ {ℓ} {A : Type ℓ} ⦃e : Eq A⦄ where
  abbrev pub option_beq : Option A → Option A → Bool
  option_beq none none = true
  option_beq (some a) (some b) = a == b
  option_beq _ _ = false

  pub option_beq_iff : (p q : Option A) → (option_beq p q ≡ true) ↔ (p ≡ q)
  option_beq_iff none none = ground arith
  option_beq_iff none (some b) = ground arith
  option_beq_iff (some a) none = ground arith
  option_beq_iff (some a) (some b) = ground (arith, e.equals_iff a b)

  instance abbrev pub option_eq : Eq (Option A)
  option_eq = record { equals = option_beq; equals_iff = option_beq_iff }

  abbrev pub list_beq : List A → List A → Bool
  list_beq [] [] = true
  list_beq (a ∷ xs) (b ∷ ys) = a == b && list_beq xs ys
  list_beq _ _ = false

  pub list_beq_iff : (p q : List A) → (list_beq p q ≡ true) ↔ (p ≡ q)
  list_beq_iff [] [] = ground arith
  list_beq_iff [] (b ∷ ys) = ground arith
  list_beq_iff (a ∷ xs) [] = ground arith
  list_beq_iff (a ∷ xs) (b ∷ ys) = ground (arith, e.equals_iff a b, list_beq_iff xs ys)

  instance abbrev pub list_eq : Eq (List A)
  list_eq = record { equals = list_beq; equals_iff = list_beq_iff }
