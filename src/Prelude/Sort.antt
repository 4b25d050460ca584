-- ===== src/Prelude/Sort.antt =====
-- Python's `sorted`: a stable sort by a test `leq`. Insertion from the right keeps equal items in
-- order.
pub mod Members
pub mod TextOrder
use mathlib.Core.Path.{◌≡◌}
use mathlib.Core.Bool.{Bool, true, false, ◌||◌}
use mathlib.Core.List.{List, [], ◌∷◌, Perm}
use mathlib.Core.List.Perm
use mathlib.Core.Logic.{inl, inr}
use Prim.Native.String.{String, compare}
use Prim.Native.Nat.{Ordering}
use enterprise_sales_intelli.Prelude.Tests.{if◌then◌else◌, Bool-cases}
use enterprise_sales_intelli.Prelude.Lists.{All}
use enterprise_sales_intelli.Prelude.Keys.{Eq, ◌==◌, string_eq}

module _ {ℓ} {A : Type ℓ} (leq : A → A → Bool) where
  unfoldable pub insert_sorted : A → List A → List A
  insert_sorted x [] = x ∷ []
  insert_sorted x (y ∷ ys) = if leq x y then x ∷ y ∷ ys else y ∷ insert_sorted x ys

  unfoldable pub sort : List A → List A
  sort [] = []
  sort (x ∷ xs) = insert_sorted x (sort xs)

  -- Each item is before the ones behind it.
  abbrev pub IsSorted : List A → Type ℓ
  IsSorted [] = Unit
  IsSorted (x ∷ xs) = All (λ y. leq x y ≡ true) xs × IsSorted xs

  insert_sorted-perm : (x : A) (xs : List A) → Perm (insert_sorted x xs) (x ∷ xs)
  unfolding insert_sorted
  insert_sorted-perm x [] = Perm.rfl
  insert_sorted-perm x (y ∷ ys) = elim (Bool-cases (leq x y)) [
    | inl le ↦ rw le Perm.rfl
    | inr gt ↦ rw gt (Perm.trans (Perm.cons y (insert_sorted-perm x ys)) (Perm.swap x y ys))
  ]

  pub sort-perm : (xs : List A) → Perm (sort xs) xs
  unfolding sort
  sort-perm [] = Perm.rfl
  sort-perm (x ∷ xs) = Perm.trans (insert_sorted-perm x (sort xs)) (Perm.cons x (sort-perm xs))

  pub insert_sorted-All {κ} :
      (P : A → Type κ) (x : A) (xs : List A) → P x → All P xs → All P (insert_sorted x xs)
  unfolding insert_sorted
  insert_sorted-All P x [] h a = (h, tt)
  insert_sorted-All P x (y ∷ ys) h a = elim (Bool-cases (leq x y)) [
    | inl le ↦ rw le (h, a)
    | inr gt ↦ rw gt (a.0, insert_sorted-All P x ys h a.1)
  ]

  pub sort-All {κ} : (P : A → Type κ) (xs : List A) → All P xs → All P (sort xs)
  unfolding sort
  sort-All P [] h = h
  sort-All P (x ∷ xs) h = insert_sorted-All P x (sort xs) h.0 (sort-All P xs h.1)

-- A test that orders any two items, and is transitive.
pub record IsOrder {ℓ} {A : Type ℓ} (leq : A → A → Bool) : Type ℓ where
  pub total : (x y : A) → leq x y ≡ false → leq y x ≡ true
  pub trans : (x y z : A) → leq x y ≡ true → leq y z ≡ true → leq x z ≡ true

module _ {ℓ} {A : Type ℓ} (leq : A → A → Bool) (o : IsOrder leq) where
  All-trans :
      (x y : A) (ys : List A)
      → leq x y ≡ true
      → All (λ z. leq y z ≡ true) ys
      → All (λ z. leq x z ≡ true) ys
  All-trans x y [] h a = tt
  All-trans x y (z ∷ zs) h a = (o.trans x y z h a.0, All-trans x y zs h a.1)

  insert_sorted-IsSorted :
      (x : A) (xs : List A) → IsSorted leq xs → IsSorted leq (insert_sorted leq x xs)
  unfolding insert_sorted
  insert_sorted-IsSorted x [] s = (tt, tt)
  insert_sorted-IsSorted x (y ∷ ys) s = elim (Bool-cases (leq x y)) [
    | inl le ↦ rw le ((le, All-trans x y ys le s.0), s)
    | inr gt ↦ rw gt (
      insert_sorted-All leq (λ z. leq y z ≡ true) x ys (o.total x y gt) s.0,
      insert_sorted-IsSorted x ys s.1,
    )
  ]

  pub sort-IsSorted : (xs : List A) → IsSorted leq (sort leq xs)
  unfolding sort
  sort-IsSorted [] = tt
  sort-IsSorted (x ∷ xs) = insert_sorted-IsSorted x (sort leq xs) (sort-IsSorted xs)

-- Two texts in the order of their code points.
abbrev pub text_leq : String → String → Bool
text_leq a b = elim (compare a b) [ Ordering.gt ↦ false | _ ↦ true ]

module _ {ℓ} {A : Type ℓ} ⦃e : Eq A⦄ where
  -- `x in xs`
  unfoldable pub contains : A → List A → Bool
  contains x [] = false
  contains x (y ∷ ys) = y == x || contains x ys

  pub remove : A → List A → List A
  remove x [] = []
  remove x (y ∷ ys) = let rest = remove x ys in if y == x then rest else y ∷ rest

  -- The items of a set, each once.
  unfoldable pub distinct : List A → List A
  unfolding remove
  distinct [] = []
  distinct (x ∷ xs) = x ∷ remove x (distinct xs)
