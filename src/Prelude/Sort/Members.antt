-- ===== src/Prelude/Sort/Members.antt =====
-- Sorting, and taking each item once, keep what a list contains.
use Prim.Native.String.{String}
use mathlib.Core.Path.{◌≡◌, refl, ap, ◌∙◌}
use mathlib.Core.Bool.{not, ◌&&◌, ◌||◌}
use mathlib.Core.List.{List, [], ◌∷◌, ◌++◌}
use native.Mathlib.Omega.{arith}
use enterprise_sales_intelli.Prelude.Keys.{◌==◌, string_eq}
use enterprise_sales_intelli.Prelude.Sort.{
  sort, insert_sorted, distinct, remove, contains, text_leq,
}

pub contains-append :
    (x : String) (xs ys : List String) → contains x (xs ++ ys) ≡ (contains x xs || contains x ys)
unfolding contains
contains-append x [] ys = refl
contains-append x (z ∷ xs) ys = ground (arith, contains-append x xs ys)

contains-insert_sorted :
    (x y : String) (xs : List String)
    → contains x (insert_sorted text_leq y xs) ≡ (y == x || contains x xs)
unfolding contains insert_sorted
contains-insert_sorted x y [] = refl
contains-insert_sorted x y (z ∷ zs) = ground (arith, contains-insert_sorted x y zs)

pub contains-sort : (x : String) (xs : List String) → contains x (sort text_leq xs) ≡ contains x xs
unfolding contains sort
contains-sort x [] = refl
contains-sort x (y ∷ ys) =
    contains-insert_sorted x y (sort text_leq ys) ∙ ap (λ b. y == x || b) (contains-sort x ys)

contains-remove :
    (x y : String) (xs : List String) → contains x (remove y xs) ≡ (not (y == x) && contains x xs)
unfolding contains remove
contains-remove x y [] = ground arith
contains-remove x y (z ∷ zs) = ground (
  arith,
  contains-remove x y zs,
  string_eq.equals_iff z y,
  string_eq.equals_iff y x,
  string_eq.equals_iff z x,
)

pub contains-distinct : (x : String) (xs : List String) → contains x (distinct xs) ≡ contains x xs
unfolding contains distinct
contains-distinct x [] = refl
contains-distinct x (y ∷ ys) =
    ground (arith, contains-remove x y (distinct ys), contains-distinct x ys)
