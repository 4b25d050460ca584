-- ===== src/Rules/Values/Counts.antt =====
-- Values that are counts, or nothing: what the tests run on.
use enterprise_sales_intelli.Prelude.{
  ℕ, Bool, not, Option, none, some, List, [], ◌∷◌, ◌≡◌, refl, leb, ltb, arith, is_some,
}
use enterprise_sales_intelli.Prelude.Sort.{IsOrder}
use enterprise_sales_intelli.Rules.Values.{Values, IsPython}

abbrev pub compared : (ℕ → ℕ → Bool) → Option ℕ → Option ℕ → Option Bool
compared test none w = none
compared test (some m) none = none
compared test (some m) (some n) = some (test m n)

abbrev pub first_count : List (Option ℕ) → Option ℕ
first_count [] = none
first_count (v ∷ vs) = v

abbrev pub counts : Values (Option ℕ) ℕ
counts = record {
  nothing = none;
  is_true = is_some;
  number = λ v. v;
  as_float = λ v. v;
  leq = leb;
  less = compared ltb;
  at_most = compared leb;
  member = λ v w. none;
  list_of = first_count;
}

leb-IsOrder : IsOrder leb
leb-IsOrder = record { total = λ x y h. ground arith; trans = λ x y z h k. ground arith }

alike :
    (test : ℕ → ℕ → Bool) (v w : Option ℕ) (b : Bool)
    → compared test v w ≡ some b
    → is_some v ≡ is_some w
alike test none w b h = absurd (ground arith)
alike test (some m) none b h = absurd (ground arith)
alike test (some m) (some n) b h = refl

less_counts :
    (v w : Option ℕ) (m n : ℕ) → v ≡ some m → w ≡ some n → compared ltb v w ≡ some (not (leb n m))
less_counts v w m n hv hw = rw (hv, hw) (ground arith)

at_most_counts :
    (v w : Option ℕ) (m n : ℕ) → v ≡ some m → w ≡ some n → compared leb v w ≡ some (leb m n)
at_most_counts v w m n hv hw = rw (hv, hw) refl

pub counts-IsPython : IsPython counts
counts-IsPython = record {
  ordered = leb-IsOrder;
  less_number = less_counts;
  at_most_number = at_most_counts;
  less_alike = alike ltb;
  at_most_alike = alike leb;
}
