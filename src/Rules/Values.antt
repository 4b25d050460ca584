-- ===== src/Rules/Values.antt =====
-- The values of rules and of enterprises, which the source leaves to `Any`: what it asks of them,
-- and what Python promises about the answers.
pub mod Counts
use enterprise_sales_intelli.Prelude.{Bool, not, Option, some, ◌≡◌, is_some, List}
use enterprise_sales_intelli.Prelude.Sort.{IsOrder}

-- `N` is the type of the numbers that the values may be; a comparison that raises is nothing.
pub record Values (V N : Type 0) : Type 0 where
  pub nothing : V
  -- Whether `bool(value)` is true.
  pub is_true : V → Bool
  -- The number that an int or a float is.
  pub number : V → Option N
  -- `float(value)`
  pub as_float : V → Option N
  pub leq : N → N → Bool
  -- `a < b`, `a <= b` and `a in b`
  pub less : V → V → Option Bool
  pub at_most : V → V → Option Bool
  pub member : V → V → Option Bool
  -- A list of values as a value, and the list that a value is.
  pub list_of : List V → V

module _ {V N : Type 0} where
  -- A number that `float` neither rounds nor refuses.
  abbrev pub IsExact : Values V N → V → Type 0
  IsExact p v = (n : N) → p.number v ≡ some n → p.as_float v ≡ some n

  -- Python's rules: numbers are ordered, and they compare with numbers alone. Nothing is said of
  -- `float`, which rounds large numbers or raises.
  pub record IsPython (p : Values V N) : Type 0 where
    pub ordered : IsOrder p.leq
    pub less_number :
        (v w : V) (m n : N)
        → p.number v ≡ some m
        → p.number w ≡ some n
        → p.less v w ≡ some (not (p.leq n m))
    pub at_most_number :
        (v w : V) (m n : N)
        → p.number v ≡ some m
        → p.number w ≡ some n
        → p.at_most v w ≡ some (p.leq m n)
    pub less_alike :
        (v w : V) (b : Bool) → p.less v w ≡ some b → is_some (p.number v) ≡ is_some (p.number w)
    pub at_most_alike :
        (v w : V) (b : Bool) → p.at_most v w ≡ some b → is_some (p.number v) ≡ is_some (p.number w)
