-- ===== src/Prelude/Sort/TextOrder.antt =====
-- The order of texts is total and transitive.
use Prim.Native.String.compare
use Prim.Native.String.{String}
use mathlib.Core.Path.{◌≡◌, refl}
use mathlib.Core.Bool.{true, false}
use native.Mathlib.Omega.{arith}
use enterprise_sales_intelli.Prelude.Sort.{text_leq, IsOrder}

leq_total : (s t : String) → text_leq s t ≡ false → text_leq t s ≡ true
leq_total String.[] String.[] h = refl
leq_total String.[] (String.◌∷◌ d t) h = ground (arith, compare.nil-cons d t)
leq_total (String.◌∷◌ c s) String.[] h = ground (arith, compare.nil-cons c s)
leq_total (String.◌∷◌ c s) (String.◌∷◌ d t) h =
    ground (arith, compare.cons-cons c d s t, compare.cons-cons d c t s, leq_total s t)

leq_trans : (s t u : String) → text_leq s t ≡ true → text_leq t u ≡ true → text_leq s u ≡ true
leq_trans String.[] t String.[] h k = refl
leq_trans String.[] t (String.◌∷◌ e u) h k = ground (arith, compare.nil-cons e u)
leq_trans (String.◌∷◌ c s) String.[] u h k = absurd (ground (arith, compare.cons-nil c s))
leq_trans (String.◌∷◌ c s) (String.◌∷◌ d t) String.[] h k =
    absurd (ground (arith, compare.cons-nil d t))
leq_trans (String.◌∷◌ c s) (String.◌∷◌ d t) (String.◌∷◌ e u) h k = ground (
  arith,
  compare.cons-cons c d s t,
  compare.cons-cons d e t u,
  compare.cons-cons c e s u,
  leq_trans s t u,
)

pub text_leq-IsOrder : IsOrder text_leq
text_leq-IsOrder = record { total = leq_total; trans = leq_trans }
