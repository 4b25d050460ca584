-- ===== src/Prelude/Texts.antt =====
-- Python's `str.strip` without arguments, over the code points that `str.isspace` takes.
use Prim.Native.Char.{Char, code}
use Prim.Native.String.{String}
use mathlib.Core.Path.{◌≡◌, refl, ap, ◌∙◌}
use mathlib.Core.Bool.{Bool, true, false, ◌&&◌, ◌||◌}
use mathlib.Core.Logic.{inl, inr}
use enterprise_sales_intelli.Prelude.Tests.{leb, eqb, if◌then◌else◌, Bool-cases}

unfoldable pub is_space : Char → Bool
is_space c =
    let n = code c in
    leb 9 n && leb n 13
    || leb 28 n && leb n 32
    || eqb n 133
    || eqb n 160
    || eqb n 5760
    || leb 8192 n && leb n 8202
    || eqb n 8232
    || eqb n 8233
    || eqb n 8239
    || eqb n 8287
    || eqb n 12288

abbrev pub is_blank : String → Bool
is_blank String.[] = true
is_blank (String.◌∷◌ c s) = false

unfoldable pub strip_left : String → String
strip_left String.[] = String.[]
strip_left (String.◌∷◌ c s) = let rest = strip_left s in if is_space c then rest else String.◌∷◌ c s

unfoldable pub strip_right : String → String
strip_right String.[] = String.[]
strip_right (String.◌∷◌ c s) =
    let rest = strip_right s in if is_space c && is_blank rest then String.[] else String.◌∷◌ c rest

unfoldable pub strip : String → String
strip s = strip_right (strip_left s)

-- A text that does not begin with a space.
abbrev IsTight : String → Type 0
IsTight String.[] = Unit
IsTight (String.◌∷◌ c s) = is_space c ≡ false

strip_left-IsTight : (s : String) → IsTight (strip_left s)
unfolding strip_left
strip_left-IsTight String.[] = tt
strip_left-IsTight (String.◌∷◌ c s) = elim (Bool-cases (is_space c)) [
  | inl space ↦ rw (space, strip_left) (strip_left-IsTight s)
  | inr ink ↦ rw (ink, strip_left, IsTight) ink
]

strip_left-of_IsTight : (s : String) → IsTight s → strip_left s ≡ s
unfolding strip_left
strip_left-of_IsTight String.[] h = refl
strip_left-of_IsTight (String.◌∷◌ c s) h = rw h refl

strip_right-IsTight : (s : String) → IsTight s → IsTight (strip_right s)
unfolding strip_right
strip_right-IsTight String.[] h = tt
strip_right-IsTight (String.◌∷◌ c s) h = rw (h, strip_right) h

strip_right-strip_right : (s : String) → strip_right (strip_right s) ≡ strip_right s
unfolding strip_right
strip_right-strip_right String.[] = refl
strip_right-strip_right (String.◌∷◌ c s) =
    elim (Bool-cases (is_space c && is_blank (strip_right s))) [
      | inl gone ↦ rw gone refl
      | inr kept ↦ rw (kept, strip_right-strip_right s, kept) refl
    ]

pub strip-strip : (s : String) → strip (strip s) ≡ strip s
unfolding strip
strip-strip s =
    let tight = strip_right-IsTight (strip_left s) (strip_left-IsTight s) in
    ap strip_right (strip_left-of_IsTight (strip_right (strip_left s)) tight)
    ∙ strip_right-strip_right (strip_left s)
