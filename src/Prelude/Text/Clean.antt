-- ===== src/Prelude/Text/Clean.antt =====
-- Texts without white space, which `strip` leaves alone, and texts of digits.
use mathlib.Core.List.{reverse, reverse-cons, reverse-reverse, map-append, [], ◌∷◌, ◌++◌}
use Prim.Native.Nat.{ℕ}
use mathlib.Core.Path.{◌≡◌, refl, ap₂, ◌∙◌}
use mathlib.Core.Bool.{Bool, true, not, ◌&&◌}
use native.Mathlib.Omega.{arith}
use selfhosted_runner_swarm.Prelude.Lists.{all}
use selfhosted_runner_swarm.Prelude.Text.{
  Text, lower_char, lower, is_space, is_digit, lstrip, strip, all-append,
}

abbrev pub solid : ℕ → Bool
solid c = not (is_space c)

lstrip-solid : (s : Text) → all solid s ≡ true → lstrip s ≡ s
unfolding lstrip
lstrip-solid [] h = refl
lstrip-solid (c ∷ s) h = ground arith

all-reverse : (s : Text) → all solid (reverse s) ≡ all solid s
all-reverse [] = refl
all-reverse (c ∷ s) =
    rw (reverse-cons c s) (ground (arith, all-append solid (reverse s) (c ∷ []), all-reverse s))

pub strip-solid : (s : Text) → all solid s ≡ true → strip s ≡ s
unfolding strip
strip-solid s h =
    rw (lstrip-solid s h, lstrip-solid (reverse s) (all-reverse s ∙ h)) (reverse-reverse s)

solid-lower_char : (c : ℕ) → solid (lower_char c) ≡ solid c
unfolding lower_char
solid-lower_char c = ground arith

pub all-lower : (s : Text) → all solid (lower s) ≡ all solid s
unfolding lower
all-lower [] = refl
all-lower (c ∷ s) = ap₂ ◌&&◌ (solid-lower_char c) (all-lower s)

pub solid_of_digits : (s : Text) → all is_digit s ≡ true → all solid s ≡ true
solid_of_digits [] h = refl
solid_of_digits (c ∷ s) h = ground (arith, solid_of_digits s)

lower_char_digit : (c : ℕ) → is_digit c ≡ true → lower_char c ≡ c
unfolding lower_char
lower_char_digit c h = ground arith

pub lower_digits : (s : Text) → all is_digit s ≡ true → lower s ≡ s
unfolding lower
lower_digits [] h = refl
lower_digits (c ∷ s) h = ap₂ ◌∷◌ (lower_char_digit c (ground arith)) (lower_digits s (ground arith))

pub lower-append : (s t : Text) → lower (s ++ t) ≡ lower s ++ lower t
unfolding lower
lower-append s t = map-append lower_char s t
