-- ===== src/Prelude/Text.antt =====
-- Texts as lists of code points, with the `str` methods that the program uses. `lower` and the
-- character classes are those of ASCII.
pub mod Clean
pub mod Parts
use Prim.Native.Char.{code}
use Prim.Native.Nat.{ℕ, zero, suc, ◌+◌, ◌-◌, ◌*◌, ◌/◌, ◌%◌, ◌≤◌}
use Prim.Native.String.{String}
use mathlib.Core.Path.{◌≡◌, refl, ap₂}
use mathlib.Core.Logic.{◌↔◌, ◌≢◌, inl, inr}
use mathlib.Core.Bool.{Bool, true, false, ◌&&◌, ◌||◌}
use mathlib.Core.List.{List, [], ◌∷◌, ◌++◌, map, reverse}
use native.Mathlib.Omega.{arith}
use selfhosted_runner_swarm.Prelude.Tests.{leb, ◌==◌, Bool-cases, if◌then◌else◌}
use selfhosted_runner_swarm.Prelude.Lists.{all}

abbrev pub Text : Type 0
Text = List ℕ

-- The code points of a literal.
abbrev pub codes : String → Text
codes String.[] = []
codes (String.◌∷◌ c s) = code c ∷ codes s

unfoldable pub text_eq : Text → Text → Bool
text_eq [] [] = true
text_eq [] (d ∷ t) = false
text_eq (c ∷ s) [] = false
text_eq (c ∷ s) (d ∷ t) = c == d && text_eq s t

text_eq→eq : (s t : Text) → text_eq s t ≡ true → s ≡ t
unfolding text_eq
text_eq→eq [] [] h = refl
text_eq→eq [] (d ∷ t) h = cc
text_eq→eq (c ∷ s) [] h = cc
text_eq→eq (c ∷ s) (d ∷ t) h = ground (arith, text_eq→eq s t)

pub text_eq_refl : (s : Text) → text_eq s s ≡ true
unfolding text_eq
text_eq_refl [] = refl
text_eq_refl (c ∷ s) = ground (arith, text_eq_refl s)

pub text_eq_iff : (s t : Text) → (text_eq s t ≡ true) ↔ (s ≡ t)
text_eq_iff s t = (text_eq→eq s t, λ e. rw e (text_eq_refl t))

-- The truth value of a text: whether it has a character.
abbrev pub truthy : Text → Bool
truthy [] = false
truthy (c ∷ s) = true

-- `s.startswith(t)`
unfoldable pub starts_with : Text → Text → Bool
starts_with s [] = true
starts_with [] (d ∷ t) = false
starts_with (c ∷ s) (d ∷ t) = c == d && starts_with s t

pub starts_with-append : (t s : Text) → starts_with (t ++ s) t ≡ true
unfolding starts_with
starts_with-append [] s = refl
starts_with-append (c ∷ t) s = ground (arith, starts_with-append t s)

-- `t in s`
unfoldable pub contains : Text → Text → Bool
contains [] t = starts_with [] t
contains (c ∷ s) t = starts_with (c ∷ s) t || contains s t

unfoldable pub lower_char : ℕ → ℕ
lower_char c = if leb b'A' c && leb c b'Z' then c + 32 else c

-- `s.lower()`
unfoldable pub lower : Text → Text
unfolding lower_char
lower s = map lower_char s

lower_char_idem : (c : ℕ) → lower_char (lower_char c) ≡ lower_char c
unfolding lower_char
lower_char_idem c = ground arith

pub lower_idem : (s : Text) → lower (lower s) ≡ lower s
unfolding lower
lower_idem [] = refl
lower_idem (c ∷ s) = ap₂ ◌∷◌ (lower_char_idem c) (lower_idem s)

abbrev pub is_space : ℕ → Bool
is_space c = c == 32 || (leb 9 c && leb c 13)

unfoldable pub lstrip : Text → Text
lstrip [] = []
lstrip (c ∷ s) = if is_space c then lstrip s else c ∷ s

-- `s.strip()`
unfoldable pub strip : Text → Text
unfolding lstrip
strip s = reverse (lstrip (reverse (lstrip s)))

-- The piece being read, reversed, and the pieces after it.
unfoldable pub split_from : ℕ → Text → Text → List Text
split_from sep piece [] = reverse piece ∷ []
split_from sep piece (c ∷ s) =
    let piece_ends = split_from sep [] s in
    let piece_goes_on = split_from sep (c ∷ piece) s in
    if c == sep then reverse piece ∷ piece_ends else piece_goes_on

-- `s.split(sep)` at one character
unfoldable pub split : ℕ → Text → List Text
unfolding split_from
split sep s = split_from sep [] s

-- `sep.join(parts)`
unfoldable pub join : Text → List Text → Text
join sep [] = []
join sep (s ∷ []) = s
join sep (s ∷ t ∷ rest) = s ++ (sep ++ join sep (t ∷ rest))

-- `s.replace(a, b)` at one character each
unfoldable pub replace_char : ℕ → ℕ → Text → Text
replace_char a b s = map (λ c. if c == a then b else c) s

abbrev pub is_digit : ℕ → Bool
is_digit c = leb b'0' c && leb c b'9'

-- `s.isdigit()`
unfoldable pub all_digits : Text → Bool
all_digits [] = false
all_digits (c ∷ s) = all is_digit (c ∷ s)

-- The value of decimal digits, most significant first.
unfoldable pub digits_value : ℕ → Text → ℕ
digits_value acc [] = acc
digits_value acc (c ∷ s) = digits_value (acc * 10 + (c - b'0')) s

-- `text == "literal"`
abbrev pub is : Text → String → Bool
is s literal = text_eq s (codes literal)

show_from : ℕ → ℕ → Text
show_from zero n = []
show_from (suc fuel) n =
    let more = show_from fuel (n / 10) ++ (n % 10 + b'0') ∷ [] in
    if leb n 9 then (n + b'0') ∷ [] else more

-- `str(n)`: the quotient falls below 10 within n rounds.
unfoldable pub show : ℕ → Text
unfolding show_from
show n = show_from (suc n) n

digits_value-append :
    (acc : ℕ) (s : Text) (c : ℕ)
    → digits_value acc (s ++ c ∷ []) ≡ digits_value acc s * 10 + (c - b'0')
unfolding digits_value
digits_value-append acc [] c = refl
digits_value-append acc (d ∷ s) c = digits_value-append (acc * 10 + (d - b'0')) s c

digits_value-show_from : (fuel n : ℕ) → suc n ≤ fuel → digits_value 0 (show_from fuel n) ≡ n
unfolding show_from digits_value
digits_value-show_from zero n h = absurd (omega arith)
digits_value-show_from (suc fuel) n h = elim (Bool-cases (leb n 9)) [
  | inl small ↦ rw small (omega arith)
  | inr big ↦
      rw (big, digits_value-append 0 (show_from fuel (n / 10)) (n % 10 + b'0'))
        (ground (arith, digits_value-show_from fuel (n / 10)))
]

-- Printing a number and reading its digits gives it back.
pub digits_value-show : (n : ℕ) → digits_value 0 (show n) ≡ n
unfolding show
digits_value-show n = digits_value-show_from (suc n) n (omega arith)

pub all-append {ℓ} :
    {A : Type ℓ} (p : A → Bool) (xs ys : List A) → all p (xs ++ ys) ≡ (all p xs && all p ys)
all-append p [] ys = refl
all-append p (x ∷ xs) ys = ground (arith, all-append p xs ys)

all_digits-show_from : (fuel n : ℕ) → all is_digit (show_from fuel n) ≡ true
unfolding show_from
all_digits-show_from zero n = refl
all_digits-show_from (suc fuel) n = ground (
  arith,
  all-append is_digit (show_from fuel (n / 10)) ((n % 10 + b'0') ∷ []),
  all_digits-show_from fuel (n / 10),
)

-- A printed number is made of digits.
pub all-show : (n : ℕ) → all is_digit (show n) ≡ true
unfolding show
all-show n = all_digits-show_from (suc n) n

snoc-ne-nil : (s : Text) (c : ℕ) → s ++ c ∷ [] ≢ []
snoc-ne-nil [] c h = cc
snoc-ne-nil (d ∷ s) c h = cc

-- A printed number has a digit.
pub show-ne-nil : (n : ℕ) → show n ≢ []
unfolding show show_from
show-ne-nil n = ground (arith, snoc-ne-nil (show_from n (n / 10)) (n % 10 + b'0'))
