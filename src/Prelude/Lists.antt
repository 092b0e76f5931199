-- ===== src/Prelude/Lists.antt =====
-- Lists measured, searched and filtered by Boolean tests, over the native numbers.
use Prim.Native.Nat.{ℕ, zero, suc, ◌+◌, ◌≤◌}
use mathlib.Core.Path.{◌≡◌, refl, ap, subst}
use mathlib.Core.Logic.{◌⊎◌, ◌≢◌, inl, inr}
use mathlib.Core.Bool.{Bool, true, false, ◌&&◌, ◌||◌}
use mathlib.Core.List.{List, [], ◌∷◌, ◌++◌, map}
use native.Mathlib.Omega.{arith}
use selfhosted_runner_swarm.Prelude.Tests.{if◌then◌else◌}

-- Every element satisfies the predicate.
abbrev pub All {ℓ κ} : {A : Type ℓ} → (A → Type κ) → List A → Type κ
All P [] = Unit
All P (x ∷ xs) = P x × All P xs

-- No value, at every level.
pub data Empty {ℓ} : Type ℓ where

-- The element stands in the list.
abbrev pub In {ℓ} : {A : Type ℓ} → A → List A → Type ℓ
In a [] = Empty
In a (x ∷ xs) = (x ≡ a) ⊎ In a xs

module _ {ℓ} {A : Type ℓ} where
  abbrev pub length : List A → ℕ
  length [] = 0
  length (x ∷ xs) = suc (length xs)

  abbrev pub keep : (A → Bool) → List A → List A
  keep p [] = []
  keep p (x ∷ xs) = if p x then x ∷ keep p xs else keep p xs

  -- `any(p(x) for x in xs)`
  abbrev pub any : (A → Bool) → List A → Bool
  any p [] = false
  any p (x ∷ xs) = p x || any p xs

  -- `all(p(x) for x in xs)`
  abbrev pub all : (A → Bool) → List A → Bool
  all p [] = true
  all p (x ∷ xs) = p x && all p xs

  -- `sum(f(x) for x in xs)`
  abbrev pub sum_by : (A → ℕ) → List A → ℕ
  sum_by f [] = 0
  sum_by f (x ∷ xs) = f x + sum_by f xs

  -- `sum(1 for x in xs if p(x))`
  abbrev pub count_if : (A → Bool) → List A → ℕ
  count_if p [] = 0
  count_if p (x ∷ xs) = if p x then suc (count_if p xs) else count_if p xs

  abbrev pub replicate : ℕ → A → List A
  replicate zero a = []
  replicate (suc n) a = a ∷ replicate n a

  abbrev pub take : ℕ → List A → List A
  take zero xs = []
  take (suc n) [] = []
  take (suc n) (x ∷ xs) = x ∷ take n xs

  abbrev pub drop : ℕ → List A → List A
  drop zero xs = xs
  drop (suc n) [] = []
  drop (suc n) (x ∷ xs) = drop n xs

  pub length-append : (xs ys : List A) → length (xs ++ ys) ≡ length xs + length ys
  length-append [] ys = omega arith
  length-append (x ∷ xs) ys = omega (arith, length-append xs ys)

  pub length-replicate : (n : ℕ) (a : A) → length (replicate n a) ≡ n
  length-replicate zero a = refl
  length-replicate (suc n) a = ap suc (length-replicate n a)

  pub length-keep-le : (p : A → Bool) (xs : List A) → length (keep p xs) ≤ length xs
  length-keep-le p [] = omega arith
  length-keep-le p (x ∷ xs) = ground (arith, length-keep-le p xs)

  -- What `keep` keeps passes the test.
  pub All-keep : (p : A → Bool) (xs : List A) → All (λ x. p x ≡ true) (keep p xs)
  All-keep p [] = tt
  All-keep p (x ∷ xs) = ground (arith, All-keep p xs)

  pub any-append : (p : A → Bool) (xs ys : List A) → any p (xs ++ ys) ≡ (any p xs || any p ys)
  any-append p [] ys = refl
  any-append p (x ∷ xs) ys = ground (arith, any-append p xs ys)

  pub sum_by-append : (f : A → ℕ) (xs ys : List A) → sum_by f (xs ++ ys) ≡ sum_by f xs + sum_by f ys
  sum_by-append f [] ys = omega arith
  sum_by-append f (x ∷ xs) ys = omega (arith, sum_by-append f xs ys)

-- What holds of every element holds of one that stands in the list.
pub All-In {ℓ κ} : {A : Type ℓ} (P : A → Type κ) (a : A) (xs : List A) → All P xs → In a xs → P a
All-In P a [] h m = elim m [ ]
All-In P a (x ∷ xs) h (inl e) = subst P e h.0
All-In P a (x ∷ xs) h (inr m) = All-In P a xs h.1 m

module _ {ℓ κ} {A : Type ℓ} {B : Type κ} where
  pub length-map : (xs : List A) (f : A → B) → length (map f xs) ≡ length xs
  length-map [] f = refl
  length-map (x ∷ xs) f = ap suc (length-map xs f)

  -- `[y for x in xs for y in f(x)]`
  abbrev pub concat_map : (A → List B) → List A → List B
  concat_map f [] = []
  concat_map f (x ∷ xs) = f x ++ concat_map f xs

  pub length-concat_map :
      (f : A → List B) (xs : List A) → length (concat_map f xs) ≡ sum_by (λ x. length (f x)) xs
  length-concat_map f [] = refl
  length-concat_map f (x ∷ xs) =
      omega (arith, length-append (f x) (concat_map f xs), length-concat_map f xs)

module _ {ℓ} {A : Type ℓ} where
  pub sum_by-eq : (f g : A → ℕ) (xs : List A) → All (λ x. f x ≡ g x) xs → sum_by f xs ≡ sum_by g xs
  sum_by-eq f g [] h = refl
  sum_by-eq f g (x ∷ xs) h = omega (arith, h.0, sum_by-eq f g xs h.1)

  pub sum_by-le : (f g : A → ℕ) (xs : List A) → All (λ x. f x ≤ g x) xs → sum_by f xs ≤ sum_by g xs
  sum_by-le f g [] h = omega arith
  sum_by-le f g (x ∷ xs) h = omega (arith, h.0, sum_by-le f g xs h.1)

  pub All-mono {κ μ} :
      (P : A → Type κ) (Q : A → Type μ)
      → ((x : A) → P x → Q x)
      → (xs : List A) → All P xs
      → All Q xs
  All-mono P Q f [] h = tt
  All-mono P Q f (x ∷ xs) h = (f x h.0, All-mono P Q f xs h.1)

  pub All-both {κ μ} :
      (P : A → Type κ) (Q : A → Type μ) (xs : List A)
      → All P xs
      → All Q xs
      → All (λ x. P x × Q x) xs
  All-both P Q [] h k = tt
  All-both P Q (x ∷ xs) h k = ((h.0, k.0), All-both P Q xs h.1 k.1)

pub All-append {ℓ κ} :
    {A : Type ℓ} (P : A → Type κ) (xs ys : List A) → All P xs → All P ys → All P (xs ++ ys)
All-append P [] ys h k = k
All-append P (x ∷ xs) ys h k = (h.0, All-append P xs ys h.1 k)

pub All-map {ℓ κ μ} :
    {A : Type ℓ} {B : Type κ} (P : B → Type μ) (f : A → B) (xs : List A)
    → All (λ x. P (f x)) xs
    → All P (map f xs)
All-map P f [] h = tt
All-map P f (x ∷ xs) h = (h.0, All-map P f xs h.1)

-- The keys of the elements differ.
abbrev pub Distinct {ℓ κ} : {A : Type ℓ} {B : Type κ} → (A → B) → List A → Type κ
Distinct f [] = Unit
Distinct f (x ∷ xs) = All (λ y. f x ≢ f y) xs × Distinct f xs

-- Where the values of a mapped, filtered or tested list come from.
module _ {ℓ} {A : Type ℓ} (p : A → Bool) where
  pub In-keep : (a : A) (xs : List A) → In a (keep p xs) → In a xs × (p a ≡ true)
  In-keep a [] m = elim m [ ]
  In-keep a (x ∷ xs) m = by_test (p x) refl (In-keep a xs) m
    where
      by_test :
          (b : Bool)
          → p x ≡ b
          → (In a (keep p xs) → In a xs × (p a ≡ true))
          → In a (if b then x ∷ keep p xs else keep p xs)
          → In a (x ∷ xs) × (p a ≡ true)
      by_test true e ih (inl q) = (inl q, subst (λ y. p y ≡ true) q e)
      by_test true e ih (inr n) = (inr (ih n).0, (ih n).1)
      by_test false e ih n = (inr (ih n).0, (ih n).1)

  pub any-In : (xs : List A) → any p xs ≡ true → (a : A) × In a xs × (p a ≡ true)
  any-In [] h = cc
  any-In (x ∷ xs) h = by_test (p x) refl h (any-In xs)
    where
      by_test :
          (b : Bool)
          → p x ≡ b
          → (b || any p xs) ≡ true
          → (any p xs ≡ true → (a : A) × In a xs × (p a ≡ true))
          → (a : A) × In a (x ∷ xs) × (p a ≡ true)
      by_test true e k ih = (x, inl refl, e)
      by_test false e k ih = let (a, m, q) = ih k in (a, inr m, q)
