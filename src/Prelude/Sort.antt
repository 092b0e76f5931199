-- ===== src/Prelude/Sort.antt =====
-- Python's `sorted`: a stable insertion sort by a test that compares keys, and the order of texts.
use Prim.Native.Nat.{ℕ, suc, ◌+◌}
use mathlib.Core.Path.{◌≡◌, refl, sym, ap, ◌∙◌}
use mathlib.Core.Logic.{◌⊎◌, ◌≢◌, inl, inr}
use mathlib.Core.Bool.{Bool, true, false, ◌&&◌, ◌||◌}
use mathlib.Core.List.{List, [], ◌∷◌}
use native.Mathlib.Omega.{arith}
use selfhosted_runner_swarm.Prelude.Tests.{ltb, ◌==◌, if◌then◌else◌, Bool-cases}
use selfhosted_runner_swarm.Prelude.Lists.{All, In, Distinct, length, sum_by}
use selfhosted_runner_swarm.Prelude.Text.{Text}

-- `s <= t`
unfoldable pub text_leb : Text → Text → Bool
text_leb [] t = true
text_leb (c ∷ s) [] = false
text_leb (c ∷ s) (d ∷ t) = ltb c d || (c == d && text_leb s t)

pub text_leb_total : (s t : Text) → text_leb s t ≡ false → text_leb t s ≡ true
unfolding text_leb
text_leb_total [] t h = cc
text_leb_total (c ∷ s) [] h = refl
text_leb_total (c ∷ s) (d ∷ t) h = ground (arith, text_leb_total s t)

pub text_leb_antisymm : (s t : Text) → text_leb s t ≡ true → text_leb t s ≡ true → s ≡ t
unfolding text_leb
text_leb_antisymm [] [] h k = refl
text_leb_antisymm [] (d ∷ t) h k = cc
text_leb_antisymm (c ∷ s) [] h k = cc
text_leb_antisymm (c ∷ s) (d ∷ t) h k = ground (arith, text_leb_antisymm s t)

pub text_leb_trans :
    (s t u : Text) → text_leb s t ≡ true → text_leb t u ≡ true → text_leb s u ≡ true
unfolding text_leb
text_leb_trans [] t u h k = refl
text_leb_trans (c ∷ s) [] u h k = cc
text_leb_trans (c ∷ s) (d ∷ t) [] h k = cc
text_leb_trans (c ∷ s) (d ∷ t) (e ∷ u) h k = ground (arith, text_leb_trans s t u)

module _ {ℓ} {A : Type ℓ} (before : A → A → Bool) where
  unfoldable pub insert : A → List A → List A
  insert x [] = x ∷ []
  insert x (y ∷ l) = if before x y then x ∷ y ∷ l else y ∷ insert x l

  unfoldable pub sorted : List A → List A
  unfolding insert
  sorted [] = []
  sorted (x ∷ xs) = insert x (sorted xs)

  length-insert : (x : A) (xs : List A) → length (insert x xs) ≡ suc (length xs)
  unfolding insert
  length-insert x [] = refl
  length-insert x (y ∷ xs) = ground (arith, length-insert x xs)

  pub length-sorted : (xs : List A) → length (sorted xs) ≡ length xs
  unfolding sorted
  length-sorted [] = refl
  length-sorted (x ∷ xs) = length-insert x (sorted xs) ∙ ap suc (length-sorted xs)

  sum_by-insert : (f : A → ℕ) (x : A) (xs : List A) → sum_by f (insert x xs) ≡ f x + sum_by f xs
  unfolding insert
  sum_by-insert f x [] = refl
  sum_by-insert f x (y ∷ xs) = ground (arith, sum_by-insert f x xs)

  -- Sorting keeps every sum.
  pub sum_by-sorted : (f : A → ℕ) (xs : List A) → sum_by f (sorted xs) ≡ sum_by f xs
  unfolding sorted
  sum_by-sorted f [] = refl
  sum_by-sorted f (x ∷ xs) = omega (arith, sum_by-insert f x (sorted xs), sum_by-sorted f xs)

  All-insert {κ} : (P : A → Type κ) (x : A) (xs : List A) → P x → All P xs → All P (insert x xs)
  unfolding insert
  All-insert P x [] p h = (p, tt)
  All-insert P x (y ∷ xs) p h = elim (Bool-cases (before x y)) [
    | inl e ↦ rw e (p, h)
    | inr e ↦ rw e (h.0, All-insert P x xs p h.1)
  ]

  -- What holds of every element holds after sorting.
  pub All-sorted {κ} : (P : A → Type κ) (xs : List A) → All P xs → All P (sorted xs)
  unfolding sorted
  All-sorted P [] h = tt
  All-sorted P (x ∷ xs) h = All-insert P x (sorted xs) h.0 (All-sorted P xs h.1)

  Distinct-insert {κ} :
      {B : Type κ} (f : A → B) (x : A) (xs : List A)
      → All (λ y. f x ≢ f y) xs
      → Distinct f xs
      → Distinct f (insert x xs)
  unfolding insert
  Distinct-insert f x [] h d = (tt, tt)
  Distinct-insert f x (y ∷ xs) h d = elim (Bool-cases (before x y)) [
    | inl e ↦ rw e (h, d)
    | inr e ↦
        rw e
          (All-insert (λ z. f y ≢ f z) x xs (λ q. h.0 (sym q)) d.0, Distinct-insert f x xs h.1 d.1)
  ]

  pub Distinct-sorted {κ} :
      {B : Type κ} (f : A → B) (xs : List A) → Distinct f xs → Distinct f (sorted xs)
  unfolding sorted
  Distinct-sorted f [] d = tt
  Distinct-sorted f (x ∷ xs) d =
      Distinct-insert f x (sorted xs) (All-sorted (λ y. f x ≢ f y) xs d.0)
        (Distinct-sorted f xs d.1)

  In-insert : (a x : A) (xs : List A) → (x ≡ a) ⊎ In a xs → In a (insert x xs)
  unfolding insert
  In-insert a x [] m = m
  In-insert a x (y ∷ xs) m = elim (Bool-cases (before x y)) [
    | inl e ↦ rw e m
    | inr e ↦ rw e (elim m [
      | inl here ↦ inr (In-insert a x xs (inl here))
      | inr (inl next) ↦ inl next
      | inr (inr later) ↦ inr (In-insert a x xs (inr later))
    ])
  ]

  pub In-sorted : (a : A) (xs : List A) → In a xs → In a (sorted xs)
  unfolding sorted
  In-sorted a [] m = elim m [ ]
  In-sorted a (x ∷ xs) (inl e) = In-insert a x (sorted xs) (inl e)
  In-sorted a (x ∷ xs) (inr m) = In-insert a x (sorted xs) (inr (In-sorted a xs m))
