-- ===== src/Prelude/Dict.antt =====
-- Python's `dict` in insertion order, over keys that can be compared.
use mathlib.Core.Logic.{inr, inl, ◌↔◌}
use mathlib.Core.List.{map, List, [], ◌∷◌}
use Prim.Native.Nat.{ℕ, ◌+◌, ◌≤◌}
use mathlib.Core.Path.{◌≡◌, refl}
use mathlib.Core.Bool.{Bool, true, false}
use mathlib.Core.Option.{Option, none, some}
use native.Mathlib.Omega.{arith}
use selfhosted_runner_swarm.Prelude.Tests.{Bool-cases, ◌==◌, ==_iff, if◌then◌else◌}
use selfhosted_runner_swarm.Prelude.Lists.{In, length}
use selfhosted_runner_swarm.Prelude.Text.{Text, text_eq, text_eq_iff}

-- What a type of keys needs: a test for equality that is right.
pub record Key {ℓ} (K : Type ℓ) : Type ℓ where
  pub same : K → K → Bool
  pub same_iff : (a b : K) → (same a b ≡ true) ↔ (a ≡ b)

instance abbrev pub number_key : Key ℕ
number_key = record { same = ◌==◌; same_iff = ==_iff }

instance abbrev pub text_key : Key Text
text_key = record { same = text_eq; same_iff = text_eq_iff }

abbrev pub Dict {ℓ κ} : Type ℓ → Type κ → Type (ℓ ⊔ κ)
Dict K V = List (K × V)

module _ {ℓ} {K : Type ℓ} ⦃k : Key K⦄ where
  -- `a in xs`
  unfoldable pub member : K → List K → Bool
  member a [] = false
  member a (x ∷ xs) = if k.same x a then true else member a xs

  pub member-map-In {κ} :
      {A : Type κ} (f : A → K) (b : K) (xs : List A)
      → member b (map f xs) ≡ true
      → (a : A) × In a xs × (f a ≡ b)
  unfolding member
  member-map-In f b [] h = cc
  member-map-In {A = A} f b (x ∷ xs) h = by_test (k.same (f x) b) refl h (member-map-In f b xs)
    where
      by_test :
          (t : Bool)
          → k.same (f x) b ≡ t
          → (if t then true else member b (map f xs)) ≡ true
          → (member b (map f xs) ≡ true → (a : A) × In a xs × (f a ≡ b))
          → (a : A) × In a (x ∷ xs) × (f a ≡ b)
      by_test true e q ih = (x, inl refl, (k.same_iff (f x) b).0 e)
      by_test false e q ih = let (a, m, r) = ih q in (a, inr m, r)

  pub In-member-map {κ} :
      {A : Type κ} (f : A → K) (a : A) (xs : List A) → In a xs → member (f a) (map f xs) ≡ true
  unfolding member
  In-member-map f a [] m = elim m [ ]
  In-member-map f a (x ∷ xs) (inl e) = rw (e, (k.same_iff (f a) (f a)).1 refl) refl
  In-member-map f a (x ∷ xs) (inr m) = elim (Bool-cases (k.same (f x) (f a))) [
    | inl e ↦ rw e refl
    | inr e ↦ rw e (In-member-map f a xs m)
  ]

module _ {ℓ κ} {K : Type ℓ} {V : Type κ} ⦃k : Key K⦄ where
  -- `d.get(a)`
  unfoldable pub get : K → Dict K V → Option V
  get a [] = none
  get a ((b, v) ∷ d) = if k.same b a then some v else get a d

  -- `d[a] = v`: an old key keeps its place, a new one goes to the end
  unfoldable pub put : K → V → Dict K V → Dict K V
  put a v [] = (a, v) ∷ []
  put a v ((b, w) ∷ d) = if k.same b a then (b, v) ∷ d else (b, w) ∷ put a v d

  -- `d.pop(a, None)`
  unfoldable pub remove : K → Dict K V → Dict K V
  remove a [] = []
  remove a ((b, w) ∷ d) = if k.same b a then remove a d else (b, w) ∷ remove a d

  -- `a in d`
  unfoldable pub has : K → Dict K V → Bool
  has a [] = false
  has a ((b, v) ∷ d) = if k.same b a then true else has a d

  pub get-put :
      (a b : K) (v : V) (d : Dict K V)
      → get b (put a v d) ≡ (if k.same a b then some v else get b d)
  unfolding get put
  get-put a b v [] = refl
  get-put a b v ((c, w) ∷ d) =
      ground (arith, k.same_iff a b, k.same_iff c a, k.same_iff c b, get-put a b v d)

  pub get-remove :
      (a b : K) (d : Dict K V) → get b (remove a d) ≡ (if k.same a b then none else get b d)
  unfolding get remove
  get-remove a b [] = ground arith
  get-remove a b ((c, w) ∷ d) =
      ground (arith, k.same_iff a b, k.same_iff c a, k.same_iff c b, get-remove a b d)

  pub length-put :
      (a : K) (v : V) (d : Dict K V)
      → length (put a v d) ≡ (if has a d then length d else length d + 1)
  unfolding put has
  length-put a v [] = refl
  length-put a v ((b, w) ∷ d) = ground (arith, length-put a v d)

  pub length-remove-le : (a : K) (d : Dict K V) → length (remove a d) ≤ length d
  unfolding remove
  length-remove-le a [] = omega arith
  length-remove-le a ((b, w) ∷ d) = ground (arith, length-remove-le a d)

  pub length-remove-lt :
      (a : K) (d : Dict K V) → has a d ≡ true → length (remove a d) + 1 ≤ length d
  unfolding remove has
  length-remove-lt a [] h = cc
  length-remove-lt a ((b, w) ∷ d) h = ground (arith, length-remove-lt a d, length-remove-le a d)

pub ruleset dict_laws = (get-put, get-remove)
