-- ===== src/Forge/Scan/Runs.antt =====
-- Lists of runs of which some were seen.
use mathlib.Core.List.{append_assoc}
use selfhosted_runner_swarm.Prelude.{
  ℕ, ◌≡◌, inl, inr, refl, sym, ap, ◌∙◌, Bool, not, ◌&&◌, List, [], ◌∷◌, ◌++◌, if◌then◌else◌, keep,
  concat_map, ◌==◌, ==_iff, Bool-cases, arith,
}
use selfhosted_runner_swarm.Prelude.Dict.{member, number_key}
use selfhosted_runner_swarm.Forge.Payload.{Run}

-- The runs, each at the first place where its number stands.
unfoldable pub distinct : List Run → List Run
distinct [] = []
distinct (r ∷ rs) = r ∷ keep (λ q. not (q.id == r.id)) (distinct rs)

-- The runs whose number is not among those given, each once.
unfoldable pub unseen : List ℕ → List Run → List Run
unfolding member
unseen ids [] = []
unseen ids (r ∷ rs) =
    let fresh = r ∷ unseen (r.id ∷ ids) rs in if member r.id ids then unseen ids rs else fresh

unfoldable pub marked : List Run → List ℕ → List ℕ
marked [] ids = ids
marked (r ∷ rs) ids = marked rs (r.id ∷ ids)

keep-keep {ℓ} :
    {A : Type ℓ} (p q : A → Bool) (xs : List A) → keep p (keep q xs) ≡ keep (λ x. q x && p x) xs
keep-keep p q [] = refl
keep-keep p q (x ∷ xs) = ground (arith, keep-keep p q xs)

keep_ext {ℓ} :
    {A : Type ℓ} (p q : A → Bool) (xs : List A) → ((x : A) → p x ≡ q x) → keep p xs ≡ keep q xs
keep_ext p q [] h = refl
keep_ext p q (x ∷ xs) h = rw (h x, keep_ext p q xs h)

pub unseen-distinct :
    (ids : List ℕ) (rs : List Run) → unseen ids rs ≡ keep (λ r. not (member r.id ids)) (distinct rs)
unfolding unseen distinct member
unseen-distinct ids [] = refl
unseen-distinct ids (r ∷ rs) =
    let p = λ (q : Run). not (member q.id ids) in
    let other = λ (q : Run). not (q.id == r.id) in
    elim (Bool-cases (member r.id ids)) [
      | inl e ↦ rw e (
          unseen-distinct ids rs
          ∙ sym (
              keep-keep p other (distinct rs)
              ∙ keep_ext _ p (distinct rs) (λ q. ground (arith, ==_iff q.id r.id, e))))
      | inr e ↦ rw e (
          ap (◌∷◌ r) (
            unseen-distinct (r.id ∷ ids) rs
            ∙ sym (
                keep-keep p other (distinct rs)
                ∙ keep_ext _ (λ q. not (member q.id (r.id ∷ ids))) (distinct rs)
                    (λ q. ground (arith, ==_iff q.id r.id, ==_iff r.id q.id)))))
    ]

pub unseen_nil : (rs : List Run) → unseen [] rs ≡ distinct rs
unfolding member
unseen_nil rs = unseen-distinct [] rs ∙ keep_all (distinct rs)
  where
    keep_all : (xs : List Run) → keep (λ r. not (member r.id [])) xs ≡ xs
    keep_all [] = refl
    keep_all (x ∷ xs) = ap (◌∷◌ x) (keep_all xs)

pub unseen-append :
    (ids : List ℕ) (us vs : List Run)
    → unseen ids (us ++ vs) ≡ unseen ids us ++ unseen (marked (unseen ids us) ids) vs
unfolding unseen marked
unseen-append ids [] vs = refl
unseen-append ids (a ∷ us) vs = elim (Bool-cases (member a.id ids)) [
  | inl e ↦ rw e (unseen-append ids us vs)
  | inr e ↦ rw e (rw (unseen-append (a.id ∷ ids) us vs) refl)
]

pub marked-append :
    (us vs : List Run) (ids : List ℕ) → marked (us ++ vs) ids ≡ marked vs (marked us ids)
unfolding marked
marked-append [] vs ids = refl
marked-append (a ∷ us) vs ids = marked-append us vs (a.id ∷ ids)

pub concat_map-append {ℓ κ} :
    {A : Type ℓ} {B : Type κ} (f : A → List B) (xs ys : List A)
    → concat_map f (xs ++ ys) ≡ concat_map f xs ++ concat_map f ys
concat_map-append f [] ys = refl
concat_map-append f (x ∷ xs) ys = rw (concat_map-append f xs ys, append_assoc)
