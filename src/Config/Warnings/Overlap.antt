-- ===== src/Config/Warnings/Overlap.antt =====
-- Which containers two pools can both take for their own.
use selfhosted_runner_swarm.Prelude.{
  true, false, List, [], ◌∷◌, ◌++◌, ◌≡◌, ◌⊎◌, inl, inr, refl, arith, if◌then◌else◌, concat_map, In,
  subst,
}
use selfhosted_runner_swarm.Prelude.Text.{Text, codes, text_eq_iff, starts_with}
use selfhosted_runner_swarm.Prelude.Dict.{member, text_key}
use selfhosted_runner_swarm.Config.{PoolConfig, container_prefix}
use selfhosted_runner_swarm.Config.Warnings.{
  overlaps, tmpfs_warning, warnings_from, validation_warnings, defined_twice,
}

-- A pool takes a container for its own when its prefix and a dash begin the name
-- (`running_containers` and `_inspect_pool`).
abbrev pub Claims : PoolConfig → Text → Type 0
Claims p container = starts_with container (container_prefix p ++ codes "-") ≡ true

-- Of two beginnings of one text, one begins the other.
prefixes_compare :
    (c s t : Text)
    → starts_with c s ≡ true
    → starts_with c t ≡ true
    → (starts_with s t ≡ true) ⊎ (starts_with t s ≡ true)
unfolding starts_with
prefixes_compare c [] t h k = inr refl
prefixes_compare [] (x ∷ s) t h k = cc
prefixes_compare (y ∷ c) (x ∷ s) [] h k = inl refl
prefixes_compare (y ∷ c) (x ∷ s) (z ∷ t) h k = ground (arith, prefixes_compare c s t)

dash_ends : (t : Text) → starts_with [] (t ++ codes "-") ≡ false
unfolding starts_with
dash_ends [] = refl
dash_ends (c ∷ t) = refl

drop_dash :
    (s t : Text)
    → starts_with (s ++ codes "-") (t ++ codes "-") ≡ true
    → (s ≡ t) ⊎ (starts_with s (t ++ codes "-") ≡ true)
unfolding starts_with
drop_dash [] [] h = inl refl
drop_dash [] (x ∷ t) h = ground (arith, dash_ends t)
drop_dash (y ∷ s) [] h = ground arith
drop_dash (y ∷ s) (x ∷ t) h = ground (arith, drop_dash s t)

append-nil_both : {A : Type 0} (xs ys : List A) → xs ++ ys ≡ [] → (xs ≡ []) × (ys ≡ [])
append-nil_both [] ys h = (refl, h)
append-nil_both (x ∷ xs) ys h = cc

concat_map-nil :
    {A B : Type 0} (f : A → List B) (xs : List A) (x : A)
    → concat_map f xs ≡ []
    → In x xs
    → f x ≡ []
concat_map-nil f [] x h m = elim m [ ]
concat_map-nil f (y ∷ xs) x h (inl e) =
    subst (λ z. f z ≡ []) e (append-nil_both (f y) (concat_map f xs) h).0
concat_map-nil f (y ∷ xs) x h (inr m) =
    concat_map-nil f xs x (append-nil_both (f y) (concat_map f xs) h).1 m

warnings_from-overlaps :
    (pools : List PoolConfig) (seen : List Text) (rest : List PoolConfig) (p q : PoolConfig)
    → warnings_from pools seen rest ≡ []
    → In p rest
    → In q pools
    → overlaps p q ≡ []
unfolding warnings_from
warnings_from-overlaps pools seen [] p q h m n = elim m [ ]
warnings_from-overlaps pools seen (r ∷ rest) p q h m n =
    let (_, h1) =
      append-nil_both (if member r.name seen then (r.name, defined_twice) ∷ [] else []) _ h in
    let (here, h2) = append-nil_both (concat_map (overlaps r) pools) _ h1 in
    let (_, h3) = append-nil_both (tmpfs_warning r) _ h2 in
    elim m [
      | inl e ↦ subst (λ z. overlaps z q ≡ []) e (concat_map-nil (overlaps r) pools q here n)
      | inr later ↦ warnings_from-overlaps pools (r.name ∷ seen) rest p q h3 later n
    ]

no_overlap :
    (p q : PoolConfig)
    → overlaps p q ≡ []
    → starts_with (container_prefix q) (container_prefix p ++ codes "-") ≡ true
    → q.name ≡ p.name
unfolding overlaps
no_overlap p q h s = ground (arith, text_eq_iff q.name p.name)

-- If validation gives no warning, two of its pools that both claim a container have one name or
-- one container prefix.
pub Claims-one_prefix :
    (pools : List PoolConfig) (p q : PoolConfig) (container : Text)
    → validation_warnings pools ≡ []
    → In p pools
    → In q pools
    → Claims p container
    → Claims q container
    → (p.name ≡ q.name) ⊎ (container_prefix p ≡ container_prefix q)
unfolding validation_warnings
Claims-one_prefix pools p q container h m n cp cq = ground (
  arith,
  prefixes_compare container (container_prefix p ++ codes "-") (container_prefix q ++ codes "-") cp
      cq,
  drop_dash (container_prefix p) (container_prefix q),
  drop_dash (container_prefix q) (container_prefix p),
  no_overlap p q (warnings_from-overlaps pools [] pools p q h m n),
  no_overlap q p (warnings_from-overlaps pools [] pools q p h n m),
)
