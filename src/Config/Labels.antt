-- ===== src/Config/Labels.antt =====
-- The labels that a pool's runners carry: `label_set` and `serves_labels` of
-- orchestrator/rorch/config.py. A frozenset is a list of which only membership is asked.
use mathlib.Core.Bool.{true≢false}
use selfhosted_runner_swarm.Prelude.{
  Bool, true, false, ◌&&◌, ◌||◌, ◌≡◌, ◌↔◌, ◌⊎◌, List, [], ◌∷◌, ◌++◌, map, if◌then◌else◌, keep, all,
  All, arith, refl, ◌≢◌, In, inl, inr, sym, subst, ◌∙◌, Bool-cases,
}
use selfhosted_runner_swarm.Prelude.Text.{Text, is, codes, truthy, lower, strip, split, text_eq_iff}
use selfhosted_runner_swarm.Prelude.Dict.{member, member-map-In, In-member-map, text_key}
use selfhosted_runner_swarm.Config.Usable.{truthy-ne-nil}
use selfhosted_runner_swarm.Config.{PoolConfig, is_gitea}

unfoldable pub configured_labels : PoolConfig → List Text
unfolding split strip lower
configured_labels p = map (λ label. lower (strip label)) (split b',' p.runner_labels)

abbrev default_labels : List Text
default_labels = codes "self-hosted" ∷ codes "linux" ∷ codes "x64" ∷ []

unfoldable pub label_set : PoolConfig → List Text
unfolding configured_labels is_gitea
label_set p =
    if is_gitea p
    then keep truthy (configured_labels p)
    else keep truthy (configured_labels p ++ default_labels)

unfoldable pub serves_labels : PoolConfig → List Text → Bool
unfolding label_set member
serves_labels p labels = all (λ label. member (lower label) (label_set p)) labels

-- What `config.sh` adds to the labels of a GitHub runner.
abbrev pub IsDefault : Text → Type 0
IsDefault label = (label ≡ codes "self-hosted") ⊎ ((label ≡ codes "linux") ⊎ (label ≡ codes "x64"))

-- An entry of `runner_labels` that is the label but for blanks around it and for capitals.
abbrev pub Lists : PoolConfig → Text → Type 0
Lists p label =
    (entry : Text) × In entry (split b',' p.runner_labels) × (lower (strip entry) ≡ lower label)

-- A label that the pool's runners carry, whatever its capitals.
abbrev pub Carries : PoolConfig → Text → Type 0
Carries p label =
    (label ≢ []) × (Lists p label ⊎ ((p.provider ≢ codes "gitea") × IsDefault (lower label)))

member-keep :
    (label : Text) (xs : List Text)
    → member label (keep truthy xs) ≡ (truthy label && member label xs)
unfolding member
member-keep label [] = ground arith
member-keep label (x ∷ xs) = ground (arith, text_eq_iff x label, member-keep label xs)

member-append :
    (label : Text) (xs ys : List Text)
    → member label (xs ++ ys) ≡ (member label xs || member label ys)
unfolding member
member-append label [] ys = refl
member-append label (x ∷ xs) ys = ground (arith, member-append label xs ys)

-- The two places of a label in the set.
Found : PoolConfig → Text → Type 0
Found p label =
    (member label (configured_labels p) ≡ true)
    ⊎ ((is_gitea p ≡ false) × (member label default_labels ≡ true))

member-label_set :
    (p : PoolConfig) (label : Text)
    → (member label (label_set p) ≡ true) ↔ ((truthy label ≡ true) × Found p label)
unfolding label_set Found
member-label_set p label = ground (
  arith,
  member-keep label (configured_labels p),
  member-keep label (configured_labels p ++ default_labels),
  member-append label (configured_labels p) default_labels,
)

IsDefault-iff : (label : Text) → (member label default_labels ≡ true) ↔ IsDefault label
unfolding member
IsDefault-iff label = ground (
  arith,
  text_eq_iff (codes "self-hosted") label,
  text_eq_iff (codes "linux") label,
  text_eq_iff (codes "x64") label,
)

configured_iff :
    (p : PoolConfig) (label : Text)
    → (member (lower label) (configured_labels p) ≡ true) ↔ Lists p label
unfolding configured_labels
configured_iff p label = (
  member-map-In tidy (lower label) entries,
  λ l. subst (λ s. member s (map tidy entries) ≡ true) l.2 (In-member-map tidy l.0 entries l.1),
)
  where
    tidy : Text → Text
    tidy entry = lower (strip entry)

    entries : List Text
    entries = split b',' p.runner_labels

lower-truthy : (label : Text) → (truthy (lower label) ≡ true) ↔ (label ≢ [])
unfolding lower
lower-truthy [] = (λ h. cc, λ n. absurd (n refl))
lower-truthy (c ∷ s) = (λ h e. truthy-ne-nil (c ∷ s) refl e, λ n. refl)

gitea_iff : (p : PoolConfig) → (is_gitea p ≡ false) ↔ (p.provider ≢ codes "gitea")
unfolding is_gitea
gitea_iff p = (
  λ h e. true≢false (sym ((text_eq_iff p.provider (codes "gitea")).1 e) ∙ h),
  λ n. elim (Bool-cases (is p.provider "gitea")) [
    | inl e ↦ absurd (n ((text_eq_iff p.provider (codes "gitea")).0 e))
    | inr e ↦ e
  ],
)

Carries-iff :
    (p : PoolConfig) (label : Text) → (member (lower label) (label_set p) ≡ true) ↔ Carries p label
unfolding Found
Carries-iff p label = (
  λ h.
      let (some_text, found) = (member-label_set p (lower label)).0 h in
      (
        (lower-truthy label).0 some_text,
        elim found [
          | inl m ↦ inl ((configured_iff p label).0 m)
          | inr (g, m) ↦ inr ((gitea_iff p).0 g, (IsDefault-iff (lower label)).0 m)
        ],
      ),
  λ c. (member-label_set p (lower label)).1 (
    (lower-truthy label).1 c.0,
    elim c.1 [
      | inl m ↦ inl ((configured_iff p label).1 m)
      | inr (g, m) ↦ inr ((gitea_iff p).1 g, (IsDefault-iff (lower label)).1 m)
    ],
  ),
)

serves_labels-Carries :
    (p : PoolConfig) (labels : List Text) → serves_labels p labels ≡ true → All (Carries p) labels
unfolding serves_labels
serves_labels-Carries p [] h = tt
serves_labels-Carries p (label ∷ labels) h =
    ((Carries-iff p label).0 (ground arith), serves_labels-Carries p labels (ground arith))

Carries-serves_labels :
    (p : PoolConfig) (labels : List Text) → All (Carries p) labels → serves_labels p labels ≡ true
unfolding serves_labels
Carries-serves_labels p [] h = refl
Carries-serves_labels p (label ∷ labels) h =
    ground (arith, (Carries-iff p label).1 h.0, Carries-serves_labels p labels h.1)

-- A pool serves a job exactly when its runners carry every label that the job asks for: each is not
-- empty and, whatever the capitals, is an entry of `runner_labels` between its blanks, or, unless the
-- pool is a Gitea pool, is one of self-hosted, linux and x64.
pub serves_labels_iff :
    (p : PoolConfig) (labels : List Text) → (serves_labels p labels ≡ true) ↔ All (Carries p) labels
serves_labels_iff p labels = (serves_labels-Carries p labels, Carries-serves_labels p labels)
