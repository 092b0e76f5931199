-- ===== src/Docker/Cleanup/Leftovers.antt =====
-- What a sweep for leftovers of CI jobs removes.
use mathlib.Core.Option.{none-ne-some, some-injective}
use selfhosted_runner_swarm.Prelude.{
  In-keep, any-In, any, ◌⊎◌, leb→le, ap, In, ◌||◌, ◌*◌, ◌≡◌, refl, subst, Bool, true, false, Option,
  none, some, List, [], ◌∷◌, if◌then◌else◌, All, arith, inl, inr, ◌&&◌,
}
use selfhosted_runner_swarm.Prelude.Int.{pos, negsuc, ◌≤ℤ◌, ◌-ℤ◌, ℤ}
use selfhosted_runner_swarm.Prelude.Text.{split, starts_with, codes, Text}
use selfhosted_runner_swarm.Prelude.Text.Parts.{behind, before_char}
use selfhosted_runner_swarm.Prelude.Dict.{text_key, member, member-map-In}
use selfhosted_runner_swarm.Docker.Cleanup.{
  four_fields, truthy, keep, tab, ci_row, old, leftover, leftovers,
}
use selfhosted_runner_swarm.Docker.Names.{is_ci_container, is_protected, matches, label_keys}

kept :
    (b : Bool) (a name : Text) → (if b then some a else none) ≡ some name → (a ≡ name) × (b ≡ true)
kept true a name h = (some-injective a name h, refl)
kept false a name h = absurd (none-ne-some name h)

left_of_and : (a b : Bool) → (a && b) ≡ true → (a ≡ true) × (b ≡ true)
left_of_and a b h = ground arith

-- None of the names that a sweep spares, whatever is configured.
abbrev pub Unspared : Text → Type 0
Unspared name =
    (starts_with name (codes "gh-runner-") ≡ false) × (starts_with name (codes "rorch-") ≡ false)

-- The container is on a network that a job's runner makes.
abbrev pub OnJobNetwork : Text → Type 0
OnJobNetwork networks =
    (network : Text) × In network (split b',' networks)
    × (starts_with network (codes "github_network_") ≡ true)

-- One of the container's labels has the key.
abbrev pub HasLabel : Text → Text → Type 0
HasLabel labels key =
    (label : Text) × In label (split b',' labels)
    × (truthy label ≡ true)
    × (before_char b'=' label ≡ key)

module _ (fnmatch : Text → Text → Bool) where
  -- A configured pattern that stands for a label the container has, or is a glob of its name.
  abbrev pub Matched : List Text → Text → Text → Type 0
  Matched patterns name labels =
      (pattern : Text) × In pattern patterns
      × (((starts_with pattern (codes "label=") ≡ true)
            × HasLabel labels (behind (codes "label=") pattern))
          ⊎ ((starts_with pattern (codes "label=") ≡ false) × (fnmatch name pattern ≡ true)))

  matches-Matched :
      (name labels pattern : Text)
      → matches fnmatch name labels pattern ≡ true
      → ((starts_with pattern (codes "label=") ≡ true)
          × HasLabel labels (behind (codes "label=") pattern))
        ⊎ ((starts_with pattern (codes "label=") ≡ false) × (fnmatch name pattern ≡ true))
  unfolding matches label_keys
  matches-Matched name labels pattern h = by_test (starts_with pattern (codes "label=")) refl h
    where
      key : Text
      key = behind (codes "label=") pattern

      by_test :
          (b : Bool)
          → starts_with pattern (codes "label=") ≡ b
          → (if b then member key (label_keys labels) else fnmatch name pattern) ≡ true
          → ((starts_with pattern (codes "label=") ≡ true) × HasLabel labels key)
            ⊎ ((starts_with pattern (codes "label=") ≡ false) × (fnmatch name pattern ≡ true))
      by_test true e k =
          let (label, kept, same) =
            member-map-In (before_char b'=') key (keep truthy (split b',' labels)) k in
          let (listed, some_text) = In-keep truthy label (split b',' labels) kept in
          inl (e, (label, listed, some_text, same))
      by_test false e k = inr (e, k)

  is_ci_container-parts :
      (patterns : List Text) (name networks labels : Text)
      → is_ci_container fnmatch patterns name networks labels ≡ true
      → Unspared name × (OnJobNetwork networks ⊎ Matched patterns name labels)
  unfolding is_ci_container is_protected
  is_ci_container-parts patterns name networks labels h =
      by_tests (starts_with name (codes "gh-runner-")) (starts_with name (codes "rorch-"))
        (any of_job (split b',' networks)) refl refl refl h
    where
      of_job : Text → Bool
      of_job n = starts_with n (codes "github_network_")

      by_tests :
          (a b c : Bool)
          → starts_with name (codes "gh-runner-") ≡ a
          → starts_with name (codes "rorch-") ≡ b
          → any of_job (split b',' networks) ≡ c
          → (if a || (b || false)
              then false
              else if c
              then true
              else any (matches fnmatch name labels) patterns)
            ≡ true
          → Unspared name × (OnJobNetwork networks ⊎ Matched patterns name labels)
      by_tests true b c x y z k = cc
      by_tests false true c x y z k = cc
      by_tests false false true x y z k = ((x, y), inl (any-In of_job (split b',' networks) z))
      by_tests false false false x y z k =
          let (pattern, m, fits) = any-In (matches fnmatch name labels) patterns k in
          ((x, y), inr (pattern, m, matches-Matched name labels pattern fits))

-- The container has stood for the minutes.
abbrev pub Aged : ℤ → ℤ → ℤ → Type 0
Aged (pos m) now at = pos (m * 60) ≤ℤ (now -ℤ at)
Aged (negsuc m) now at = Unit

module _ (created : Text → Option ℤ) (fnmatch : Text → Text → Bool) where
  -- A line of the listing shows the container: made by a CI job, none that is spared, and of the age.
  pub record Leftover (minutes : ℤ) (patterns : List Text) (now : ℤ) (lines : List Text)
      (name : Text) : Type 0 where
    pub line : Text
    pub listed : In line lines
    pub made : Text
    pub networks : Text
    pub labels : Text
    pub row : split tab line ≡ name ∷ made ∷ networks ∷ labels ∷ []
    pub at : ℤ
    pub made_at : created made ≡ some at
    pub aged : Aged minutes now at
    pub unspared : Unspared name
    pub of_ci : OnJobNetwork networks ⊎ Matched fnmatch patterns name labels

  four_fields-some :
      (fields : List Text) (name made networks labels : Text)
      → four_fields fields ≡ some (name, (made, (networks, labels)))
      → fields ≡ name ∷ made ∷ networks ∷ labels ∷ []
  four_fields-some [] name made networks labels h = absurd (none-ne-some _ h)
  four_fields-some (a ∷ []) name made networks labels h = absurd (none-ne-some _ h)
  four_fields-some (a ∷ b ∷ []) name made networks labels h = absurd (none-ne-some _ h)
  four_fields-some (a ∷ b ∷ c ∷ []) name made networks labels h = absurd (none-ne-some _ h)
  four_fields-some (a ∷ b ∷ c ∷ e ∷ []) name made networks labels h =
      ap (λ r. r.0 ∷ r.1.0 ∷ r.1.1.0 ∷ r.1.1.1 ∷ []) (some-injective _ _ h)
  four_fields-some (a ∷ b ∷ c ∷ e ∷ f ∷ rest) name made networks labels h =
      absurd (none-ne-some _ h)

  ci_row-some :
      (line name made networks labels : Text)
      → ci_row line ≡ some (name, (made, (networks, labels)))
      → split tab line ≡ name ∷ made ∷ networks ∷ labels ∷ []
  unfolding ci_row
  ci_row-some line = four_fields-some (split tab line)

  old-Aged :
      (minutes now : ℤ) (made : Option ℤ)
      → old created fnmatch minutes now made ≡ true
      → (at : ℤ) × (made ≡ some at) × Aged minutes now at
  old-Aged minutes now none h = cc
  old-Aged (pos m) now (some at) h = (at, refl, leb→le _ _ h)
  old-Aged (negsuc m) now (some at) h = (at, refl, tt)

  leftover-Leftover :
      (minutes : ℤ) (patterns : List Text) (now : ℤ) (lines : List Text) (line name : Text)
      → In line lines
      → leftover created fnmatch minutes patterns now line ≡ some name
      → Leftover minutes patterns now lines name
  unfolding leftover
  leftover-Leftover minutes patterns now lines line name m h = by_fields (ci_row line) refl h
    where
      by_fields :
          (o : Option (Text × (Text × (Text × Text))))
          → ci_row line ≡ o
          → elim o as (λ r. Option Text) [
            | none ↦ none
            | some (a, (made, (networks, labels))) ↦
                if is_ci_container fnmatch patterns a networks labels
                  && old created fnmatch minutes now (created made)
                then some a
                else none
          ]
            ≡ some name
          → Leftover minutes patterns now lines name
      by_fields none e k = absurd (none-ne-some name k)
      by_fields (some (a, (made, (networks, labels)))) e k =
          let (same, fits) = kept _ a name k in
          let (ci, long) =
            left_of_and (is_ci_container fnmatch patterns a networks labels)
              (old created fnmatch minutes now (created made)) fits in
          let (unspared, of_ci) = is_ci_container-parts fnmatch patterns a networks labels ci in
          let (at, made_at, aged) = old-Aged minutes now (created made) long in
          subst (Leftover minutes patterns now lines) same (record {
            line = line;
            listed = m;
            made = made;
            networks = networks;
            labels = labels;
            row = ci_row-some line a made networks labels e;
            at = at;
            made_at = made_at;
            aged = aged;
            unspared = unspared;
            of_ci = of_ci;
          })

  leftovers-none :
      (minutes : ℤ) (patterns : List Text) (now : ℤ) (line : Text) (rest : List Text)
      → leftover created fnmatch minutes patterns now line ≡ none
      → leftovers created fnmatch minutes patterns now (line ∷ rest)
        ≡ leftovers created fnmatch minutes patterns now rest
  unfolding leftovers
  leftovers-none minutes patterns now line rest e = rw (leftovers, e) refl

  leftovers-some :
      (minutes : ℤ) (patterns : List Text) (now : ℤ) (line name : Text) (rest : List Text)
      → leftover created fnmatch minutes patterns now line ≡ some name
      → leftovers created fnmatch minutes patterns now (line ∷ rest)
        ≡ name ∷ leftovers created fnmatch minutes patterns now rest
  unfolding leftovers
  leftovers-some minutes patterns now line name rest e = rw (leftovers, e) refl

  leftovers_within :
      (minutes : ℤ) (patterns : List Text) (now : ℤ) (lines rest : List Text)
      → ((line : Text) → In line rest → In line lines)
      → All
          (Leftover minutes patterns now lines)
          (leftovers created fnmatch minutes patterns now rest)
  unfolding leftovers
  leftovers_within minutes patterns now lines [] within = tt
  leftovers_within minutes patterns now lines (line ∷ rest) within =
      by_line (leftovers_within minutes patterns now lines rest (λ l m. within l (inr m)))
        (leftover created fnmatch minutes patterns now line) refl
    where
      by_line :
          All
            (Leftover minutes patterns now lines)
            (leftovers created fnmatch minutes patterns now rest)
          → (o : Option Text) → leftover created fnmatch minutes patterns now line ≡ o
          → All
              (Leftover minutes patterns now lines)
              (leftovers created fnmatch minutes patterns now (line ∷ rest))
      by_line others none e = rw (leftovers-none minutes patterns now line rest e) others
      by_line others (some name) e = rw (leftovers-some minutes patterns now line name rest e) (
        leftover-Leftover minutes patterns now lines line name (within line (inl refl)) e,
        others,
      )

  -- Every container that a sweep for leftovers removes is on a line of the listing, with a time of
  -- creation that is read and lies the given minutes back at least; the line shows it on a network that a
  -- job's runner makes, or a configured pattern is a glob of its name or the key of one of its labels; and
  -- its name begins with neither of the prefixes of the runners, the orchestrator and their stack.
  pub leftovers-Leftover :
      (minutes : ℤ) (patterns : List Text) (now : ℤ) (lines : List Text)
      → All
          (Leftover minutes patterns now lines)
          (leftovers created fnmatch minutes patterns now lines)
  leftovers-Leftover minutes patterns now lines =
      leftovers_within minutes patterns now lines lines (λ line m. m)
