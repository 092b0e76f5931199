-- ===== src/Resolver/Identity.antt =====
-- What an override may change, orchestrator/rorch/resolver.py: the identity of a pool under `_apply`.
use selfhosted_runner_swarm.Prelude.{
  ◌≡◌, inl, inr, refl, ◌∙◌, Option, none, some, List, [], ◌∷◌, if◌then◌else◌, All, All-mono, In,
  Bool-cases,
}
use selfhosted_runner_swarm.Prelude.Int.{ℤ}
use selfhosted_runner_swarm.Prelude.Text.{Text, text_eq, lower}
use selfhosted_runner_swarm.Prelude.Dict.{Dict, get, remove, text_key}
use selfhosted_runner_swarm.Config.{PoolConfig}
use selfhosted_runner_swarm.Resolver.{
  Override, set_int, set_float, set_text, tunable_fields, set_field, set_fields, apply_override,
  resolve_base, ◌>>=◌,
}

-- What an override must leave alone.
pub record Identity : Type 0 where
  pub name : Text
  pub pat : Text
  pub owner : Text
  pub repo : Text
  pub scope : Text
  pub instance_name : Text
  pub provider : Text
  pub base_url : Text

abbrev pub identity_of : PoolConfig → Identity
identity_of p = record {
  name = p.name;
  pat = p.pat;
  owner = p.owner;
  repo = p.repo;
  scope = p.scope;
  instance_name = p.instance_name;
  provider = p.provider;
  base_url = p.base_url;
}

-- The value that a step gives, if it gives one, satisfies the predicate.
abbrev pub IfGiven : {A : Type 0} → (A → Type 0) → Option A → Type 0
IfGiven P none = Unit
IfGiven P (some a) = P a

pub IfGiven-bind :
    {A B : Type 0} (P : A → Type 0) (Q : B → Type 0) (o : Option A) (f : A → Option B)
    → IfGiven P o
    → ((a : A) → P a → IfGiven Q (f a))
    → IfGiven Q (o >>= f)
unfolding ◌>>=◌
IfGiven-bind P Q none f p h = tt
IfGiven-bind P Q (some a) f p h = h a p

-- The pool is one of the file, up to what an override may change.
pub record Overridden (base : List PoolConfig) (p : PoolConfig) : Type 0 where
  pub origin : PoolConfig
  pub listed : In origin base
  pub same : identity_of p ≡ identity_of origin

module _ {V : Type 0} (as_int as_float : V → Option ℤ) (as_text : V → Text) where
  abbrev Same : PoolConfig → PoolConfig → Type 0
  Same p q = identity_of q ≡ identity_of p

  abbrev Gentle : (V → PoolConfig → Option PoolConfig) → Type 0
  Gentle set = (v : V) (p : PoolConfig) → IfGiven (Same p) (set v p)

  Gentle-int :
      (f : ℤ → PoolConfig → PoolConfig)
      → ((n : ℤ) (p : PoolConfig) → Same p (f n p))
      → Gentle (set_int as_int as_float as_text f)
  unfolding set_int
  Gentle-int f h v p = by_value (as_int v)
    where
      by_value : (o : Option ℤ) → IfGiven (Same p) (elim o [ none ↦ none | some n ↦ some (f n p) ])
      by_value none = tt
      by_value (some n) = h n p

  Gentle-float :
      (f : ℤ → PoolConfig → PoolConfig)
      → ((n : ℤ) (p : PoolConfig) → Same p (f n p))
      → Gentle (set_float as_int as_float as_text f)
  unfolding set_float
  Gentle-float f h v p = by_value (as_float v)
    where
      by_value : (o : Option ℤ) → IfGiven (Same p) (elim o [ none ↦ none | some n ↦ some (f n p) ])
      by_value none = tt
      by_value (some n) = h n p

  Gentle-text :
      (f : Text → PoolConfig → PoolConfig)
      → ((t : Text) (p : PoolConfig) → Same p (f t p))
      → Gentle (set_text as_int as_float as_text f)
  unfolding set_text
  Gentle-text f h v p = h (as_text v) p

  tunable_fields-Gentle : All (λ entry. Gentle entry.1) (tunable_fields as_int as_float as_text)
  unfolding tunable_fields
  tunable_fields-Gentle = (
    Gentle-int (λ n p. record p { max_runners = n }) (λ n p. refl),
    (
      Gentle-int (λ n p. record p { min_idle = n }) (λ n p. refl),
      (
        Gentle-text (λ t p. record p { runner_labels = t }) (λ t p. refl),
        (
          Gentle-text (λ t p. record p { runner_image = t }) (λ t p. refl),
          (
            Gentle-text (λ t p. record p { memory_limit = t }) (λ t p. refl),
            (
              Gentle-float (λ n p. record p { cpu_limit = n }) (λ n p. refl),
              (
                Gentle-text (λ t p. record p { work_tmpfs_size = t }) (λ t p. refl),
                (
                  Gentle-int (λ n p. record p { repo_discovery_ttl = n }) (λ n p. refl),
                  (
                    Gentle-int (λ n p. record p { github_poll_interval = n }) (λ n p. refl),
                    (
                      Gentle-int (λ n p. record p { queued_min_age = n }) (λ n p. refl),
                      (
                        Gentle-int (λ n p. record p { stuck_timeout = n }) (λ n p. refl),
                        (
                          Gentle-int (λ n p. record p { repo_check_workers = n }) (λ n p. refl),
                          (
                            Gentle-int (λ n p. record p { runner_operation_workers = n })
                                (λ n p. refl),
                            (
                              Gentle-text (λ t p. record p { network_mode = lower t })
                                  (λ t p. refl),
                              (
                                Gentle-text (λ t p. record p { exclude_repos = t }) (λ t p. refl),
                                tt,
                              ),
                            ),
                          ),
                        ),
                      ),
                    ),
                  ),
                ),
              ),
            ),
          ),
        ),
      ),
    ),
  )

  abbrev IfFound : Option (V → PoolConfig → Option PoolConfig) → Type 0
  IfFound none = Unit
  IfFound (some set) = Gentle set

  get-Gentle :
      (key : Text) (allowed : Dict Text (V → PoolConfig → Option PoolConfig))
      → All (λ entry. Gentle entry.1) allowed
      → IfFound (get key allowed)
  unfolding get
  get-Gentle key [] h = tt
  get-Gentle key ((k, set) ∷ allowed) h = elim (Bool-cases (text_eq k key)) [
    | inl e ↦ rw e h.0
    | inr e ↦ rw e (get-Gentle key allowed h.1)
  ]

  set_fields-Same :
      (allowed : Dict Text (V → PoolConfig → Option PoolConfig)) (fields : Dict Text V)
      (p : PoolConfig)
      → All (λ entry. Gentle entry.1) allowed
      → IfGiven (Same p) (set_fields as_int as_float as_text allowed fields p)
  unfolding set_fields set_field
  set_fields-Same allowed [] p gentle = refl
  set_fields-Same allowed ((key, v) ∷ rest) p gentle =
      IfGiven-bind (Same p) (Same p) (set_field as_int as_float as_text allowed key v p)
        (set_fields as_int as_float as_text allowed rest)
        (by_setter (get key allowed) (get-Gentle key allowed gentle))
        (λ q e.
          widen q e (set_fields as_int as_float as_text allowed rest q)
            (set_fields-Same allowed rest q gentle))
    where
      by_setter :
          (o : Option (V → PoolConfig → Option PoolConfig))
          → IfFound o
          → IfGiven (Same p) (elim o [ none ↦ some p | some set ↦ set v p ])
      by_setter none h = refl
      by_setter (some set) h = h v p

      widen :
          (q : PoolConfig)
          → Same p q
          → (o : Option PoolConfig) → IfGiven (Same q) o
          → IfGiven (Same p) o
      widen q e none h = tt
      widen q e (some r) h = h ∙ e

  apply_override-Same :
      (base : PoolConfig) (fields : Dict Text V)
      → IfGiven (Same base) (apply_override as_int as_float as_text base fields)
  unfolding apply_override
  apply_override-Same base fields =
      set_fields-Same (tunable_fields as_int as_float as_text) fields base tunable_fields-Gentle

  abbrev pub AllOverridden : List PoolConfig → List PoolConfig × Dict Text (Override V) → Type 0
  AllOverridden base result = All (Overridden base) result.0

  further :
      (b : PoolConfig) (bs : List PoolConfig) (p : PoolConfig)
      → Overridden bs p
      → Overridden (b ∷ bs) p
  further b bs p o = record { origin = o.origin; listed = inr o.listed; same = o.same }

  pub resolve_base-Overridden :
      (base : List PoolConfig) (rows : Dict Text (Override V))
      → IfGiven (AllOverridden base) (resolve_base as_int as_float as_text base rows)
  unfolding resolve_base
  resolve_base-Overridden [] rows = tt
  resolve_base-Overridden (b ∷ bs) rows =
      by_row (get b.name rows) (resolve_base-Overridden bs (remove b.name rows))
    where
      rest : Option (List PoolConfig × Dict Text (Override V))
      rest = resolve_base as_int as_float as_text bs (remove b.name rows)

      with_head :
          (p : PoolConfig)
          → Same b p
          → IfGiven (AllOverridden bs) rest
          → IfGiven (AllOverridden (b ∷ bs)) (rest >>= λ r. some (p ∷ r.0, r.1))
      with_head p e ih =
          IfGiven-bind (AllOverridden bs) (AllOverridden (b ∷ bs)) rest (λ r. some (p ∷ r.0, r.1))
            ih
            (λ r h. (
              record { origin = b; listed = inl refl; same = e },
              All-mono (Overridden bs) (Overridden (b ∷ bs)) (further b bs) r.0 h,
            ))

      without :
          (o : Option (List PoolConfig × Dict Text (Override V)))
          → IfGiven (AllOverridden bs) o
          → IfGiven (AllOverridden (b ∷ bs)) o
      without none h = tt
      without (some r) h = All-mono (Overridden bs) (Overridden (b ∷ bs)) (further b bs) r.0 h

      applied :
          (o : Option PoolConfig)
          → IfGiven (Same b) o
          → IfGiven (AllOverridden bs) rest
          → IfGiven (AllOverridden (b ∷ bs)) (o >>= λ p. rest >>= λ r. some (p ∷ r.0, r.1))
      applied o h ih =
          IfGiven-bind (Same b) (AllOverridden (b ∷ bs)) o (λ p. rest >>= λ r. some (p ∷ r.0, r.1))
            h (λ p e. with_head p e ih)

      by_row :
          (o : Option (Override V))
          → IfGiven (AllOverridden bs) rest
          → IfGiven (AllOverridden (b ∷ bs)) (elim o [
            | none ↦ rest >>= λ r. some (b ∷ r.0, r.1)
            | some row ↦
                if row.disabled
                then rest
                else (apply_override as_int as_float as_text b row.fields >>= λ p.
                    rest >>= λ r. some (p ∷ r.0, r.1))
          ])
      by_row none ih = with_head b refl ih
      by_row (some row) ih = elim (Bool-cases row.disabled) [
        | inl e ↦ rw e (without rest ih)
        | inr e ↦ rw e (
            applied (apply_override as_int as_float as_text b row.fields)
              (apply_override-Same b row.fields) ih)
      ]
