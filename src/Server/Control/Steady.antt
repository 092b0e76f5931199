-- ===== src/Server/Control/Steady.antt =====
-- When the setters of a pool's fields raise: orchestrator/rorch/resolver.py.
use selfhosted_runner_swarm.Prelude.{
  Bool, true, false, Option, none, some, [], ◌∷◌, ◌++◌, All, if◌then◌else◌,
}
use selfhosted_runner_swarm.Prelude.Int.{ℤ}
use selfhosted_runner_swarm.Prelude.Text.{Text, text_eq}
use selfhosted_runner_swarm.Prelude.Dict.{Dict, get, text_key}
use selfhosted_runner_swarm.Config.{PoolConfig}
use selfhosted_runner_swarm.Resolver.{
  Setter, set_int, set_float, set_text, set_field, set_fields, tunable_fields, identity_fields,
  ◌>>=◌,
}
use selfhosted_runner_swarm.Resolver.Returns.{Returns}
use selfhosted_runner_swarm.Server.Control.{Json}
use selfhosted_runner_swarm.Server.Control.Pools.{settable_fields}

module _ {V : Type 0} (json : Json V) where
  abbrev Set : Type 0
  Set = Setter json.as_int json.as_float json.as_text

  -- Whether a setter raises depends on the value only.
  abbrev Steady : Set → Type 0
  Steady set = (v : V) (p q : PoolConfig) → Returns (set v p) → Returns (set v q)

  Steady-int :
      (f : ℤ → PoolConfig → PoolConfig) → Steady (set_int json.as_int json.as_float json.as_text f)
  unfolding set_int
  Steady-int f v p q = by_value (json.as_int v)
    where
      by_value :
          (o : Option ℤ)
          → Returns (elim o [ none ↦ none | some n ↦ some (f n p) ])
          → Returns (elim o [ none ↦ none | some n ↦ some (f n q) ])
      by_value none r = r
      by_value (some n) r = tt

  Steady-float :
      (f : ℤ → PoolConfig → PoolConfig)
      → Steady (set_float json.as_int json.as_float json.as_text f)
  unfolding set_float
  Steady-float f v p q = by_value (json.as_float v)
    where
      by_value :
          (o : Option ℤ)
          → Returns (elim o [ none ↦ none | some n ↦ some (f n p) ])
          → Returns (elim o [ none ↦ none | some n ↦ some (f n q) ])
      by_value none r = r
      by_value (some n) r = tt

  pub settable_fields-Steady : All (λ e. Steady e.1) (settable_fields json)
  unfolding tunable_fields identity_fields set_text
  settable_fields-Steady = (
    Steady-int _,
    (
      Steady-int _,
      (
        λ v p q r. tt,
        (
          λ v p q r. tt,
          (
            λ v p q r. tt,
            (
              Steady-float _,
              (
                λ v p q r. tt,
                (
                  Steady-int _,
                  (
                    Steady-int _,
                    (
                      Steady-int _,
                      (
                        Steady-int _,
                        (
                          Steady-int _,
                          (
                            Steady-int _,
                            (
                              λ v p q r. tt,
                              (
                                λ v p q r. tt,
                                (λ v p q r. tt, (λ v p q r. tt, (λ v p q r. tt, tt))),
                              ),
                            ),
                          ),
                        ),
                      ),
                    ),
                  ),
                ),
              ),
            ),
          ),
        ),
      ),
    ),
  )

  narrow_field :
      (allowed more : Dict Text Set)
      → All (λ e. Steady e.1) allowed
      → (key : Text) (v : V) (p q : PoolConfig)
      → Returns (set_field json.as_int json.as_float json.as_text (allowed ++ more) key v p)
      → Returns (set_field json.as_int json.as_float json.as_text allowed key v q)
  unfolding set_field get
  narrow_field [] more steady key v p q r = tt
  narrow_field ((k, set) ∷ allowed) more steady key v p q r =
      by_key (text_eq k key) (narrow_field allowed more steady.1 key v p q) r
    where
      wide : Option Set
      wide = get key (allowed ++ more)

      by_key :
          (b : Bool)
          → (Returns (elim wide [ none ↦ some p | some s ↦ s v p ])
              → Returns (elim (get key allowed) [ none ↦ some q | some s ↦ s v q ]))
          → Returns (elim (if b then some set else wide) [ none ↦ some p | some s ↦ s v p ])
          → Returns
              (elim (if b then some set else get key allowed) [ none ↦ some q | some s ↦ s v q ])
      by_key true ih = steady.0 v p q
      by_key false ih = ih

  -- Fewer fields that can be set are no more reason to raise.
  pub narrow_fields :
      (allowed more : Dict Text Set)
      → All (λ e. Steady e.1) allowed
      → (fields : Dict Text V) (p q : PoolConfig)
      → Returns (set_fields json.as_int json.as_float json.as_text (allowed ++ more) fields p)
      → Returns (set_fields json.as_int json.as_float json.as_text allowed fields q)
  unfolding set_fields ◌>>=◌
  narrow_fields allowed more steady [] p q r = tt
  narrow_fields allowed more steady ((key, v) ∷ rest) p q r =
      by_wide (set_field json.as_int json.as_float json.as_text (allowed ++ more) key v p)
        (set_field json.as_int json.as_float json.as_text allowed key v q)
        (narrow_field allowed more steady key v p q)
        (λ a b. narrow_fields allowed more steady rest a b) r
    where
      wide_rest : PoolConfig → Option PoolConfig
      wide_rest = set_fields json.as_int json.as_float json.as_text (allowed ++ more) rest

      narrow_rest : PoolConfig → Option PoolConfig
      narrow_rest = set_fields json.as_int json.as_float json.as_text allowed rest

      by_wide :
          (o u : Option PoolConfig)
          → (Returns o → Returns u)
          → ((a b : PoolConfig) → Returns (wide_rest a) → Returns (narrow_rest b))
          → Returns (o >>= wide_rest)
          → Returns (u >>= narrow_rest)
      by_wide none u f g r = elim r [ ]
      by_wide (some a) none f g r = f tt
      by_wide (some a) (some b) f g r = g a b r
