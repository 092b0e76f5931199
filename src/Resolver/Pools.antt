-- ===== src/Resolver/Pools.antt =====
-- Where the pools in force come from, orchestrator/rorch/resolver.py.
use selfhosted_runner_swarm.Prelude.{
  ◌≡◌, ◌⊎◌, inl, inr, refl, not, ◌||◌, Option, none, some, List, [], ◌∷◌, ◌++◌, All, All-mono,
  All-append, Bool-cases,
}
use selfhosted_runner_swarm.Prelude.Int.{ℤ}
use selfhosted_runner_swarm.Prelude.Text.{Text, truthy}
use selfhosted_runner_swarm.Prelude.Dict.{Dict}
use selfhosted_runner_swarm.Config.{PoolConfig}
use selfhosted_runner_swarm.Config.Validation.{validation_errors, Problem}
use selfhosted_runner_swarm.Resolver.{
  Override, tunable_fields, identity_fields, set_fields, resolve_base, pat_variable, if_valid,
  build_ui_pool, add_pool, blank_pool, resolve_ui, resolve_pools,
}
use selfhosted_runner_swarm.Resolver.Identity.{
  IfGiven, IfGiven-bind, Overridden, AllOverridden, resolve_base-Overridden,
}

abbrev pub Valid : PoolConfig → Type 0
Valid p = validation_errors (p ∷ []) ≡ []

abbrev pub Known : List PoolConfig → PoolConfig → Type 0
Known base p = Overridden base p ⊎ Valid p

anything : {A : Type 0} (o : Option A) → IfGiven (λ _. Unit {0}) o
anything none = tt
anything (some a) = tt

module _ {V : Type 0} (as_int as_float : V → Option ℤ) (as_text : V → Text)
    (getenv : Text → Text) where
  if_valid-Valid :
      (errors : List (Text × Problem)) (p : PoolConfig)
      → validation_errors (p ∷ []) ≡ errors
      → IfGiven Valid (if_valid as_int as_float as_text getenv errors p)
  if_valid-Valid [] p e = e
  if_valid-Valid (x ∷ xs) p e = tt

  build_ui_pool-Valid :
      (name : Text) (fields : Dict Text V)
      → IfGiven (IfGiven Valid) (build_ui_pool as_int as_float as_text getenv name fields)
  unfolding build_ui_pool
  build_ui_pool-Valid name fields =
      let pat = getenv (pat_variable as_int as_float as_text getenv fields) in
      elim (Bool-cases (truthy pat)) [
        | inl e ↦
            let made =
              set_fields as_int as_float as_text
                (tunable_fields as_int as_float as_text ++ identity_fields as_int as_float as_text)
                fields (blank_pool name pat) in
            rw e (
              IfGiven-bind (λ _. Unit {0}) (IfGiven Valid) made
                (λ p. some (if_valid as_int as_float as_text getenv (validation_errors (p ∷ [])) p))
                (anything made) (λ p u. if_valid-Valid (validation_errors (p ∷ [])) p refl))
        | inr e ↦ rw e tt
      ]

  All-add_pool :
      (made : Option PoolConfig) (pools : List PoolConfig)
      → IfGiven Valid made
      → All Valid pools
      → All Valid (add_pool as_int as_float as_text getenv made pools)
  All-add_pool none pools h k = k
  All-add_pool (some p) pools h k = (h, k)

  pub resolve_ui-Valid :
      (rows : Dict Text (Override V))
      → IfGiven (All Valid) (resolve_ui as_int as_float as_text getenv rows)
  unfolding resolve_ui
  resolve_ui-Valid [] = tt
  resolve_ui-Valid ((name, row) ∷ rest) = elim (Bool-cases (not row.from_ui || row.disabled)) [
    | inl e ↦ rw e (resolve_ui-Valid rest)
    | inr e ↦ rw e (
        IfGiven-bind (IfGiven Valid) (All Valid)
          (build_ui_pool as_int as_float as_text getenv name row.fields) _
          (build_ui_pool-Valid name row.fields)
          (λ made h.
            IfGiven-bind (All Valid) (All Valid) (resolve_ui as_int as_float as_text getenv rest) _
              (resolve_ui-Valid rest) (λ others k. All-add_pool made others h k)))
  ]

  -- Whatever the store holds, if the configuration resolves then each of its pools has the name, the
  -- token, the owner, the repository, the scope, the instance, the provider and the base URL of a
  -- pool of the file, or passes validation on its own.
  pub resolve_pools-Known :
      (base : List PoolConfig) (rows : Dict Text (Override V))
      → IfGiven (All (Known base)) (resolve_pools as_int as_float as_text getenv base rows)
  unfolding resolve_pools
  resolve_pools-Known base rows =
      IfGiven-bind (AllOverridden as_int as_float as_text base) (All (Known base))
        (resolve_base as_int as_float as_text base rows) _
        (resolve_base-Overridden as_int as_float as_text base rows)
        (λ r h.
          IfGiven-bind (All Valid) (All (Known base))
            (resolve_ui as_int as_float as_text getenv r.1) _ (resolve_ui-Valid r.1)
            (λ created k.
              All-append (Known base) r.0 created
                (All-mono (Overridden base) (Known base) (λ p o. inl o) r.0 h)
                (All-mono Valid (Known base) (λ p v. inr v) created k)))
