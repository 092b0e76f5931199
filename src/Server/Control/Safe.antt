-- ===== src/Server/Control/Safe.antt =====
-- What the rows of pools must be for every pool in force to pass validation, and that storing a
-- checked candidate keeps them so: orchestrator/rorch/server/control_routes.py.
use mathlib.Core.Option.{some-injective}
use selfhosted_runner_swarm.Prelude.{
  ◌≡◌, refl, sym, subst, Bool, true, false, Option, none, some, List, [], ◌∷◌, ◌++◌, All,
  if◌then◌else◌,
}
use selfhosted_runner_swarm.Prelude.Text.{Text, truthy}
use selfhosted_runner_swarm.Prelude.Dict.{Dict, text_key}
use selfhosted_runner_swarm.Config.{PoolConfig}
use selfhosted_runner_swarm.Config.Validation.{validation_errors}
use selfhosted_runner_swarm.Resolver.{
  Override, set_fields, apply_override, blank_pool, pat_variable, if_valid, build_ui_pool,
  pool_named, ◌>>=◌,
}
use selfhosted_runner_swarm.Resolver.Identity.{IfGiven}
use selfhosted_runner_swarm.Resolver.Pools.{Valid}
use selfhosted_runner_swarm.Resolver.Returns.{Gives, Returns, Gives-bind, Applies, Fits, Builds}
use selfhosted_runner_swarm.Store.{OverrideRow, pool_overrides}
use selfhosted_runner_swarm.Server.Control.{Json, as_override}
use selfhosted_runner_swarm.Server.Control.Pools.{
  other_fields, settable_fields, is_constructed, constructed, candidate_ui, candidate_base,
  candidate_pool, given,
}
use selfhosted_runner_swarm.Server.Control.Steady.{settable_fields-Steady, narrow_fields}

module _ {V : Type 0} (json : Json V) (getenv : Text → Text) (base : List PoolConfig) where
  -- A candidate that was made shows that the resolver can read the row.
  candidate_ui-build_ui_pool :
      (name : Text) (fields : Dict Text V) (p : PoolConfig)
      → candidate_ui json getenv base name fields ≡ some (some p)
      → Returns (build_ui_pool json.as_int json.as_float json.as_text getenv name fields)
  unfolding candidate_ui build_ui_pool
  candidate_ui-build_ui_pool name fields p e =
      by_secret (truthy pat)
        (narrow_fields json (settable_fields json) (other_fields json) (settable_fields-Steady json)
          fields (blank_pool name pat) (blank_pool name pat))
        e
    where
      pat : Text
      pat = getenv (pat_variable json.as_int json.as_float json.as_text getenv fields)

      wide : Option PoolConfig
      wide =
          set_fields json.as_int json.as_float json.as_text
            (settable_fields json ++ other_fields json) fields (blank_pool name pat)

      narrow : Option PoolConfig
      narrow =
          set_fields json.as_int json.as_float json.as_text (settable_fields json) fields
            (blank_pool name pat)

      wide-Returns :
          (o : Option PoolConfig) (ok : Bool)
          → constructed json getenv base ok o ≡ some (some p)
          → Returns o
      wide-Returns none ok e = cc
      wide-Returns (some q) ok e = tt

      by_secret :
          (b : Bool)
          → (Returns wide → Returns narrow)
          → (if b
              then constructed json getenv base (is_constructed json fields) wide
              else some none)
            ≡ some (some p)
          → Returns (
              if b
              then (narrow >>= λ q. some (
                  if_valid json.as_int json.as_float json.as_text getenv
                    (validation_errors (q ∷ []))
                    q))
              else some none)
      by_secret false f e = tt
      by_secret true f e =
          Gives-bind (λ q. Unit) (λ m. Unit) narrow _
            (f (wide-Returns wide (is_constructed json fields) e)) (λ q u. tt)

  abbrev pub Apart : Text × Override V → Type 0
  Apart (name, row) = row.from_ui ≡ true → pool_named name base ≡ none

  -- Each pool that the row makes passes validation.
  abbrev pub Good : Text × Override V → Type 0
  Good e =
      Fits json.as_int json.as_float json.as_text getenv base e
      × Builds json.as_int json.as_float json.as_text getenv e
      × Apart e

  pub candidate_pool-Good :
      (name : Text) (fields : Dict Text V) (u : Bool) (p : PoolConfig)
      → (u ≡ true → pool_named name base ≡ none)
      → candidate_pool json getenv base name fields u ≡ some (some p)
      → Valid p
      → Good (name, record { from_ui = u; disabled = false; fields = fields })
  unfolding candidate_pool
  candidate_pool-Good name fields true p apart e v =
      (λ d. rw (apart refl) tt, λ d w. candidate_ui-build_ui_pool name fields p e, apart)
  candidate_pool-Good name fields false p apart e v =
      (λ d. by_pool (pool_named name base) e, λ d w. cc, apart)
    where
      by_result : (o : Option PoolConfig) → given some o ≡ some (some p) → Gives Valid o
      by_result none e = cc
      by_result (some q) e =
          subst Valid (sym (some-injective q p (some-injective (some q) (some p) e))) v

      by_pool :
          (o : Option PoolConfig)
          → candidate_base json getenv base fields o ≡ some (some p)
          → Applies json.as_int json.as_float json.as_text getenv o fields
      by_pool none e = tt
      by_pool (some b) e =
          by_result (apply_override json.as_int json.as_float json.as_text b fields) e

  -- A row of the table, once its text is read.
  abbrev pub GoodRow : Text × OverrideRow → Type 0
  GoodRow (name, row) =
      IfGiven (λ fields. Good (as_override (name, (fields, row)))) (json.loads row.fields)

  abbrev pub Safe : Dict Text OverrideRow → Type 0
  Safe rows = All GoodRow rows

  pub pool_overrides-Good :
      (rows : Dict Text OverrideRow)
      → Safe rows
      → All (λ e. Good (as_override e)) (pool_overrides json.loads rows)
  unfolding pool_overrides
  pool_overrides-Good [] h = tt
  pool_overrides-Good ((name, row) ∷ rest) h =
      by_text (json.loads row.fields) h.0 (pool_overrides-Good rest h.1)
    where
      others : Dict Text (Dict Text V × OverrideRow)
      others = pool_overrides json.loads rest

      by_text :
          (o : Option (Dict Text V))
          → IfGiven (λ fields. Good (as_override (name, (fields, row)))) o
          → All (λ e. Good (as_override e)) others
          → All
              (λ e. Good (as_override e))
              (elim o [ none ↦ others | some v ↦ (name, (v, row)) ∷ others ])
      by_text none g ih = ih
      by_text (some v) g ih = (g, ih)
