-- ===== src/Resolver.antt =====
-- The configuration in force: the pools of the file with the operator's overrides from the store,
-- orchestrator/rorch/resolver.py. Python's `int`, `float` and `str` on a stored value are
-- parameters, with no result where they raise; the environment is a function.
pub mod Identity
pub mod Pools
pub mod Returns
use selfhosted_runner_swarm.Prelude.{
  ℕ, Bool, true, false, not, ◌&&◌, ◌||◌, Option, none, some, List, [], ◌∷◌, ◌++◌, if◌then◌else◌,
}
use selfhosted_runner_swarm.Prelude.Int.{ℤ, pos, leb_ℤ}
use selfhosted_runner_swarm.Prelude.Text.{Text, codes, is, lower, truthy, text_eq}
use selfhosted_runner_swarm.Prelude.Dict.{Dict, get, remove, text_key}
use selfhosted_runner_swarm.Config.{PoolConfig}
use selfhosted_runner_swarm.Config.Validation.{validation_errors, Problem}

-- One row of the store's overrides.
pub record Override (V : Type 0) : Type 0 where
  pub from_ui : Bool
  pub disabled : Bool
  pub fields : Dict Text V

-- `PoolConfig(name=name, pat=pat)` with the default of every other field.
unfoldable pub blank_pool : Text → Text → PoolConfig
blank_pool name pat = record {
  name = name;
  pat = pat;
  owner = [];
  repo = [];
  scope = codes "organization";
  repo_discovery_ttl = pos 600;
  github_poll_interval = pos 60;
  queued_min_age = pos 0;
  instance_name = [];
  stuck_timeout = pos 8;
  repo_check_workers = pos 6;
  runner_operation_workers = pos 4;
  max_runners = pos 3;
  min_idle = pos 1;
  runner_labels = codes "self-hosted,linux,x64,docker";
  runner_image = codes "ghcr.io/mechemsi/rorch-runner:{version}";
  memory_limit = codes "2g";
  cpu_limit = pos 0;
  work_tmpfs_size = codes "auto";
  network_mode = codes "host";
  include_public_repos = false;
  exclude_repos = [];
  job_started_hook = [];
  provider = codes "github";
  base_url = [];
}

-- `next((p for p in pools if p.name == name), None)`
unfoldable pub pool_named : Text → List PoolConfig → Option PoolConfig
pool_named name [] = none
pool_named name (p ∷ ps) = if text_eq p.name name then some p else pool_named name ps

infixl 5 ◌>>=◌
unfoldable pub ◌>>=◌ : {A B : Type 0} → Option A → (A → Option B) → Option B
none >>= f = none
some a >>= f = f a

module _ {V : Type 0} (as_int as_float : V → Option ℤ) (as_text : V → Text) where
  -- What a field's value does to a pool; nothing where the conversion raises.
  abbrev pub Setter : Type 0
  Setter = V → PoolConfig → Option PoolConfig

  unfoldable pub set_int : (ℤ → PoolConfig → PoolConfig) → Setter
  set_int f v p = elim (as_int v) [ none ↦ none | some n ↦ some (f n p) ]

  unfoldable pub set_float : (ℤ → PoolConfig → PoolConfig) → Setter
  set_float f v p = elim (as_float v) [ none ↦ none | some n ↦ some (f n p) ]

  unfoldable pub set_text : (Text → PoolConfig → PoolConfig) → Setter
  set_text f v p = some (f (as_text v) p)

  -- `TUNABLE_FIELDS`, each with its coercion
  unfoldable pub tunable_fields : Dict Text Setter
  unfolding set_int set_float set_text lower
  tunable_fields =
      (codes "max_runners", set_int (λ n p. record p { max_runners = n }))
      ∷ (codes "min_idle", set_int (λ n p. record p { min_idle = n }))
      ∷ (codes "runner_labels", set_text (λ s p. record p { runner_labels = s }))
      ∷ (codes "runner_image", set_text (λ s p. record p { runner_image = s }))
      ∷ (codes "memory_limit", set_text (λ s p. record p { memory_limit = s }))
      ∷ (codes "cpu_limit", set_float (λ n p. record p { cpu_limit = n }))
      ∷ (codes "work_tmpfs_size", set_text (λ s p. record p { work_tmpfs_size = s }))
      ∷ (codes "repo_discovery_ttl", set_int (λ n p. record p { repo_discovery_ttl = n }))
      ∷ (codes "github_poll_interval", set_int (λ n p. record p { github_poll_interval = n }))
      ∷ (codes "queued_min_age", set_int (λ n p. record p { queued_min_age = n }))
      ∷ (codes "stuck_timeout", set_int (λ n p. record p { stuck_timeout = n }))
      ∷ (codes "repo_check_workers", set_int (λ n p. record p { repo_check_workers = n }))
      ∷ (
        codes "runner_operation_workers",
        set_int (λ n p. record p { runner_operation_workers = n }),
      )
      ∷ (codes "network_mode", set_text (λ s p. record p { network_mode = lower s }))
      ∷ (codes "exclude_repos", set_text (λ s p. record p { exclude_repos = s }))
      ∷ []

  -- `IDENTITY_FIELDS`, without the name, which is given
  unfoldable pub identity_fields : Dict Text Setter
  unfolding set_text lower
  identity_fields =
      (codes "owner", set_text (λ s p. record p { owner = s }))
      ∷ (codes "repo", set_text (λ s p. record p { repo = s }))
      ∷ (codes "scope", set_text (λ s p. record p { scope = lower s }))
      ∷ []

  -- Fields that are not among the allowed ones are dropped.
  unfoldable pub set_field : Dict Text Setter → Text → V → PoolConfig → Option PoolConfig
  unfolding get
  set_field allowed key v p = elim (get key allowed) [ none ↦ some p | some set ↦ set v p ]

  unfoldable pub set_fields : Dict Text Setter → Dict Text V → PoolConfig → Option PoolConfig
  unfolding set_field ◌>>=◌
  set_fields allowed [] p = some p
  set_fields allowed ((key, v) ∷ rest) p = do
    q ← set_field allowed key v p
    set_fields allowed rest q

  -- `_apply`; the conversions stand before its `try`, so where one raises, so does `resolve`.
  unfoldable pub apply_override : PoolConfig → Dict Text V → Option PoolConfig
  unfolding set_fields tunable_fields
  apply_override base fields = set_fields tunable_fields fields base

  -- The pools of the file, and the rows that are left.
  unfoldable pub resolve_base :
      List PoolConfig → Dict Text (Override V) → Option (List PoolConfig × Dict Text (Override V))
  unfolding apply_override get remove ◌>>=◌
  resolve_base [] rows = some ([], rows)
  resolve_base (base ∷ rest) rows = elim (get base.name rows) [
    | none ↦ do (pools, left) ← resolve_base rest (remove base.name rows); some (base ∷ pools, left)
    | some row ↦ if row.disabled then resolve_base rest (remove base.name rows) else (do
      p ← apply_override base row.fields
      (pools, left) ← resolve_base rest (remove base.name rows)
      some (p ∷ pools, left))
  ]

  module _ (getenv : Text → Text) where
    abbrev pub pat_variable : Dict Text V → Text
    pat_variable fields = elim (get (codes "pat_env") fields) [
      | none ↦ codes "GITHUB_PAT"
      | some v ↦ as_text v
    ]

    abbrev pub if_valid : List (Text × Problem) → PoolConfig → Option PoolConfig
    if_valid [] p = some p
    if_valid (e ∷ es) p = none

    -- `_build_ui_pool`: the inner option is the pool, if it is usable. A missing owner,
    -- where the constructor raises, is refused by the validation here.
    unfoldable pub build_ui_pool : Text → Dict Text V → Option (Option PoolConfig)
    unfolding get set_fields tunable_fields identity_fields validation_errors blank_pool ◌>>=◌
    build_ui_pool name fields =
        let pat = getenv (pat_variable fields) in
        if truthy pat
        then (do
          p ← set_fields (tunable_fields ++ identity_fields) fields (blank_pool name pat)
          some (if_valid (validation_errors (p ∷ [])) p))
        else some none

    abbrev pub add_pool : Option PoolConfig → List PoolConfig → List PoolConfig
    add_pool none pools = pools
    add_pool (some p) pools = p ∷ pools

    unfoldable pub resolve_ui : Dict Text (Override V) → Option (List PoolConfig)
    unfolding build_ui_pool ◌>>=◌
    resolve_ui [] = some []
    resolve_ui ((name, row) ∷ rest) =
        if not row.from_ui || row.disabled then resolve_ui rest else (do
          made ← build_ui_pool name row.fields
          others ← resolve_ui rest
          some (add_pool made others))

    -- The pools of `resolve`.
    unfoldable pub resolve_pools :
        List PoolConfig → Dict Text (Override V) → Option (List PoolConfig)
    unfolding resolve_base resolve_ui ◌>>=◌
    resolve_pools base rows = do
      (pools, left) ← resolve_base base rows
      created ← resolve_ui left
      some (pools ++ created)

-- `_as_int`: a global override that is missing, no number or negative leaves the file's value.
unfoldable pub global_int : (Text → Option ℤ) → Dict Text Text → Text → ℤ → ℤ
unfolding get
global_int parse values key fallback = elim (get key values) [
  | none ↦ fallback
  | some raw ↦ elim (parse raw) [
    | none ↦ fallback
    | some n ↦ if leb_ℤ (pos 0) n then n else fallback
  ]
]
