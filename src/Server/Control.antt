-- ===== src/Server/Control.antt =====
-- The control endpoints that edit the store, orchestrator/rorch/server/control_routes.py, with what
-- they share of deps.py and resolver.py. A handler gives a response, or nothing where it raises (the
-- server answers 500), and what it leaves in the tables. The body of a success repeats the request.
pub mod Pools
pub mod Switches
pub mod Requests
pub mod Steady
pub mod Safe
pub mod Kept
pub mod InForce
pub mod Refused
pub mod Runners
pub mod Longest
use selfhosted_runner_swarm.Prelude.{
  ℕ, Bool, true, false, not, ◌&&◌, ◌||◌, Option, none, some, List, [], ◌∷◌, map, keep,
  if◌then◌else◌,
}
use selfhosted_runner_swarm.Prelude.Int.{ℤ}
use selfhosted_runner_swarm.Prelude.Text.{Text, codes, is, text_eq}
use selfhosted_runner_swarm.Prelude.Sort.{sorted, text_leb}
use selfhosted_runner_swarm.Prelude.Dict.{Dict, get, member, text_key}
use selfhosted_runner_swarm.Config.{PoolConfig}
use selfhosted_runner_swarm.Config.Validation.{Problem}
use selfhosted_runner_swarm.Resolver.{Override}
use selfhosted_runner_swarm.Store.{OverrideRow, Tables, pool_overrides, audit}

-- JSON values: Python's `int`, `float`, `str` and `bool` of one, the values of numbers and texts,
-- and `json.loads` and `json.dumps` of an object.
pub record Json (V : Type 0) : Type 0 where
  pub as_int : V → Option ℤ
  pub as_float : V → Option ℤ
  pub as_text : V → Text
  pub is_true : V → Bool
  pub of_int : ℤ → V
  pub of_float : ℤ → V
  pub of_text : Text → V
  pub loads : Text → Option (Dict Text V)
  pub dumps : Dict Text V → Text

pub data Refusal : Type 0 where
  not_editable not_accepted : List Text → Refusal
  unknown_pool already_exists no_definition not_an_integer negative : Text → Refusal
  invalid_value unusable name_required no_runner_container delta_not_an_integer : Refusal
  delta_out_of_range no_idle_runner runner_is_busy : Refusal
  invalid_pool : List (Text × Problem) → Refusal

-- The status, and what the text of a refusal says.
pub data Response : Type 0 where
  done : ℕ → Response
  refused : ℕ → Refusal → Response

abbrev pub Handler : Type 0
Handler = Tables → Option Response × Tables

abbrev pub refuse : ℕ → Refusal → Handler
refuse status why t = (some (refused status why), t)

abbrev pub is_empty : {A : Type 0} → List A → Bool
is_empty [] = true
is_empty (x ∷ xs) = false

-- `TUNABLE_FIELDS`
abbrev pub tunable_names : List Text
tunable_names =
    codes "max_runners"
    ∷ codes "min_idle"
    ∷ codes "runner_labels"
    ∷ codes "runner_image"
    ∷ codes "memory_limit"
    ∷ codes "cpu_limit"
    ∷ codes "work_tmpfs_size"
    ∷ codes "repo_discovery_ttl"
    ∷ codes "github_poll_interval"
    ∷ codes "queued_min_age"
    ∷ codes "stuck_timeout"
    ∷ codes "repo_check_workers"
    ∷ codes "runner_operation_workers"
    ∷ codes "network_mode"
    ∷ codes "exclude_repos"
    ∷ []

-- `IDENTITY_FIELDS | {"pat_env"}`
abbrev pub identity_names : List Text
identity_names = codes "name" ∷ codes "owner" ∷ codes "repo" ∷ codes "scope" ∷ codes "pat_env" ∷ []

-- `unknown_fields`
unfoldable pub unknown_fields : {V : Type 0} → Bool → Dict Text V → List Text
unfolding member
unknown_fields allow_identity body = sorted text_leb (
    keep (λ key. not (member key tunable_names || (allow_identity && member key identity_names)))
      (map (λ e. e.0) body))

abbrev pub is_ui : OverrideRow → Bool
is_ui row = is row.origin "ui"

-- An entry of the store's `pool_overrides`, as the resolver reads it.
abbrev pub as_override : {V : Type 0} → Text × (Dict Text V × OverrideRow) → Text × Override V
as_override (name, (fields, row)) =
    (name, record { from_ui = is_ui row; disabled = row.disabled; fields = fields })

module _ {V : Type 0} (json : Json V) where
  -- The rows that the resolver starts from.
  unfoldable pub overlay : Dict Text OverrideRow → Dict Text (Override V)
  unfolding pool_overrides
  overlay rows = map as_override (pool_overrides json.loads rows)

  abbrev pub note : ℕ → Text → Text → Text → Text → Tables → Tables
  note now actor action target detail t =
      audit now (record { actor = actor; action = action; target = target; detail = detail }) t
