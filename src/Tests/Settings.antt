-- ===== src/Tests/Settings.antt =====
-- The resolver at a concrete store.
use selfhosted_runner_swarm.Prelude.{◌≡◌, refl, true, false, Option, some, [], ◌∷◌, All}
use selfhosted_runner_swarm.Prelude.Int.{ℤ, pos}
use selfhosted_runner_swarm.Prelude.Text.{Text, codes, text_eq, lower, starts_with}
use selfhosted_runner_swarm.Prelude.Dict.{Dict, get, remove}
use selfhosted_runner_swarm.Config.Size.{work_tmpfs_enabled, parse_size, effective_work_tmpfs_size}
use selfhosted_runner_swarm.Config.Validation.{validation_errors}
use selfhosted_runner_swarm.Resolver.{
  Override, set_int, tunable_fields, set_field, set_fields, apply_override, resolve_base,
  resolve_ui, resolve_pools, blank_pool, build_ui_pool, identity_fields, set_text, ◌>>=◌,
}
use selfhosted_runner_swarm.Resolver.Identity.{IfGiven}
use selfhosted_runner_swarm.Resolver.Pools.{Known, resolve_pools-Known}
use selfhosted_runner_swarm.Tests.Samples.{ci_pool}

abbrev number : ℤ → Option ℤ
number n = some n

abbrev printed : ℤ → Text
printed n = codes "1"

abbrev variable : Text → Text
variable name = codes "token"

abbrev raised : Override ℤ
raised = record {
  from_ui = false;
  disabled = false;
  fields = (codes "max_runners", pos 7) ∷ (codes "pat", pos 0) ∷ [];
}

abbrev created : Override ℤ
created = record { from_ui = true; disabled = false; fields = (codes "owner", pos 0) ∷ [] }

abbrev stored : Dict Text (Override ℤ)
stored = (ci_pool.name, raised) ∷ (codes "new", created) ∷ []

in_force :
    resolve_pools number number printed variable (ci_pool ∷ []) stored
    ≡ some (
        record ci_pool { max_runners = pos 7 }
        ∷ record (blank_pool (codes "new") (codes "token")) { owner = codes "1" }
        ∷ [])
unfolding resolve_pools resolve_base resolve_ui apply_override set_fields set_field tunable_fields
    set_int set_text identity_fields build_ui_pool blank_pool validation_errors parse_size
    starts_with work_tmpfs_enabled effective_work_tmpfs_size lower get remove text_eq ◌>>=◌
in_force = refl

resolve_pools-Known_example :
    IfGiven
      (All (Known (ci_pool ∷ [])))
      (resolve_pools number number printed variable (ci_pool ∷ []) stored)
resolve_pools-Known_example =
    resolve_pools-Known number number printed variable (ci_pool ∷ []) stored
