-- ===== src/Tests/Configs.antt =====
-- Validation, labels, sizes and warnings at concrete pools.
use selfhosted_runner_swarm.Prelude.{
  ◌≡◌, ◌↔◌, ◌⊎◌, ◌/◌, ◌*◌, ◌^◌, refl, true, some, [], ◌∷◌, All, inl, inr, arith,
}
use selfhosted_runner_swarm.Prelude.Text.{codes, text_eq, starts_with}
use selfhosted_runner_swarm.Config.{PoolConfig, for_repository, container_prefix}
use selfhosted_runner_swarm.Config.Labels.{serves_labels, Carries, serves_labels_iff}
use selfhosted_runner_swarm.Config.Size.{work_tmpfs_enabled, parse_size, effective_work_tmpfs_size}
use selfhosted_runner_swarm.Config.Size.Auto.{auto_size_reads_back}
use selfhosted_runner_swarm.Config.Validation.{validation_errors}
use selfhosted_runner_swarm.Config.Usable.{IsUsable, truthy-ne-nil}
use selfhosted_runner_swarm.Config.Usable.Errors.{
  validation_errors_iff, for_repository-validation_errors,
}
use selfhosted_runner_swarm.Config.Warnings.{validation_warnings}
use selfhosted_runner_swarm.Config.Warnings.Overlap.{Claims-one_prefix}
use selfhosted_runner_swarm.Tests.Samples.{ci_pool, personal_pool}

accepted : validation_errors (ci_pool ∷ personal_pool ∷ []) ≡ []
unfolding validation_errors parse_size starts_with text_eq work_tmpfs_enabled
    effective_work_tmpfs_size
accepted = refl

validation_errors_iff_example :
    (validation_errors (ci_pool ∷ personal_pool ∷ []) ≡ [])
    ↔ All IsUsable (ci_pool ∷ personal_pool ∷ [])
validation_errors_iff_example = validation_errors_iff (ci_pool ∷ personal_pool ∷ [])

for_repository-validation_errors_example :
    validation_errors (for_repository personal_pool (codes "site") ∷ []) ≡ []
unfolding validation_errors parse_size starts_with text_eq work_tmpfs_enabled
    effective_work_tmpfs_size
for_repository-validation_errors_example =
    for_repository-validation_errors personal_pool (codes "site")
      (truthy-ne-nil (codes "site") refl) refl

serves_labels_iff_example :
    (serves_labels ci_pool (codes "Linux" ∷ codes "docker" ∷ []) ≡ true)
    ↔ All (Carries ci_pool) (codes "Linux" ∷ codes "docker" ∷ [])
serves_labels_iff_example = serves_labels_iff ci_pool (codes "Linux" ∷ codes "docker" ∷ [])

auto_size_reads_back_example :
    parse_size (effective_work_tmpfs_size ci_pool) ≡ some (2 * 1024 ^ 3 / 2 / 1024 ^ 2 * 1024 ^ 2)
unfolding parse_size text_eq
auto_size_reads_back_example = auto_size_reads_back ci_pool (2 * 1024 ^ 3) refl refl (ground arith)

abbrev spaced : PoolConfig
spaced = record ci_pool { name = codes "build box" }

abbrev dashed : PoolConfig
dashed = record ci_pool { name = codes "build-box" }

-- Two names and one prefix: no warning is given.
Claims-one_prefix_example :
    (spaced.name ≡ dashed.name) ⊎ (container_prefix spaced ≡ container_prefix dashed)
unfolding validation_warnings text_eq starts_with
Claims-one_prefix_example =
    Claims-one_prefix (spaced ∷ dashed ∷ []) spaced dashed (codes "gh-runner-build-box-0a1b2c3d")
      refl (inl refl) (inr (inl refl)) refl refl
