-- ===== src/Docker/Spawn/Command.antt =====
-- The name of a new runner's container, and which listings and sweeps it is matched by.
use mathlib.Core.List.{append_assoc}
use selfhosted_runner_swarm.Prelude.{
  ℕ, ◌≡◌, refl, subst, Bool, true, false, List, ◌++◌, Bool-cases, inl, inr,
}
use selfhosted_runner_swarm.Prelude.Int.{ℤ}
use selfhosted_runner_swarm.Prelude.Text.{Text, codes, starts_with, starts_with-append, truthy}
use selfhosted_runner_swarm.Config.{PoolConfig, container_prefix}
use selfhosted_runner_swarm.Docker.{Docker}
use selfhosted_runner_swarm.Docker.Names.{is_protected, is_ci_container}
use selfhosted_runner_swarm.Docker.Spawn.{new_name}

container_prefix-starts :
    (pool : PoolConfig) (s : Text)
    → starts_with (container_prefix pool ++ s) (codes "gh-runner-") ≡ true
unfolding container_prefix starts_with
container_prefix-starts pool s = elim (Bool-cases (truthy pool.instance_name)) [
  | inl e ↦ rw e refl
  | inr e ↦ rw e refl
]

module _ {W : Type 0} (d : Docker W) (print_cpus : ℤ → Text) (version : Text) (gid : ℕ)
    (has_context : Bool) where
  -- The name of every new container begins with its pool's prefix and a dash, by which the pool's
  -- own listings and sweeps find it, and no sweep for leftovers of CI jobs takes the container,
  -- whatever its networks, its labels and the configured patterns.
  pub new_name-own :
      (fnmatch : Text → Text → Bool) (patterns : List Text) (pool : PoolConfig)
      (uid networks labels : Text)
      → (starts_with
            (new_name print_cpus d version gid has_context pool uid)
            (container_prefix pool ++ codes "-")
          ≡ true)
        × (is_ci_container fnmatch patterns
              (new_name print_cpus d version gid has_context pool uid)
              networks
              labels
            ≡ false)
  unfolding new_name is_ci_container is_protected
  new_name-own fnmatch patterns pool uid networks labels = (
    subst (λ name. starts_with name (container_prefix pool ++ codes "-") ≡ true)
        (append_assoc (container_prefix pool) (codes "-") uid)
        (starts_with-append (container_prefix pool ++ codes "-") uid),
    rw (container_prefix-starts pool (codes "-" ++ uid)) refl,
  )
