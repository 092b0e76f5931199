-- ===== src/Config/Warnings.antt =====
-- `validation_warnings` of orchestrator/rorch/config.py. A message is the pool that it names and a
-- constructor for its text.
pub mod Overlap
use selfhosted_runner_swarm.Prelude.{
  ℕ, Bool, true, false, not, ◌&&◌, List, [], ◌∷◌, ◌++◌, if◌then◌else◌, concat_map, leb, Option,
  none, some, ◌==◌,
}
use selfhosted_runner_swarm.Prelude.Text.{Text, codes, text_eq, starts_with}
use selfhosted_runner_swarm.Prelude.Dict.{member, text_key}
use selfhosted_runner_swarm.Config.{PoolConfig, container_prefix}
use selfhosted_runner_swarm.Config.Size.{parse_size, work_tmpfs_enabled, effective_work_tmpfs_size}

pub data Warning : Type 0 where
  defined_twice tmpfs_not_below_memory : Warning
  prefix_matches : Text → Warning

-- The pool's own prefix, followed by a dash, begins another pool's prefix.
unfoldable pub overlaps : PoolConfig → PoolConfig → List (Text × Warning)
unfolding starts_with container_prefix
overlaps p other =
    if not (text_eq other.name p.name)
      && starts_with (container_prefix other) (container_prefix p ++ codes "-")
    then (p.name, prefix_matches other.name) ∷ []
    else []

-- `tmpfs and memory and tmpfs >= memory`
unfoldable pub fills_memory : Option ℕ → Option ℕ → Bool
fills_memory none memory = false
fills_memory (some tmpfs) none = false
fills_memory (some tmpfs) (some memory) =
    not (tmpfs == 0) && (not (memory == 0) && leb memory tmpfs)

unfoldable pub tmpfs_warning : PoolConfig → List (Text × Warning)
unfolding fills_memory parse_size work_tmpfs_enabled effective_work_tmpfs_size
tmpfs_warning p =
    let tmpfs : Option ℕ =
      if work_tmpfs_enabled p then parse_size (effective_work_tmpfs_size p) else none in
    if fills_memory tmpfs (parse_size p.memory_limit)
    then (p.name, tmpfs_not_below_memory) ∷ []
    else []

-- The loop over the pools, with the names already seen.
unfoldable pub warnings_from : List PoolConfig → List Text → List PoolConfig → List (Text × Warning)
unfolding overlaps tmpfs_warning member
warnings_from pools seen [] = []
warnings_from pools seen (p ∷ rest) =
    (if member p.name seen then (p.name, defined_twice) ∷ [] else [])
    ++ (concat_map (overlaps p) pools
        ++ (tmpfs_warning p ++ warnings_from pools (p.name ∷ seen) rest))

unfoldable pub validation_warnings : List PoolConfig → List (Text × Warning)
unfolding warnings_from
validation_warnings pools = warnings_from pools [] pools
