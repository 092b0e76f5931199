-- ===== src/Docker/Prune.antt =====
-- Images, build cache, networks and volumes that nothing uses, and a container's logs:
-- orchestrator/rorch/docker_client.py. `created` reads the time of creation, in whole seconds, from
-- what `docker volume inspect` prints; the workers of `_run_parallel` run one after another.
use selfhosted_runner_swarm.Prelude.{
  zero, suc, ℕ, ◌*◌, Bool, false, Option, none, some, List, [], ◌∷◌, ◌++◌, keep, max, min,
  if◌then◌else◌,
}
use selfhosted_runner_swarm.Prelude.Int.{ℤ, pos, negsuc, leb_ℤ, ◌-ℤ◌}
use selfhosted_runner_swarm.Prelude.Text.{Text, codes, truthy, split, show}
use selfhosted_runner_swarm.Docker.{Docker, Run, pure, capture, ◌>>=◌, ◌>>◌}
use selfhosted_runner_swarm.Docker.Cleanup.{newline}

module _ {W : Type 0} (d : Docker W) where
  -- The tail of a container's output, of 1 to 5000 lines.
  unfoldable pub container_logs : Text → ℤ → Run W Text
  unfolding show
  container_logs name (negsuc n) = d.logs (codes "--tail" ∷ codes "1" ∷ name ∷ [])
  container_logs name (pos n) = d.logs (codes "--tail" ∷ show (max 1 (min n 5000)) ∷ name ∷ [])

  abbrev pub run_only : List Text → Run W (Unit {0})
  run_only args w = (tt, (capture d args w).1)

  unfoldable pub prune_images : Text → Bool → Run W (Unit {0})
  unfolding capture
  prune_images until all_unused = run_only (
      codes "image"
      ∷ codes "prune"
      ∷ ((if all_unused then codes "-a" ∷ [] else [])
          ++ codes "-f"
            ∷ codes "--filter"
            ∷ (codes "until=" ++ until)
            ∷ codes "--filter"
            ∷ codes "label!=rorch.keep=true"
            ∷ []))

  unfoldable pub prune_build_cache : Text → Run W (Unit {0})
  unfolding capture
  prune_build_cache until = run_only (
      codes "builder"
      ∷ codes "prune"
      ∷ codes "-f"
      ∷ codes "--filter"
      ∷ (codes "until=" ++ until)
      ∷ [])

  unfoldable pub prune_networks : Text → Run W (Unit {0})
  unfolding capture
  prune_networks until = run_only (
      codes "network"
      ∷ codes "prune"
      ∷ codes "-f"
      ∷ codes "--filter"
      ∷ (codes "until=" ++ until)
      ∷ [])

  module _ (created : Text → Option ℤ) (now : ℤ) where
    -- Whether the answer about a volume shows an age of the given hours.
    unfoldable pub is_stale : ℕ → Text × ℕ → Bool
    unfolding ◌-ℤ◌
    is_stale hours (out, suc code) = false
    is_stale hours (out, zero) = elim (created out) [
      | none ↦ false
      | some at ↦ leb_ℤ (pos (hours * 3600)) (now -ℤ at)
    ]

    unfoldable pub stale_volumes : ℕ → List Text → Run W (List Text)
    unfolding capture is_stale ◌>>=◌
    stale_volumes hours [] = pure []
    stale_volumes hours (volume ∷ rest) = do
      answer ← capture d (codes "volume" ∷ codes "inspect" ∷ volume ∷ [])
      more ← stale_volumes hours rest
      pure (if is_stale hours answer then volume ∷ more else more)

    unfoldable pub remove_volumes : List Text → Run W (Unit {0})
    unfolding capture ◌>>◌
    remove_volumes [] = pure tt
    remove_volumes (volume ∷ rest) = do
      run_only (codes "volume" ∷ codes "rm" ∷ volume ∷ [])
      remove_volumes rest

    unfoldable pub prune_volumes : ℕ → Run W (Unit {0})
    unfolding capture split stale_volumes remove_volumes ◌>>=◌
    prune_volumes hours = do
      (out, code) ←
          capture d (
            codes "volume"
            ∷ codes "ls"
            ∷ codes "--filter"
            ∷ codes "dangling=true"
            ∷ codes "-q"
            ∷ [])
      stale ← stale_volumes hours (keep truthy (split newline out))
      remove_volumes stale
