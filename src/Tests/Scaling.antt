-- ===== src/Tests/Scaling.antt =====
-- The spawn count, the global cap and the shares at concrete inputs.
use selfhosted_runner_swarm.Prelude.{
  ◌+◌, ◌≡◌, ◌≤◌, ◌<◌, refl, min, max, none, some, [], ◌∷◌, sum_by, arith, inl, inr,
}
use selfhosted_runner_swarm.Prelude.Int.{pos_part}
use selfhosted_runner_swarm.Prelude.Text.{codes}
use selfhosted_runner_swarm.Scaler.Types.{PoolInspection}
use selfhosted_runner_swarm.Scaler.Spawn.{calculate_spawn_count, spawn_reaches_target}
use selfhosted_runner_swarm.Scaler.Cap.{reserve_spawns}
use selfhosted_runner_swarm.Scaler.Cap.Threads.{
  Host, here, next, count, grant, idle_host, cap_holds,
}
use selfhosted_runner_swarm.Scaler.Share.{needed, repo_of, allotted, allocate}
use selfhosted_runner_swarm.Scaler.Share.Fair.{sum_by-allocate, allocate_even}
use selfhosted_runner_swarm.Tests.Samples.{ci_pool, repository_inspection, site_ne_blog}

abbrev site : PoolInspection
site = repository_inspection (codes "site") 4

abbrev blog : PoolInspection
blog = repository_inspection (codes "blog") 2

spawn_reaches_target_example :
    site.running + calculate_spawn_count ci_pool site
    ≡ max site.running (
        min
          (pos_part ci_pool.max_runners)
          (max (pos_part ci_pool.min_idle) (site.busy + site.queued)))
spawn_reaches_target_example = spawn_reaches_target ci_pool site

-- Of seven runners wanted five are granted, since three containers run under a cap of eight.
abbrev granted_host : Host
granted_host = record { running = 3; starting = 5; returned = 0; reserved = 5; counted = none }

cap_holds_example :
    (granted_host.running + granted_host.starting ≤ max 8 3)
    × (granted_host.reserved ≡ granted_host.starting + granted_host.returned)
unfolding reserve_spawns
cap_holds_example = cap_holds 8 3 granted_host (omega arith) (
    next (next here (count (idle_host 3) refl))
      (grant (record (idle_host 3) { counted = some 3 }) 3 7 refl))

sum_by-allocate_example :
    sum_by (λ i. allotted (allocate 3 (site ∷ blog ∷ [])) (repo_of i)) (site ∷ blog ∷ [])
    ≡ min 3 (sum_by needed (site ∷ blog ∷ []))
sum_by-allocate_example = sum_by-allocate 3 (site ∷ blog ∷ []) ((site_ne_blog, tt), (tt, tt))

allocate_even_example :
    (allotted (allocate 3 (site ∷ blog ∷ [])) (repo_of site) ≤ needed site)
    × (allotted (allocate 3 (site ∷ blog ∷ [])) (repo_of blog) < needed blog
        → allotted (allocate 3 (site ∷ blog ∷ [])) (repo_of site)
          ≤ allotted (allocate 3 (site ∷ blog ∷ [])) (repo_of blog) + 1)
allocate_even_example =
    allocate_even 3 (site ∷ blog ∷ []) ((site_ne_blog, tt), (tt, tt)) site blog (inl refl)
      (inr (inl refl))
