-- ===== src/Tests/Ticks.antt =====
-- A tick of an organization's pool and one of a personal account.
use selfhosted_runner_swarm.Prelude.{true, ℕ, false, ◌≡◌, ◌≤◌, refl, length, arith}
use selfhosted_runner_swarm.Prelude.Text.{text_eq}
use selfhosted_runner_swarm.Prelude.Dict.{get}
use selfhosted_runner_swarm.Scaler.Types.{PoolState}
use selfhosted_runner_swarm.Scaler.State.{Services, Scene, returned, raised, rate_limited, failed}
use selfhosted_runner_swarm.Scaler.Tick.{scan, tick}
use selfhosted_runner_swarm.Scaler.Tick.Schedule.{begun, rate_limit_defers}
use selfhosted_runner_swarm.Scaler.Tick.Draining.{changed, draining_never_spawns}
use selfhosted_runner_swarm.Scaler.Repositories.{
  get_personal_repositories, max_repository_cache_entries,
}
use selfhosted_runner_swarm.Scaler.Repositories.Bounded.{cache_bounded}
use selfhosted_runner_swarm.Scaler.Tick.Balance.Whole.{tick_releases_what_it_reserves}
use selfhosted_runner_swarm.Tests.Samples.{
  ci_pool, personal_pool, services, digest, opening, active, site_ne_blog,
}

-- The two queued jobs get a runner each.
spawns_two : (tick services digest ci_pool active 100 1000 opening).1.world ≡ 2
unfolding tick text_eq
spawns_two = refl

-- Two repositories with two queued jobs each, and room for three runners under the caps.
spawns_three : (tick services digest personal_pool active 100 1000 opening).1.world ≡ 3
unfolding tick text_eq
spawns_three = refl

tick_releases_what_it_reserves_example :
    (tick services digest personal_pool active 100 1000 opening).1.scaler.reserved_spawns ≡ 2
unfolding get
tick_releases_what_it_reserves_example =
    tick_releases_what_it_reserves services digest (λ pool world. ((site_ne_blog, tt), (tt, tt)))
      personal_pool active 100 1000 opening tt

cache_bounded_example :
    length
      (get_personal_repositories services digest personal_pool 100
        opening).1.scaler.repository_cache
    ≤ max_repository_cache_entries
cache_bounded_example = cache_bounded services digest personal_pool 100 opening (omega arith)

-- The forge is at its limit until 1050.
abbrev limited : Services ℕ
limited = record services { get_queued_count = λ pool w. (raised (rate_limited 1050), w) }

abbrev limited_end : Scene ℕ
limited_end = (scan limited digest ci_pool 100 false (begun limited digest ci_pool 100 opening)).1

rate_limit_defers_example :
    tick limited digest ci_pool active 149 1049
      (tick limited digest ci_pool active 100 1000 opening).1
    ≡ (returned tt, (tick limited digest ci_pool active 100 1000 opening).1)
unfolding scan text_eq get
rate_limit_defers_example =
    rate_limit_defers limited digest ci_pool active active 100 1000 1050 149 1049 opening
      limited_end refl refl refl (omega arith)

abbrev draining : PoolState
draining = record { paused = false; draining = true }

draining_never_spawns_example :
    tick
      (changed services (λ pool w. (raised failed, w)))
      digest
      personal_pool
      draining
      100
      1000
      opening
    ≡ tick services digest personal_pool draining 100 1000 opening
draining_never_spawns_example =
    draining_never_spawns services (λ pool w. (raised failed, w)) digest personal_pool draining 100
      1000 opening refl
