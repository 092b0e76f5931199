-- ===== src/Scaler/Tick/Balance/Whole.antt =====
-- The balance of a whole tick.
use selfhosted_runner_swarm.Prelude.{
  sym, subst, ℕ, zero, suc, ◌≡◌, refl, ◌∙◌, Bool, Option, none, some, List, arith, Distinct,
  Bool-cases, inl, inr,
}
use selfhosted_runner_swarm.Prelude.Int.{ℤ, pos, negsuc}
use selfhosted_runner_swarm.Prelude.Text.{Text}
use selfhosted_runner_swarm.Prelude.Dict.{get}
use selfhosted_runner_swarm.Scaler.State.{
  update, Services, Scene, Outcome, returned, raised, rate_limited, failed, call, fetch, go_on,
  ScalerState, cache_key_key, ◌>>=◌, ◌>>◌,
}
use selfhosted_runner_swarm.Config.{PoolConfig, is_personal_level}
use selfhosted_runner_swarm.Config.Validation.{is_zero}
use selfhosted_runner_swarm.Scaler.Types.{PoolState, RepositoryCacheEntry}
use selfhosted_runner_swarm.Scaler.Repositories.{
  get_personal_repositories, refresh, keep_answer, cached_or_none, is_fresh, cache_key,
}
use selfhosted_runner_swarm.Scaler.Tick.{
  tick_repositories, tick_personal, schedule_next, scan, after_scan, tick,
}
use selfhosted_runner_swarm.Scaler.Tick.Balance.Rules.{
  slots, Keeps, keeps_rules, IfReturned, slots-go_on-given,
}
use selfhosted_runner_swarm.Scaler.Tick.Balance.Cycles.{
  NamedOnce, CachedOnce, Keeps-tick_single, Keeps-tick_repositories,
}

abbrev Once : List Text → Type 0
Once = Distinct (λ name. name)

abbrev Scheduled : ScalerState → ScalerState → Type 0
Scheduled after before =
    (after.reserved_spawns ≡ before.reserved_spawns)
    × (after.repository_cache ≡ before.repository_cache)

module _ {W : Type 0} (s : Services W) (digest : Text → Text) where
  Keeps-keep_answer :
      (pool : PoolConfig) (now : ℕ) (cached : Option RepositoryCacheEntry)
      (answer : Option (List Text))
      → Keeps (keep_answer s digest pool now cached answer)
  unfolding keep_answer update ◌>>=◌ ◌>>◌
  Keeps-keep_answer pool now cached none = search keeps_rules
  Keeps-keep_answer pool now cached (some names) = record {
    at = λ scene. elim (Bool-cases (is_zero pool.repo_discovery_ttl)) [
      | inl e ↦ rw e refl
      | inr e ↦ rw e refl
    ];
  }

  Keeps-get_personal_repositories :
      (pool : PoolConfig) (now : ℕ) → Keeps (get_personal_repositories s digest pool now)
  unfolding get_personal_repositories refresh
  Keeps-get_personal_repositories pool now = search (keeps_rules, Keeps-keep_answer) depth 20

  Once-keep_answer :
      (pool : PoolConfig) (now : ℕ) (cached : Option RepositoryCacheEntry)
      (answer : Option (List Text)) (scene : Scene W)
      → CachedOnce cached
      → NamedOnce answer
      → IfReturned Once (keep_answer s digest pool now cached answer scene).0
  unfolding keep_answer update ◌>>=◌ ◌>>◌
  Once-keep_answer pool now none none scene c a = tt
  Once-keep_answer pool now (some e) none scene c a = c
  Once-keep_answer pool now cached (some names) scene c a =
      elim (Bool-cases (is_zero pool.repo_discovery_ttl)) [ inl e ↦ rw e a | inr e ↦ rw e a ]

  Once-cached_or_none :
      (cached : Option RepositoryCacheEntry) → CachedOnce cached → Once (cached_or_none cached)
  Once-cached_or_none none c = tt
  Once-cached_or_none (some e) c = c

  Once-answered :
      (pool : PoolConfig) (now : ℕ) (cached : Option RepositoryCacheEntry)
      → CachedOnce cached
      → (r : Outcome (Option (List Text)) × Scene W) → IfReturned NamedOnce r.0
      → IfReturned Once (go_on (keep_answer s digest pool now cached) r).0
  Once-answered pool now cached c (returned answer, scene) a =
      Once-keep_answer pool now cached answer scene c a
  Once-answered pool now cached c (raised e, scene) a = tt

  module _
      (named_once : (pool : PoolConfig) (world : W)
        → IfReturned NamedOnce (s.list_repositories pool world).0) where
    Once-get_personal_repositories :
        (pool : PoolConfig) (now : ℕ) (scene : Scene W)
        → CachedOnce (get (cache_key s digest pool) scene.scaler.repository_cache)
        → IfReturned Once (get_personal_repositories s digest pool now scene).0
    unfolding get_personal_repositories refresh call fetch ◌>>=◌
    Once-get_personal_repositories pool now scene c =
        let cached = get (cache_key s digest pool) scene.scaler.repository_cache in
        elim (Bool-cases (is_fresh now cached)) [
          | inl e ↦ rw e (Once-cached_or_none cached c)
          | inr e ↦ rw e (
              Once-answered pool now cached c (call (s.list_repositories pool) scene)
                (named_once pool scene.world))
        ]

    slots-tick_personal :
        (pool : PoolConfig) (now : ℕ) (draining : Bool) (scene : Scene W)
        → CachedOnce (get (cache_key s digest pool) scene.scaler.repository_cache)
        → slots (tick_personal s digest pool now draining scene).1 ≡ slots scene
    unfolding tick_personal ◌>>=◌
    slots-tick_personal pool now draining scene c =
        slots-go_on-given Once (tick_repositories s pool draining)
          (Keeps-tick_repositories s pool draining)
          (get_personal_repositories s digest pool now scene)
          (Once-get_personal_repositories pool now scene c)
        ∙ (Keeps-get_personal_repositories pool now).at scene

    slots-scan :
        (pool : PoolConfig) (now : ℕ) (draining : Bool) (scene : Scene W)
        → CachedOnce (get (cache_key s digest pool) scene.scaler.repository_cache)
        → slots (scan s digest pool now draining scene).1 ≡ slots scene
    unfolding scan
    slots-scan pool now draining scene c = elim (Bool-cases (is_personal_level pool)) [
      | inl e ↦ rw e (slots-tick_personal pool now draining scene c)
      | inr e ↦ rw e ((Keeps-tick_single s pool draining).at scene)
    ]

    slots-after_scan :
        (pool : PoolConfig) (now wall : ℕ) (r : Outcome (Unit {0}) × Scene W)
        → slots (after_scan s digest pool now wall r).1 ≡ slots r.1
    unfolding after_scan
    slots-after_scan pool now wall (returned u, scene) = refl
    slots-after_scan pool now wall (raised failed, scene) = refl
    slots-after_scan pool now wall (raised (rate_limited at), scene) = refl

    schedule_next-Scheduled :
        (pool : PoolConfig) (now : ℕ) (interval : ℤ) (state : ScalerState)
        → Scheduled (schedule_next s digest pool now interval state) state
    unfolding schedule_next
    schedule_next-Scheduled pool now (pos zero) state = (refl, refl)
    schedule_next-Scheduled pool now (pos (suc n)) state = (refl, refl)
    schedule_next-Scheduled pool now (negsuc n) state = (refl, refl)

    -- Where the forge names each repository of an account once, and the cached entry of the account
    -- does too, a tick ends with as many spawn slots reserved as it began with: whatever it skips,
    -- spawns or deregisters, and whatever the services return or raise on the way.
    pub tick_releases_what_it_reserves :
        (pool : PoolConfig) (flags : PoolState) (now wall : ℕ) (scene : Scene W)
        → CachedOnce (get (cache_key s digest pool) scene.scaler.repository_cache)
        → (tick s digest pool flags now wall scene).1.scaler.reserved_spawns
          ≡ scene.scaler.reserved_spawns
    unfolding tick
    tick_releases_what_it_reserves pool flags now wall scene c =
        let begun : Scene W = record scene {
          scaler = schedule_next s digest pool now pool.github_poll_interval scene.scaler;
        } in
        let (same_slots, same_cache) =
          schedule_next-Scheduled pool now pool.github_poll_interval scene.scaler in
        ground (
          arith,
          same_slots,
          slots-after_scan pool now wall (scan s digest pool now flags.draining begun),
          slots-scan pool now flags.draining begun (
              subst (λ cache. CachedOnce (get (cache_key s digest pool) cache)) (sym same_cache) c),
        )
