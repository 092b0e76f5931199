-- ===== src/Scaler/Tick/Schedule.antt =====
-- When a pool whose scan met the rate limit scans again.
use selfhosted_runner_swarm.Prelude.{
  ℕ, ◌+◌, ◌-◌, ◌≤◌, ◌<◌, ◌≡◌, refl, sym, ap, subst, max, true, false, none, some, ltb, lt→ltb,
  arith, Bool-cases, inl, inr,
}
use selfhosted_runner_swarm.Prelude.Text.{Text}
use selfhosted_runner_swarm.Prelude.Dict.{get, put, get-put}
use selfhosted_runner_swarm.Config.{PoolConfig}
use selfhosted_runner_swarm.Scaler.Types.{PoolState}
use selfhosted_runner_swarm.Scaler.State.{
  Services, Scene, returned, raised, rate_limited, ScalerState, pool_key_eq_iff, pool_key_key,
}
use selfhosted_runner_swarm.Scaler.Tick.{
  pool_key, due_at, set_due, schedule_next, scan, after_scan, tick,
}

module _ {W : Type 0} (s : Services W) (digest : Text → Text) where
  due_at-set_due :
      (pool : PoolConfig) (at : ℕ) (state : ScalerState)
      → due_at s digest pool (set_due s digest pool at state) ≡ at
  due_at-set_due pool at state =
      let key = pool_key s digest pool in
      let found : get key (put key at state.next_poll_at) ≡ some at =
        rw (get-put key key at state.next_poll_at, (pool_key_eq_iff key key).1 refl) refl in
      ap (λ o. elim o [ none ↦ 0 | some a ↦ a ]) found

  early_tick :
      (pool : PoolConfig) (flags : PoolState) (now wall : ℕ) (scene : Scene W)
      → ltb now (due_at s digest pool scene.scaler) ≡ true
      → tick s digest pool flags now wall scene ≡ (returned tt, scene)
  unfolding tick
  early_tick pool flags now wall scene early = elim (Bool-cases flags.paused) [
    | inl e ↦ rw (tick, e) refl
    | inr e ↦ rw (tick, e, early) refl
  ]

  -- The scene in which the scan begins.
  abbrev pub begun : PoolConfig → ℕ → Scene W → Scene W
  begun pool now scene = record scene {
    scaler = schedule_next s digest pool now pool.github_poll_interval scene.scaler;
  }

  limited_tick :
      (pool : PoolConfig) (flags : PoolState) (now wall at : ℕ) (scene end : Scene W)
      → flags.paused ≡ false
      → ltb now (due_at s digest pool scene.scaler) ≡ false
      → scan s digest pool now flags.draining (begun pool now scene)
        ≡ (raised (rate_limited at), end)
      → tick s digest pool flags now wall scene
        ≡ after_scan s digest pool now wall (raised (rate_limited at), end)
  unfolding tick
  limited_tick pool flags now wall at scene end active due limit =
      rw (tick, active, due) (ap (after_scan s digest pool now wall) limit)

  due_after_limit :
      (pool : PoolConfig) (now wall at : ℕ) (end : Scene W)
      → now + max 1 (at - wall)
        ≤ due_at s digest pool
            (after_scan s digest pool now wall (raised (rate_limited at), end)).1.scaler
  unfolding after_scan
  due_after_limit pool now wall at end = omega (
    arith,
    due_at-set_due pool (max (due_at s digest pool end.scaler) (now + max 1 (at - wall)))
        end.scaler,
  )

  -- After a tick whose scan met the rate limit, every tick of the pool before the time at which the
  -- forge may be asked again, and within the next second in any case, returns at once and changes
  -- nothing.
  pub rate_limit_defers :
      (pool : PoolConfig) (flags flags' : PoolState) (now wall at later wall' : ℕ)
      (scene end : Scene W)
      → flags.paused ≡ false
      → ltb now (due_at s digest pool scene.scaler) ≡ false
      → scan s digest pool now flags.draining (begun pool now scene)
        ≡ (raised (rate_limited at), end)
      → later < now + max 1 (at - wall)
      → tick s digest pool flags' later wall' (tick s digest pool flags now wall scene).1
        ≡ (returned tt, (tick s digest pool flags now wall scene).1)
  rate_limit_defers pool flags flags' now wall at later wall' scene end active due limit early =
      early_tick pool flags' later wall' (tick s digest pool flags now wall scene).1 (
        lt→ltb later (due_at s digest pool (tick s digest pool flags now wall scene).1.scaler) (
          subst (λ r. later < due_at s digest pool r.1.scaler)
            (sym (limited_tick pool flags now wall at scene end active due limit))
            (omega (arith, due_after_limit pool now wall at end, early))))
