-- ===== src/Server/Control/Runners.antt =====
-- Stopping and starting runners over HTTP: `stop_container`, `restart_container`, `scale_pool`,
-- `_stop` and `_idle_container` of orchestrator/rorch/server/control_routes.py.
use selfhosted_runner_swarm.Prelude.{
  ℕ, zero, suc, Bool, true, false, not, ◌&&◌, Option, none, some, List, [], ◌∷◌, ◌++◌, keep, ltb,
  if◌then◌else◌,
}
use selfhosted_runner_swarm.Prelude.Int.{ℤ, pos, negsuc}
use selfhosted_runner_swarm.Prelude.Text.{Text, codes}
use selfhosted_runner_swarm.Prelude.Dict.{Dict, get, text_key}
use selfhosted_runner_swarm.Server.Access.{is_runner_container}
use selfhosted_runner_swarm.Config.{PoolConfig, container_prefix}
use selfhosted_runner_swarm.Resolver.{pool_named}
use selfhosted_runner_swarm.Docker.{Docker, Run}
use selfhosted_runner_swarm.Docker.Cleanup.{stop_container}
use selfhosted_runner_swarm.Docker.Details.{ContainerInfo, container_details}
use selfhosted_runner_swarm.Store.{Tables, audit}
use selfhosted_runner_swarm.Server.Control.{
  Json, Response, Refusal, done, refused, unknown_pool, no_runner_container, delta_not_an_integer,
  delta_out_of_range, no_idle_runner, runner_is_busy, note,
}
use selfhosted_runner_swarm.Server.Control.Pools.{pools_in_force}
use selfhosted_runner_swarm.Server.Control.Switches.{flag, python_bool}

-- A handler that also runs Docker commands, on a world of the type `W`.
abbrev pub Action : Type 0 → Type 0
Action W = Tables × W → Option Response × (Tables × W)

abbrev pub turn_down : {W : Type 0} → ℕ → Refusal → Action W
turn_down status why s = (some (refused status why), s)

-- `runner_status().get(name, {}).get("busy", False)`
unfoldable pub was_busy : Tables → Text → Bool
unfolding get
was_busy t name = elim (get name t.runner_status_rows) [ none ↦ false | some row ↦ row.busy ]

-- `max(candidates, key=…)`: the first of those that have run longest
unfoldable pub longest : ContainerInfo → List ContainerInfo → ContainerInfo
longest best [] = best
longest best (info ∷ rest) =
    let with_info = longest info rest in
    let with_best = longest best rest in
    if ltb best.seconds info.seconds then with_info else with_best

abbrev pub longest_of : List ContainerInfo → Option ContainerInfo
longest_of [] = none
longest_of (info ∷ rest) = some (longest info rest)

-- `_idle_container`, on the containers that are listed
unfoldable pub idle_container : Tables → List ContainerInfo → Option ContainerInfo
unfolding was_busy longest
idle_container t infos = longest_of (keep (λ info. not (was_busy t info.name)) infos)

module _ {V W : Type 0} (json : Json V) (getenv : Text → Text) (base : List PoolConfig)
    (float : Text → Option ℕ) (d : Docker W) (spawn : PoolConfig → Run W Bool) where
  -- `int(body.get("delta", 0))`
  unfoldable pub delta_in : Dict Text V → Option ℤ
  unfolding get
  delta_in body = elim (get (codes "delta") body) [ none ↦ some (pos 0) | some v ↦ json.as_int v ]

  abbrev pub status_of : Bool → ℕ
  status_of true = 200
  status_of false = 502

  unfoldable pub scale_up : ℕ → Text → Text → PoolConfig → Action W
  unfolding audit
  scale_up now actor name pool (t, w) =
      let (ok, after) = spawn pool w in
      (
        some (done (status_of ok)),
        (note json now actor (codes "scale_up") name (codes "manual +1") t, after),
      )

  abbrev pub stop_victim : ℕ → Text → Text → Option ContainerInfo → Action W
  stop_victim now actor name none s = turn_down 409 no_idle_runner s
  stop_victim now actor name (some victim) (t, w) = (
    some (done 200),
    (
      note json now actor (codes "scale_down") name (codes "stopped " ++ victim.name) t,
      (stop_container d victim.name w).1,
    ),
  )

  unfoldable pub scale_down : ℕ → Text → Text → PoolConfig → Action W
  unfolding container_prefix container_details idle_container stop_container audit
  scale_down now actor name pool (t, w) =
      let (infos, after) = container_details float d (container_prefix pool) w in
      stop_victim now actor name (idle_container t infos) (t, after)

  abbrev pub scale_by : ℕ → Text → Text → PoolConfig → Option ℤ → Action W
  scale_by now actor name pool none s = turn_down 400 delta_not_an_integer s
  scale_by now actor name pool (some (pos zero)) s = turn_down 400 delta_out_of_range s
  scale_by now actor name pool (some (pos (suc zero))) s = scale_up now actor name pool s
  scale_by now actor name pool (some (pos (suc (suc n)))) s = turn_down 400 delta_out_of_range s
  scale_by now actor name pool (some (negsuc zero)) s = scale_down now actor name pool s
  scale_by now actor name pool (some (negsuc (suc n))) s = turn_down 400 delta_out_of_range s

  abbrev pub scale_named : ℕ → Text → Text → Dict Text V → Option PoolConfig → Action W
  scale_named now actor name body none s = turn_down 404 (unknown_pool name) s
  scale_named now actor name body (some pool) s = scale_by now actor name pool (delta_in body) s

  abbrev pub scale_among : ℕ → Text → Text → Dict Text V → Option (List PoolConfig) → Action W
  scale_among now actor name body none s = (none, s)
  scale_among now actor name body (some pools) s =
      scale_named now actor name body (pool_named name pools) s

  unfoldable pub scale_pool : ℕ → Text → Text → Dict Text V → Action W
  unfolding pools_in_force pool_named delta_in scale_up scale_down
  scale_pool now actor name body s =
      scale_among now actor name body (pools_in_force json getenv base s.0) s

  abbrev pub reason_in : Dict Text V → Text
  reason_in body = elim (get (codes "reason") body) [ none ↦ [] | some v ↦ json.as_text v ]

  -- `_stop`; the action is `stop` or `restart`.
  unfoldable pub stop_runner : Text → ℕ → Text → Text → Dict Text V → Action W
  unfolding is_runner_container was_busy flag get stop_container audit
  stop_runner action now actor name body (t, w) =
      if not (is_runner_container name)
      then turn_down 400 no_runner_container (t, w)
      else if was_busy t name && not (flag json (codes "confirm") false body)
      then turn_down 409 runner_is_busy (t, w)
      else (
        some (done 200),
        (
          note json now actor action name
              (codes "busy="
                ++ (python_bool (was_busy t name) ++ (codes " reason=" ++ reason_in body)))
              t,
          (stop_container d name w).1,
        ),
      )
