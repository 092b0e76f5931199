-- ===== src/Server/Control/Requests.antt =====
-- The edits that come in over HTTP, one after another: those of the configuration hold
-- `config_lock` (`serialized` of orchestrator/rorch/server/auth.py) while they run.
use selfhosted_runner_swarm.Prelude.{ℕ, Option, List, [], ◌∷◌}
use selfhosted_runner_swarm.Prelude.Text.{Text}
use selfhosted_runner_swarm.Prelude.Dict.{Dict}
use selfhosted_runner_swarm.Config.{PoolConfig}
use selfhosted_runner_swarm.Store.{Tables}
use selfhosted_runner_swarm.Server.Control.{Json, Response}
use selfhosted_runner_swarm.Server.Control.Pools.{patch_pool, reset_pool, create_pool, remove_pool}
use selfhosted_runner_swarm.Server.Control.Switches.{
  protect_container, global_pause, set_pool_state_over, patch_globals,
}

-- One constructor per route, with the name in its path and its body.
pub data Edit (V : Type 0) : Type 0 where
  patch : Text → Dict Text V → Edit V
  reset : Text → Edit V
  create : Dict Text V → Edit V
  delete : Text → Edit V
  protect : Text → Dict Text V → Edit V
  set_state : Text → Dict Text V → Edit V
  pause globals : Dict Text V → Edit V

-- When it arrives, and from whom.
pub record Request (V : Type 0) : Type 0 where
  pub now : ℕ
  pub actor : Text
  pub edit : Edit V

module _ {V : Type 0} (json : Json V) (getenv : Text → Text) (base : List PoolConfig) where
  unfoldable pub handle : Request V → Tables → Option Response × Tables
  unfolding patch_pool reset_pool create_pool remove_pool protect_container set_pool_state_over
      global_pause patch_globals
  handle r t = elim r.edit [
    | patch name body ↦ patch_pool json getenv base r.now r.actor name body t
    | reset name ↦ reset_pool json getenv base r.now r.actor name t
    | create body ↦ create_pool json getenv base r.now r.actor body t
    | delete name ↦ remove_pool json getenv base r.now r.actor name t
    | protect name body ↦ protect_container json r.now r.actor name body t
    | set_state name body ↦ set_pool_state_over json getenv base r.now r.actor name body t
    | pause body ↦ global_pause json r.now r.actor body t
    | globals body ↦ patch_globals json getenv base r.now r.actor body t
  ]

  unfoldable pub handle_all : List (Request V) → Tables → Tables
  unfolding handle
  handle_all [] t = t
  handle_all (r ∷ rs) t = handle_all rs (handle r t).1
