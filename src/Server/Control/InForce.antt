-- ===== src/Server/Control/InForce.antt =====
-- What the edits of the control API keep true of the pools in force:
-- orchestrator/rorch/server/control_routes.py with resolver.py and store.py.
use selfhosted_runner_swarm.Prelude.{
  All-mono, ◌≡◌, sym, subst, none, some, List, [], ◌∷◌, ℕ, All, All-map,
}
use selfhosted_runner_swarm.Prelude.Text.{Text}
use selfhosted_runner_swarm.Prelude.Dict.{Dict, text_key}
use selfhosted_runner_swarm.Config.{PoolConfig}
use selfhosted_runner_swarm.Resolver.{pool_named}
use selfhosted_runner_swarm.Resolver.Pools.{Valid}
use selfhosted_runner_swarm.Resolver.Returns.{Gives, Fits, Builds, resolve_pools-Gives}
use selfhosted_runner_swarm.Store.{Tables, pool_overrides, audit, set_global}
use selfhosted_runner_swarm.Server.Control.{Json, as_override, overlay}
use selfhosted_runner_swarm.Server.Control.Pools.{pools_in_force, name_in}
use selfhosted_runner_swarm.Server.Control.Switches.{global_pause, set_pool_state_over}
use selfhosted_runner_swarm.Server.Control.Requests.{
  Edit, patch, reset, create, delete, protect, set_state, pause, globals, Request, handle,
  handle_all,
}
use selfhosted_runner_swarm.Server.Control.Safe.{Good, Safe, pool_overrides-Good}
use selfhosted_runner_swarm.Server.Control.Kept.{
  SafeTables, patch_pool-Safe, create_pool-Safe, reset_pool-Safe, remove_pool-Safe,
  protect_container-Safe, state_among-Safe, patch_globals-Safe,
}

module _ {V : Type 0} (json : Json V)
    (reads_back : (d : Dict Text V) → json.loads (json.dumps d) ≡ some d) (getenv : Text → Text)
    (base : List PoolConfig) where
  -- The name of a pool that the request creates is none of the file's.
  abbrev pub IsNew : Edit V → Type 0
  IsNew (patch name body) = Unit
  IsNew (reset name) = Unit
  IsNew (create body) = pool_named (name_in json getenv base body) base ≡ none
  IsNew (delete name) = Unit
  IsNew (protect name body) = Unit
  IsNew (set_state name body) = Unit
  IsNew (pause body) = Unit
  IsNew (globals body) = Unit

  edit-Safe :
      (now : ℕ) (actor : Text) (edit : Edit V) (t : Tables)
      → IsNew edit
      → SafeTables json reads_back getenv base t
      → SafeTables json reads_back getenv base
          (handle json getenv base (record { now = now; actor = actor; edit = edit }) t).1
  unfolding handle global_pause set_global audit set_pool_state_over
  edit-Safe now actor (patch name body) t new h =
      patch_pool-Safe json reads_back getenv base now actor name body t h
  edit-Safe now actor (reset name) t new h =
      reset_pool-Safe json reads_back getenv base now actor name t h
  edit-Safe now actor (create body) t new h =
      create_pool-Safe json reads_back getenv base now actor body t new h
  edit-Safe now actor (delete name) t new h =
      remove_pool-Safe json reads_back getenv base now actor name t h
  edit-Safe now actor (protect name body) t new h =
      protect_container-Safe json reads_back getenv base now actor name body t h
  edit-Safe now actor (set_state name body) t new h =
      state_among-Safe json reads_back getenv base now actor name body
        (pools_in_force json getenv base t) t h
  edit-Safe now actor (pause body) t new h = h
  edit-Safe now actor (globals body) t new h =
      patch_globals-Safe json reads_back getenv base now actor body t h

  handle_all-Safe :
      (requests : List (Request V)) (t : Tables)
      → All (λ r. IsNew r.edit) requests
      → SafeTables json reads_back getenv base t
      → SafeTables json reads_back getenv base (handle_all json getenv base requests t)
  unfolding handle_all
  handle_all-Safe [] t new h = h
  handle_all-Safe (r ∷ rs) t new h =
      handle_all-Safe rs (handle json getenv base r t).1 new.1
        (edit-Safe r.now r.actor r.edit t new.0 h)

  overlay-Good :
      (t : Tables)
      → SafeTables json reads_back getenv base t
      → All (Good json getenv base) (overlay json t.pool_override_rows)
  unfolding overlay
  overlay-Good t h =
      All-map (Good json getenv base) as_override (pool_overrides json.loads t.pool_override_rows)
        (pool_overrides-Good json getenv base t.pool_override_rows h)

  -- Where the pools of the file pass validation and JSON reads back what it writes: after any
  -- requests to the control API, starting from a store without overrides, in which no pool is created
  -- under a name of the file, the configuration resolves, and each pool in force passes validation.
  pub handle_all-Valid :
      (requests : List (Request V)) (t : Tables)
      → All Valid base
      → All (λ r. IsNew r.edit) requests
      → t.pool_override_rows ≡ []
      → Gives (All Valid) (pools_in_force json getenv base (handle_all json getenv base requests t))
  unfolding pools_in_force
  handle_all-Valid requests t valid new empty =
      resolve_pools-Gives json.as_int json.as_float json.as_text getenv base
        (overlay json after.pool_override_rows) valid
        (All-mono (Good json getenv base) (Fits json.as_int json.as_float json.as_text getenv base)
          (λ e g. g.0) (overlay json after.pool_override_rows) good)
        (All-mono (Good json getenv base) (Builds json.as_int json.as_float json.as_text getenv)
          (λ e g. g.1) (overlay json after.pool_override_rows) good)
    where
      after : Tables
      after = handle_all json getenv base requests t

      good : All (Good json getenv base) (overlay json after.pool_override_rows)
      good =
          overlay-Good after
            (handle_all-Safe requests t new (subst (Safe json getenv base) (sym empty) tt))
