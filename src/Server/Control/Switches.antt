-- ===== src/Server/Control/Switches.antt =====
-- The switches of the control API: `protect_container`, `set_pool_state`, `global_pause` and
-- `patch_globals` of orchestrator/rorch/server/control_routes.py.
use selfhosted_runner_swarm.Prelude.{
  ℕ, Bool, true, false, not, Option, none, some, List, [], ◌∷◌, ◌++◌, map, keep, if◌then◌else◌,
}
use selfhosted_runner_swarm.Prelude.Int.{pos, negsuc}
use selfhosted_runner_swarm.Prelude.Text.{Text, codes, is, show}
use selfhosted_runner_swarm.Prelude.Sort.{sorted, text_leb}
use selfhosted_runner_swarm.Prelude.Dict.{Dict, get, member, text_key}
use selfhosted_runner_swarm.Server.Access.{is_runner_container}
use selfhosted_runner_swarm.Resolver.{pool_named}
use selfhosted_runner_swarm.Config.{PoolConfig}
use selfhosted_runner_swarm.Config.Validation.{is_none}
use selfhosted_runner_swarm.Scaler.Types.{PoolState}
use selfhosted_runner_swarm.Store.{Tables, set_protected, set_pool_state, set_global, audit}
use selfhosted_runner_swarm.Server.Control.{
  Json, Refusal, not_editable, unknown_pool, not_an_integer, negative, no_runner_container,
  Response, done, Handler, refuse, is_empty, note,
}
use selfhosted_runner_swarm.Server.Control.Pools.{pools_in_force}

abbrev pub global_keys : List Text
global_keys = codes "max_total_runners" ∷ codes "max_runner_lifetime" ∷ codes "paused" ∷ []

unfoldable pub unknown_globals : {V : Type 0} → Dict Text V → List Text
unfolding member
unknown_globals body =
    sorted text_leb (keep (λ key. not (member key global_keys)) (map (λ e. e.0) body))

abbrev pub flag_text : Bool → Text
flag_text true = codes "1"
flag_text false = codes "0"

abbrev pub python_bool : Bool → Text
python_bool true = codes "True"
python_bool false = codes "False"

module _ {V : Type 0} (json : Json V) where
  -- `bool(body.get(key, default))`
  unfoldable pub flag : Text → Bool → Dict Text V → Bool
  unfolding get
  flag key default body = elim (get key body) [ none ↦ default | some v ↦ json.is_true v ]

  unfoldable pub protect_container : ℕ → Text → Text → Dict Text V → Handler
  unfolding is_runner_container flag set_protected audit
  protect_container now actor name body t =
      if not (is_runner_container name)
      then refuse 400 no_runner_container t
      else (let protected = flag (codes "protected") true body in
          (
            some (done 200),
            note json now actor (if protected then codes "protect" else codes "unprotect") name []
                (set_protected now name protected t),
          ))

  unfoldable pub global_pause : ℕ → Text → Dict Text V → Handler
  unfolding flag set_global audit
  global_pause now actor body t =
      let paused = flag (codes "paused") true body in
      (
        some (done 200),
        note json now actor (codes "global_pause") [] (python_bool paused)
            (set_global (codes "paused") (flag_text paused) t),
      )

  -- The loop of `patch_globals`: what is refused, and the tables as they are then.
  unfoldable pub set_globals : Dict Text V → Tables → Option Refusal × Tables
  unfolding set_global show
  set_globals [] t = (none, t)
  set_globals ((key, v) ∷ rest) t =
      if is key "paused"
      then set_globals rest (set_global key (flag_text (json.is_true v)) t)
      else elim (json.as_int v) [
        | none ↦ (some (not_an_integer key), t)
        | some n ↦ elim n [
          | negsuc m ↦ (some (negative key), t)
          | pos m ↦ set_globals rest (set_global key (show m) t)
        ]
      ]

  module _ (getenv : Text → Text) (base : List PoolConfig) where
    -- `resolve().state_for(name)`
    unfoldable pub state_for : Text → Tables → PoolState
    unfolding get
    state_for name t = elim (get name t.pool_state_rows) [
      | none ↦ record { paused = false; draining = false }
      | some state ↦ state
    ]

    abbrev pub state_among : ℕ → Text → Text → Dict Text V → Option (List PoolConfig) → Handler
    state_among now actor name body none t = (none, t)
    state_among now actor name body (some pools) t =
        if is_none (pool_named name pools)
        then refuse 404 (unknown_pool name) t
        else (let current = state_for name t in
            let paused = flag (codes "paused") current.paused body in
            let draining = flag (codes "draining") current.draining body in
            (
              some (done 200),
              note json now actor (codes "pool_state") name
                  (codes "paused="
                    ++ (python_bool paused ++ (codes " draining=" ++ python_bool draining)))
                  (set_pool_state name (record { paused = paused; draining = draining }) t),
            ))

    unfoldable pub set_pool_state_over : ℕ → Text → Text → Dict Text V → Handler
    unfolding pools_in_force pool_named state_for flag set_pool_state audit
    set_pool_state_over now actor name body t =
        state_among now actor name body (pools_in_force json getenv base t) t

    -- The answer holds the limits in force, so it is made only if they resolve.
    abbrev pub globals_answer :
        ℕ → Text → Dict Text V → Option Refusal × Tables → Option Response × Tables
    globals_answer now actor body (some why, t) = refuse 400 why t
    globals_answer now actor body (none, t) =
        let noted = note json now actor (codes "config_globals") [] (json.dumps body) t in
        (
          elim (pools_in_force json getenv base noted) [
            | none ↦ none
            | some pools ↦ some (done 200)
          ],
          noted,
        )

    unfoldable pub patch_globals : ℕ → Text → Dict Text V → Handler
    unfolding set_globals pools_in_force audit unknown_globals
    patch_globals now actor body t =
        if not (is_empty (unknown_globals body))
        then refuse 400 (not_editable (unknown_globals body)) t
        else globals_answer now actor body (set_globals body t)
