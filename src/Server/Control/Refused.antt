-- ===== src/Server/Control/Refused.antt =====
-- What a request to the control API leaves behind when it fails, and what it notes when it does not:
-- orchestrator/rorch/server/control_routes.py.
use selfhosted_runner_swarm.Prelude.{
  Empty, ◌≡◌, refl, Bool, true, false, not, ◌&&◌, Option, none, some, List, [], ◌∷◌, ◌++◌, ℕ,
  if◌then◌else◌,
}
use selfhosted_runner_swarm.Prelude.Text.{Text, codes, truthy}
use selfhosted_runner_swarm.Prelude.Dict.{Dict, remove, text_key}
use selfhosted_runner_swarm.Server.Access.{is_runner_container}
use selfhosted_runner_swarm.Config.{PoolConfig}
use selfhosted_runner_swarm.Config.Validation.{validation_errors, is_none, Problem}
use selfhosted_runner_swarm.Resolver.{pool_named}
use selfhosted_runner_swarm.Store.{
  Audit, OverrideRow, Tables, audit, delete_pool_override, set_global, set_pool_override,
  set_pool_state, set_protected,
}
use selfhosted_runner_swarm.Server.Control.{
  Json, Response, done, refused, is_empty, unknown_fields, note,
}
use selfhosted_runner_swarm.Server.Control.Pools.{
  check_candidate, if_accepted, candidate_pool, store_override, fields_of, origin_of, was_made,
  existing, patch_with, patch_pool, reset_pool, pools_in_force, name_in, create_among, create_pool,
  remove_pool, coerce_pool_fields, merge_fields,
}
use selfhosted_runner_swarm.Server.Control.Switches.{
  flag, protect_container, global_pause, state_among, set_pool_state_over,
}
use selfhosted_runner_swarm.Server.Control.Requests.{
  Edit, patch, reset, create, delete, protect, set_state, pause, globals, handle,
}

-- The tables are those of before with one more entry of the audit log, by the actor.
pub record Noted (now : ℕ) (actor : Text) (t u : Tables) : Type 0 where
  pub entry : Audit
  pub by_actor : entry.actor ≡ actor
  pub added : u.audit_log ≡ t.audit_log ++ (now, entry) ∷ []

-- A success is noted, and anything else leaves the tables as they were.
abbrev pub Settled : ℕ → Text → Tables → Option Response × Tables → Type 0
Settled now actor t (none, u) = u ≡ t
Settled now actor t (some (done status), u) = Noted now actor t u
Settled now actor t (some (refused status why), u) = u ≡ t

-- Every edit but that of the globals, which writes one key after the other.
abbrev pub IsWhole : {V : Type 0} → Edit V → Type 0
IsWhole (patch name body) = Unit
IsWhole (reset name) = Unit
IsWhole (create body) = Unit
IsWhole (delete name) = Unit
IsWhole (protect name body) = Unit
IsWhole (set_state name body) = Unit
IsWhole (pause body) = Unit
IsWhole (globals body) = Empty

module _ {V : Type 0} (json : Json V) (getenv : Text → Text) (base : List PoolConfig) (now : ℕ)
    (actor : Text) (t : Tables) where
  if-Settled :
      (b : Bool) (x y : Option Response × Tables)
      → Settled now actor t x
      → Settled now actor t y
      → Settled now actor t (if b then x else y)
  if-Settled true x y h k = h
  if-Settled false x y h k = k

  note-Noted :
      (action target detail : Text) (u : Tables)
      → u.audit_log ≡ t.audit_log
      → Noted now actor t (note json now actor action target detail u)
  unfolding audit
  note-Noted action target detail u e = record {
    entry = record { actor = actor; action = action; target = target; detail = detail };
    by_actor = refl;
    added = rw e refl;
  }

  store_override_log :
      (name : Text) (fields : Dict Text V) (origin : Text) (disabled : Bool)
      → (store_override json getenv base name fields origin disabled t).audit_log ≡ t.audit_log
  unfolding store_override set_pool_override
  store_override_log name fields origin disabled = refl

  check_candidate-Settled :
      (c : Option (Option PoolConfig)) (status : ℕ) (save : Tables → Tables)
      → Noted now actor t (save t)
      → Settled now actor t (check_candidate json getenv base c status save t)
  unfolding check_candidate
  check_candidate-Settled none status save n = refl
  check_candidate-Settled (some none) status save n = refl
  check_candidate-Settled (some (some p)) status save n = by_errors (validation_errors (p ∷ []))
    where
      by_errors :
          (errors : List (Text × Problem))
          → Settled now actor t (if_accepted json getenv base errors status save t)
      by_errors [] = n
      by_errors (e ∷ es) = refl

  patch_with-Settled :
      (name : Text) (body : Dict Text V) (old : Option (Dict Text V × OverrideRow))
      (coerced : Option (Dict Text V))
      → Settled now actor t (patch_with json getenv base now actor name body old coerced t)
  unfolding patch_with
  patch_with-Settled name body old none = refl
  patch_with-Settled name body old (some coerced) = check_candidate-Settled _ 200 _ (
      note-Noted (codes "config_patch") name (json.dumps body) _ (
        store_override_log name (merge_fields (fields_of json getenv base old) coerced)
          (origin_of json getenv base old) false))

  create_among-Settled :
      (name : Text) (fields : Dict Text V) (pools : Option (List PoolConfig))
      → Settled now actor t (create_among json getenv base now actor name fields pools t)
  unfolding create_among
  create_among-Settled name fields none = refl
  create_among-Settled name fields (some pools) =
      if-Settled (not (is_none (pool_named name pools))) _ _ refl (
        check_candidate-Settled (candidate_pool json getenv base name fields true) 201 _ (
          note-Noted (codes "config_create_pool") name [] _
            (store_override_log name fields (codes "ui") false)))

  remove_pool-Settled :
      (name : Text) → Settled now actor t (remove_pool json getenv base now actor name t)
  unfolding remove_pool delete_pool_override
  remove_pool-Settled name =
      if-Settled (was_made json getenv base (existing json getenv base name t)) _ _
        (note-Noted (codes "config_remove_pool") name [] (delete_pool_override name t) refl)
        (if-Settled (is_none (pool_named name base)) _ _ refl (
          note-Noted (codes "config_remove_pool") name [] _ (
            store_override_log name (fields_of json getenv base (existing json getenv base name t))
              (codes "yaml") true)))

  protected_log : (name : Text) (b : Bool) → (set_protected now name b t).audit_log ≡ t.audit_log
  unfolding set_protected
  protected_log name true = refl
  protected_log name false = refl

  state_among-Settled :
      (name : Text) (body : Dict Text V) (pools : Option (List PoolConfig))
      → Settled now actor t (state_among json getenv base now actor name body pools t)
  unfolding set_pool_state
  state_among-Settled name body none = refl
  state_among-Settled name body (some pools) =
      if-Settled (is_none (pool_named name pools)) _ _ refl
        (note-Noted (codes "pool_state") name _ _ refl)

  -- A request to edit a pool, a container's protection or the global pause either succeeds and adds one
  -- entry to the audit log, with its time and its actor, or, refused or raising, leaves the tables as they were.
  pub handle-Settled :
      (edit : Edit V)
      → IsWhole edit
      → Settled now actor t
          (handle json getenv base (record { now = now; actor = actor; edit = edit }) t)
  unfolding handle patch_pool reset_pool create_pool protect_container global_pause
      set_pool_state_over delete_pool_override set_global
  handle-Settled (patch name body) w =
      if-Settled (not (is_empty (unknown_fields false body))) _ _ refl (
        if-Settled
          (is_none (pool_named name base)
            && not (was_made json getenv base (existing json getenv base name t)))
          _ _ refl
          (patch_with-Settled name body (existing json getenv base name t)
            (coerce_pool_fields json body)))
  handle-Settled (reset name) w =
      if-Settled (is_none (pool_named name base)) _ _ refl
        (note-Noted (codes "config_reset") name [] (delete_pool_override name t) refl)
  handle-Settled (create body) w =
      let fields = remove (codes "name") body in
      if-Settled (not (truthy (name_in json getenv base body))) _ _ refl (
        if-Settled (not (is_empty (unknown_fields true fields))) _ _ refl (
          create_among-Settled (name_in json getenv base body) fields
            (pools_in_force json getenv base t)))
  handle-Settled (delete name) w = remove_pool-Settled name
  handle-Settled (protect name body) w =
      if-Settled (not (is_runner_container name)) _ _ refl
        (note-Noted _ name [] _ (protected_log name (flag json (codes "protected") true body)))
  handle-Settled (set_state name body) w =
      state_among-Settled name body (pools_in_force json getenv base t)
  handle-Settled (pause body) w = note-Noted (codes "global_pause") [] _ _ refl
  handle-Settled (globals body) w = elim w [ ]
