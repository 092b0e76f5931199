-- ===== src/Server/Control/Pools.antt =====
-- Editing pools over HTTP: `patch_pool`, `reset_pool`, `create_pool`, `remove_pool` and
-- `_candidate_pool` of orchestrator/rorch/server/control_routes.py, with `coerce_pool_fields` of
-- resolver.py.
use selfhosted_runner_swarm.Prelude.{
  ℕ, Bool, true, false, not, ◌&&◌, ◌||◌, Option, none, some, List, [], ◌∷◌, ◌++◌, all,
  if◌then◌else◌,
}
use selfhosted_runner_swarm.Prelude.Text.{Text, codes, is, lower, truthy, strip}
use selfhosted_runner_swarm.Prelude.Dict.{Dict, get, put, remove, has, member, text_key}
use selfhosted_runner_swarm.Resolver.{
  pool_named, Setter, set_text, set_fields, tunable_fields, identity_fields, apply_override,
  blank_pool, pat_variable, resolve_pools,
}
use selfhosted_runner_swarm.Config.{PoolConfig}
use selfhosted_runner_swarm.Config.Validation.{validation_errors, is_none, Problem}
use selfhosted_runner_swarm.Store.{
  OverrideRow, Tables, pool_overrides, set_pool_override, delete_pool_override, audit,
}
use selfhosted_runner_swarm.Server.Control.{
  Json, not_editable, not_accepted, unknown_pool, already_exists, no_definition, invalid_value,
  unusable, name_required, invalid_pool, done, Handler, refuse, is_empty, unknown_fields, is_ui,
  overlay, note,
}

abbrev pub integer_names : List Text
integer_names =
    codes "max_runners"
    ∷ codes "min_idle"
    ∷ codes "repo_discovery_ttl"
    ∷ codes "github_poll_interval"
    ∷ codes "queued_min_age"
    ∷ codes "stuck_timeout"
    ∷ codes "repo_check_workers"
    ∷ codes "runner_operation_workers"
    ∷ []

abbrev pub given : {A B : Type 0} → (A → B) → Option A → Option B
given f none = none
given f (some a) = some (f a)

-- `merged.update(fields)`
unfoldable pub merge_fields : {V : Type 0} → Dict Text V → Dict Text V → Dict Text V
unfolding put
merge_fields d [] = d
merge_fields d ((key, v) ∷ rest) = merge_fields (put key v d) rest

module _ {V : Type 0} (json : Json V) where
  unfoldable pub coerce_field : Text → V → Option V
  unfolding member lower
  coerce_field key v =
      if member key integer_names
      then given json.of_int (json.as_int v)
      else if is key "cpu_limit"
      then given json.of_float (json.as_float v)
      else if is key "network_mode" || is key "scope"
      then some (json.of_text (lower (json.as_text v)))
      else some (json.of_text (json.as_text v))

  abbrev pub cons_given : Text → Option V → Option (Dict Text V) → Option (Dict Text V)
  cons_given key none rest = none
  cons_given key (some v) rest = given (λ d. (key, v) ∷ d) rest

  unfoldable pub coerce_pool_fields : Dict Text V → Option (Dict Text V)
  unfolding coerce_field
  coerce_pool_fields [] = some []
  coerce_pool_fields ((key, v) ∷ rest) =
      cons_given key (coerce_field key v) (coerce_pool_fields rest)

  -- Further arguments that the constructor of a pool takes.
  unfoldable pub other_fields : Dict Text (Setter json.as_int json.as_float json.as_text)
  unfolding set_text
  other_fields =
      (codes "instance", text (λ s p. record p { instance_name = s }))
      ∷ (codes "include_public_repos", text (λ s p. record p { include_public_repos = truthy s }))
      ∷ (codes "job_started_hook", text (λ s p. record p { job_started_hook = s }))
      ∷ (codes "provider", text (λ s p. record p { provider = s }))
      ∷ (codes "base_url", text (λ s p. record p { base_url = s }))
      ∷ []
    where
      text : (Text → PoolConfig → PoolConfig) → Setter json.as_int json.as_float json.as_text
      text = set_text json.as_int json.as_float json.as_text

  abbrev pub settable_fields : Dict Text (Setter json.as_int json.as_float json.as_text)
  settable_fields =
      tunable_fields json.as_int json.as_float json.as_text
      ++ identity_fields json.as_int json.as_float json.as_text

  -- Whether the constructor gets its owner, and no argument that it does not know.
  unfoldable pub is_constructed : Dict Text V → Bool
  unfolding has tunable_fields identity_fields other_fields
  is_constructed fields =
      has (codes "owner") fields
      && all (λ e. is e.0 "pat_env" || is e.0 "name" || has e.0 (settable_fields ++ other_fields))
          fields

  module _ (getenv : Text → Text) (base : List PoolConfig) where
    abbrev pub constructed : Bool → Option PoolConfig → Option (Option PoolConfig)
    constructed ok none = none
    constructed ok (some p) = some (if ok then some p else none)

    -- `_candidate_pool` of a pool that was made through the API
    unfoldable pub candidate_ui : Text → Dict Text V → Option (Option PoolConfig)
    unfolding get set_fields tunable_fields identity_fields other_fields blank_pool is_constructed
    candidate_ui name fields =
        let pat = getenv (pat_variable json.as_int json.as_float json.as_text getenv fields) in
        if truthy pat
        then constructed (is_constructed fields) (
            set_fields json.as_int json.as_float json.as_text (settable_fields ++ other_fields)
              fields (blank_pool name pat))
        else some none

    abbrev pub candidate_base : Dict Text V → Option PoolConfig → Option (Option PoolConfig)
    candidate_base fields none = some none
    candidate_base fields (some b) =
        given some (apply_override json.as_int json.as_float json.as_text b fields)

    -- `_candidate_pool`: the pool that an override would make, if it makes one
    unfoldable pub candidate_pool : Text → Dict Text V → Bool → Option (Option PoolConfig)
    unfolding candidate_ui pool_named apply_override
    candidate_pool name fields from_ui =
        if from_ui then candidate_ui name fields else candidate_base fields (pool_named name base)

    abbrev pub if_accepted : List (Text × Problem) → ℕ → (Tables → Tables) → Handler
    if_accepted [] status save t = (some (done status), save t)
    if_accepted (e ∷ es) status save t = refuse 400 (invalid_pool (e ∷ es)) t

    -- The checks on a candidate; `save` is what follows when they pass.
    unfoldable pub check_candidate : Option (Option PoolConfig) → ℕ → (Tables → Tables) → Handler
    unfolding validation_errors
    check_candidate none status save t = (none, t)
    check_candidate (some none) status save t = refuse 400 unusable t
    check_candidate (some (some p)) status save t =
        if_accepted (validation_errors (p ∷ [])) status save t

    unfoldable pub store_override : Text → Dict Text V → Text → Bool → Tables → Tables
    unfolding set_pool_override
    store_override name fields origin disabled t =
        set_pool_override name
          (record { fields = json.dumps fields; origin = origin; disabled = disabled }) t

    abbrev pub fields_of : Option (Dict Text V × OverrideRow) → Dict Text V
    fields_of none = []
    fields_of (some e) = e.0

    abbrev pub origin_of : Option (Dict Text V × OverrideRow) → Text
    origin_of none = codes "yaml"
    origin_of (some e) = e.1.origin

    abbrev pub was_made : Option (Dict Text V × OverrideRow) → Bool
    was_made none = false
    was_made (some e) = is_ui e.1

    abbrev pub existing : Text → Tables → Option (Dict Text V × OverrideRow)
    existing name t = get name (pool_overrides json.loads t.pool_override_rows)

    -- The end of `patch_pool`, once the body is coerced.
    unfoldable pub patch_with :
        ℕ
        → Text
        → Text
        → Dict Text V
        → Option (Dict Text V × OverrideRow)
        → Option (Dict Text V)
        → Handler
    unfolding merge_fields candidate_pool check_candidate store_override audit
    patch_with now actor name body old none t = refuse 400 invalid_value t
    patch_with now actor name body old (some coerced) t =
        let merged = merge_fields (fields_of old) coerced in
        let origin = origin_of old in
        check_candidate (candidate_pool name merged (is origin "ui")) 200
          (λ u.
            note json now actor (codes "config_patch") name (json.dumps body)
              (store_override name merged origin false u))
          t

    unfoldable pub patch_pool : ℕ → Text → Text → Dict Text V → Handler
    unfolding unknown_fields pool_named pool_overrides get coerce_pool_fields patch_with
    patch_pool now actor name body t =
        if not (is_empty (unknown_fields false body))
        then refuse 400 (not_editable (unknown_fields false body)) t
        else if is_none (pool_named name base) && not (was_made (existing name t))
        then refuse 404 (unknown_pool name) t
        else patch_with now actor name body (existing name t) (coerce_pool_fields body) t

    unfoldable pub reset_pool : ℕ → Text → Text → Handler
    unfolding pool_named delete_pool_override audit
    reset_pool now actor name t =
        if is_none (pool_named name base) then refuse 404 (no_definition name) t else (
          some (done 200),
          note json now actor (codes "config_reset") name [] (delete_pool_override name t),
        )

    -- The pools of `resolve()`
    unfoldable pub pools_in_force : Tables → Option (List PoolConfig)
    unfolding resolve_pools overlay
    pools_in_force t =
        resolve_pools json.as_int json.as_float json.as_text getenv base
          (overlay json t.pool_override_rows)

    abbrev pub name_in : Dict Text V → Text
    name_in body = elim (get (codes "name") body) [ none ↦ [] | some v ↦ strip (json.as_text v) ]

    -- The end of `create_pool`, once the pools in force are read.
    unfoldable pub create_among : ℕ → Text → Text → Dict Text V → Option (List PoolConfig) → Handler
    unfolding pool_named candidate_pool check_candidate store_override audit
    create_among now actor name fields none t = (none, t)
    create_among now actor name fields (some pools) t =
        if not (is_none (pool_named name pools))
        then refuse 409 (already_exists name) t
        else check_candidate (candidate_pool name fields true) 201
            (λ u.
              note json now actor (codes "config_create_pool") name []
                (store_override name fields (codes "ui") false u))
            t

    unfoldable pub create_pool : ℕ → Text → Dict Text V → Handler
    unfolding get remove strip unknown_fields pools_in_force create_among
    create_pool now actor body t =
        let name = name_in body in
        let fields = remove (codes "name") body in
        if not (truthy name)
        then refuse 400 name_required t
        else if not (is_empty (unknown_fields true fields))
        then refuse 400 (not_accepted (unknown_fields true fields)) t
        else create_among now actor name fields (pools_in_force t) t

    unfoldable pub remove_pool : ℕ → Text → Text → Handler
    unfolding pool_named pool_overrides get delete_pool_override store_override audit
    remove_pool now actor name t =
        let removed = note json now actor (codes "config_remove_pool") name [] in
        if was_made (existing name t)
        then (some (done 200), removed (delete_pool_override name t))
        else if is_none (pool_named name base)
        then refuse 404 (unknown_pool name) t
        else (
          some (done 200),
          removed (store_override name (fields_of (existing name t)) (codes "yaml") true t),
        )
