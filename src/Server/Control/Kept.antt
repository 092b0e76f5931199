-- ===== src/Server/Control/Kept.antt =====
-- Each edit of the control API keeps the rows of pools safe:
-- orchestrator/rorch/server/control_routes.py.
use selfhosted_runner_swarm.Prelude.{
  ◌≡◌, refl, Bool, true, false, not, ◌&&◌, Option, none, some, List, [], ◌∷◌, ℕ, if◌then◌else◌,
}
use selfhosted_runner_swarm.Prelude.Int.{ℤ, pos, negsuc}
use selfhosted_runner_swarm.Prelude.Text.{Text, text_eq, codes, truthy, is, show}
use selfhosted_runner_swarm.Prelude.Dict.{Dict, remove, text_key}
use selfhosted_runner_swarm.Server.Access.{is_runner_container}
use selfhosted_runner_swarm.Config.{PoolConfig}
use selfhosted_runner_swarm.Config.Validation.{validation_errors, is_none, Problem}
use selfhosted_runner_swarm.Resolver.{pool_named}
use selfhosted_runner_swarm.Resolver.Identity.{IfGiven}
use selfhosted_runner_swarm.Resolver.Pools.{Valid}
use selfhosted_runner_swarm.Resolver.Returns.{All-put, All-remove, All-get}
use selfhosted_runner_swarm.Store.{
  OverrideRow, Tables, pool_overrides, set_pool_override, delete_pool_override, audit,
  set_protected, set_pool_state, set_global,
}
use selfhosted_runner_swarm.Server.Control.{
  Json, Response, Refusal, not_an_integer, negative, is_empty, unknown_fields, as_override,
}
use selfhosted_runner_swarm.Server.Control.Pools.{
  check_candidate, if_accepted, candidate_pool, store_override, fields_of, origin_of, was_made,
  existing, patch_with, patch_pool, reset_pool, pools_in_force, name_in, create_among, create_pool,
  remove_pool, coerce_pool_fields, merge_fields,
}
use selfhosted_runner_swarm.Server.Control.Switches.{
  flag, flag_text, unknown_globals, globals_answer, set_globals, patch_globals, protect_container,
  state_among,
}
use selfhosted_runner_swarm.Server.Control.Safe.{
  Good, GoodRow, Safe, candidate_pool-Good, pool_overrides-Good,
}

module _ {V : Type 0} (json : Json V)
    (reads_back : (d : Dict Text V) → json.loads (json.dumps d) ≡ some d) (getenv : Text → Text)
    (base : List PoolConfig) where
  abbrev pub SafeTables : Tables → Type 0
  SafeTables t = Safe json getenv base t.pool_override_rows

  store_override-Safe :
      (name : Text) (fields : Dict Text V) (origin : Text) (disabled : Bool) (t : Tables)
      → Good json getenv base
          (name, record { from_ui = is origin "ui"; disabled = disabled; fields = fields })
      → SafeTables t
      → SafeTables (store_override json getenv base name fields origin disabled t)
  unfolding store_override set_pool_override
  store_override-Safe name fields origin disabled t g h =
      All-put (GoodRow json getenv base) name
        (record { fields = json.dumps fields; origin = origin; disabled = disabled })
        t.pool_override_rows h (rw (reads_back fields) g)

  deleted-Safe :
      (name : Text) (t : Tables) → SafeTables t → SafeTables (delete_pool_override name t)
  unfolding delete_pool_override
  deleted-Safe name t h = All-remove (GoodRow json getenv base) name t.pool_override_rows h

  existing-Good :
      (name : Text) (t : Tables)
      → SafeTables t
      → IfGiven
          (λ e. Good json getenv base (as_override (name, e)))
          (existing json getenv base name t)
  existing-Good name t h =
      All-get (λ e. Good json getenv base (as_override e)) name
        (pool_overrides json.loads t.pool_override_rows)
        (pool_overrides-Good json getenv base t.pool_override_rows h)

  check_candidate-Safe :
      (c : Option (Option PoolConfig)) (status : ℕ) (save : Tables → Tables) (t : Tables)
      → ((p : PoolConfig) → c ≡ some (some p) → Valid p → SafeTables (save t))
      → SafeTables t
      → SafeTables (check_candidate json getenv base c status save t).1
  unfolding check_candidate
  check_candidate-Safe none status save t f h = h
  check_candidate-Safe (some none) status save t f h = h
  check_candidate-Safe (some (some p)) status save t f h =
      by_errors (validation_errors (p ∷ [])) (f p refl)
    where
      by_errors :
          (errors : List (Text × Problem))
          → (errors ≡ [] → SafeTables (save t))
          → SafeTables (if_accepted json getenv base errors status save t).1
      by_errors [] g = g refl
      by_errors (e ∷ es) g = h

  old_origin :
      (name : Text) (old : Option (Dict Text V × OverrideRow))
      → IfGiven (λ e. Good json getenv base (as_override (name, e))) old
      → is (origin_of json getenv base old) "ui" ≡ true
      → pool_named name base ≡ none
  unfolding text_eq
  old_origin name none g e = cc
  old_origin name (some o) g e = g.2 e

  patch_with-Safe :
      (now : ℕ) (actor name : Text) (body : Dict Text V) (old : Option (Dict Text V × OverrideRow))
      (coerced : Option (Dict Text V)) (t : Tables)
      → IfGiven (λ e. Good json getenv base (as_override (name, e))) old
      → SafeTables t
      → SafeTables (patch_with json getenv base now actor name body old coerced t).1
  unfolding patch_with audit
  patch_with-Safe now actor name body old none t g h = h
  patch_with-Safe now actor name body old (some coerced) t g h =
      check_candidate-Safe (candidate_pool json getenv base name merged from_ui) 200 _ t
        (λ p e v.
          store_override-Safe name merged (origin_of json getenv base old) false t
            (candidate_pool-Good json getenv base name merged from_ui p (old_origin name old g) e v)
            h)
        h
    where
      merged : Dict Text V
      merged = merge_fields (fields_of json getenv base old) coerced

      from_ui : Bool
      from_ui = is (origin_of json getenv base old) "ui"

  if-Safe :
      (b : Bool) (x y : Option Response × Tables)
      → SafeTables x.1
      → SafeTables y.1
      → SafeTables (if b then x else y).1
  if-Safe true x y h k = h
  if-Safe false x y h k = k

  pub patch_pool-Safe :
      (now : ℕ) (actor name : Text) (body : Dict Text V) (t : Tables)
      → SafeTables t
      → SafeTables (patch_pool json getenv base now actor name body t).1
  unfolding patch_pool
  patch_pool-Safe now actor name body t h =
      if-Safe (not (is_empty (unknown_fields false body))) _ _ h (
        if-Safe
          (is_none (pool_named name base)
            && not (was_made json getenv base (existing json getenv base name t)))
          _ _ h
          (patch_with-Safe now actor name body (existing json getenv base name t)
            (coerce_pool_fields json body) t (existing-Good name t h) h))

  create_among-Safe :
      (now : ℕ) (actor name : Text) (fields : Dict Text V) (pools : Option (List PoolConfig))
      (t : Tables)
      → pool_named name base ≡ none
      → SafeTables t
      → SafeTables (create_among json getenv base now actor name fields pools t).1
  unfolding create_among audit text_eq
  create_among-Safe now actor name fields none t new h = h
  create_among-Safe now actor name fields (some pools) t new h =
      if-Safe (not (is_none (pool_named name pools))) _ _ h (
        check_candidate-Safe (candidate_pool json getenv base name fields true) 201 _ t
          (λ p e v.
            store_override-Safe name fields (codes "ui") false t
              (candidate_pool-Good json getenv base name fields true p (λ u. new) e v) h)
          h)

  pub create_pool-Safe :
      (now : ℕ) (actor : Text) (body : Dict Text V) (t : Tables)
      → pool_named (name_in json getenv base body) base ≡ none
      → SafeTables t
      → SafeTables (create_pool json getenv base now actor body t).1
  unfolding create_pool
  create_pool-Safe now actor body t new h =
      if-Safe (not (truthy (name_in json getenv base body))) _ _ h (
        if-Safe (not (is_empty (unknown_fields true (remove (codes "name") body)))) _ _ h (
          create_among-Safe now actor (name_in json getenv base body) (remove (codes "name") body)
            (pools_in_force json getenv base t) t new h))

  pub reset_pool-Safe :
      (now : ℕ) (actor name : Text) (t : Tables)
      → SafeTables t
      → SafeTables (reset_pool json getenv base now actor name t).1
  unfolding reset_pool audit
  reset_pool-Safe now actor name t h =
      if-Safe (is_none (pool_named name base)) _ _ h (deleted-Safe name t h)

  pub remove_pool-Safe :
      (now : ℕ) (actor name : Text) (t : Tables)
      → SafeTables t
      → SafeTables (remove_pool json getenv base now actor name t).1
  unfolding remove_pool audit text_eq
  remove_pool-Safe now actor name t h =
      if-Safe (was_made json getenv base (existing json getenv base name t)) _ _
        (deleted-Safe name t h)
        (if-Safe (is_none (pool_named name base)) _ _ h (
          store_override-Safe name (fields_of json getenv base (existing json getenv base name t))
            (codes "yaml") true t ((λ d. cc), (λ d u. cc), (λ u. cc)) h))

  pub protect_container-Safe :
      (now : ℕ) (actor name : Text) (body : Dict Text V) (t : Tables)
      → SafeTables t
      → SafeTables (protect_container json now actor name body t).1
  unfolding protect_container audit set_protected
  protect_container-Safe now actor name body t h =
      if-Safe (not (is_runner_container name)) _ _ h
        (by_flag (flag json (codes "protected") true body))
    where
      by_flag : (b : Bool) → SafeTables (set_protected now name b t)
      by_flag true = h
      by_flag false = h

  pub state_among-Safe :
      (now : ℕ) (actor name : Text) (body : Dict Text V) (pools : Option (List PoolConfig))
      (t : Tables)
      → SafeTables t
      → SafeTables (state_among json getenv base now actor name body pools t).1
  unfolding set_pool_state audit
  state_among-Safe now actor name body none t h = h
  state_among-Safe now actor name body (some pools) t h =
      if-Safe (is_none (pool_named name pools)) _ _ h h

  set_globals-Safe :
      (body : Dict Text V) (t : Tables) → SafeTables t → SafeTables (set_globals json body t).1
  unfolding set_globals set_global
  set_globals-Safe [] t h = h
  set_globals-Safe ((key, v) ∷ rest) t h =
      by_key (is key "paused") (json.as_int v) (set_globals-Safe rest)
    where
      next : Text → Option Refusal × Tables
      next value = set_globals json rest (set_global key value t)

      by_key :
          (b : Bool) (o : Option ℤ)
          → ((u : Tables) → SafeTables u → SafeTables (set_globals json rest u).1)
          → SafeTables
              (if b then next (flag_text (json.is_true v)) else (elim o [
                | none ↦ (some (not_an_integer key), t)
                | some n ↦ elim n [ negsuc m ↦ (some (negative key), t) | pos m ↦ next (show m) ]
              ])).1
      by_key true o f = f (set_global key (flag_text (json.is_true v)) t) h
      by_key false none f = h
      by_key false (some (negsuc m)) f = h
      by_key false (some (pos m)) f = f (set_global key (show m) t) h

  globals_answer-Safe :
      (now : ℕ) (actor : Text) (body : Dict Text V) (x : Option Refusal × Tables)
      → SafeTables x.1
      → SafeTables (globals_answer json getenv base now actor body x).1
  unfolding audit
  globals_answer-Safe now actor body (some why, t) h = h
  globals_answer-Safe now actor body (none, t) h = h

  pub patch_globals-Safe :
      (now : ℕ) (actor : Text) (body : Dict Text V) (t : Tables)
      → SafeTables t
      → SafeTables (patch_globals json getenv base now actor body t).1
  unfolding patch_globals
  patch_globals-Safe now actor body t h =
      if-Safe (not (is_empty (unknown_globals body))) _ _ h
        (globals_answer-Safe now actor body (set_globals json body t) (set_globals-Safe body t h))
