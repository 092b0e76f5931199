-- ===== src/Tests/Controls.antt =====
-- Requests to the control API, with JSON objects of texts.
use selfhosted_runner_swarm.Prelude.{
  ◌+◌, ℕ, zero, suc, ◌≡◌, refl, ap, ◌∙◌, Bool, true, Option, none, some, List, [], ◌∷◌, All,
  if◌then◌else◌,
}
use selfhosted_runner_swarm.Prelude.Int.{ℤ, pos, negsuc}
use selfhosted_runner_swarm.Prelude.Text.{
  Text, codes, truthy, text_eq, all_digits, digits_value, is, show, strip, lstrip, starts_with,
  lower,
}
use selfhosted_runner_swarm.Prelude.Dict.{Dict, get, put, remove, has, member}
use selfhosted_runner_swarm.Prelude.Sort.{sorted, text_leb}
use selfhosted_runner_swarm.Config.{PoolConfig, container_prefix}
use selfhosted_runner_swarm.Config.Size.{work_tmpfs_enabled, parse_size, effective_work_tmpfs_size}
use selfhosted_runner_swarm.Config.Validation.{validation_errors}
use selfhosted_runner_swarm.Resolver.{
  pool_named, resolve_pools, resolve_base, resolve_ui, apply_override, set_fields, set_field,
  set_int, set_text, tunable_fields, identity_fields, build_ui_pool, blank_pool, ◌>>=◌,
}
use selfhosted_runner_swarm.Resolver.Pools.{Valid}
use selfhosted_runner_swarm.Resolver.Returns.{Gives}
use selfhosted_runner_swarm.Docker.{Docker, Run}
use selfhosted_runner_swarm.Docker.Details.{container_details, container_infos}
use selfhosted_runner_swarm.Store.{
  Tables, pool_overrides, set_pool_override, delete_pool_override, audit,
}
use selfhosted_runner_swarm.Server.Control.{Json, overlay, unknown_fields}
use selfhosted_runner_swarm.Server.Control.Pools.{
  given, pools_in_force, patch_pool, patch_with, create_pool, create_among, remove_pool,
  candidate_pool, candidate_ui, is_constructed, other_fields, check_candidate, store_override,
  merge_fields, coerce_pool_fields, coerce_field,
}
use selfhosted_runner_swarm.Server.Control.Requests.{
  Edit, patch, create, delete, Request, handle, handle_all,
}
use selfhosted_runner_swarm.Server.Control.InForce.{handle_all-Valid}
use selfhosted_runner_swarm.Server.Control.Refused.{Settled, handle-Settled}
use selfhosted_runner_swarm.Server.Control.Runners.{
  idle_container, was_busy, longest, scale_pool, delta_in,
}
use selfhosted_runner_swarm.Server.Control.Longest.{ScaledDown, scale_down_lem}
use selfhosted_runner_swarm.Tests.Samples.{ci_pool}

-- Each text with its characters raised by one, and a zero at its end.
unfoldable seal : Text → Text → Text
seal [] rest = 0 ∷ rest
seal (c ∷ s) rest = suc c ∷ seal s rest

unfoldable dumps : Dict Text Text → Text
unfolding seal
dumps [] = []
dumps ((key, v) ∷ d) = seal key (seal v (dumps d))

abbrev extend : ℕ → List Text → List Text
extend c [] = (c ∷ []) ∷ []
extend c (s ∷ rest) = (c ∷ s) ∷ rest

unfoldable pieces : Text → List Text
pieces [] = []
pieces (zero ∷ s) = [] ∷ pieces s
pieces (suc c ∷ s) = extend c (pieces s)

abbrev with_pair : Text → Text → Option (Dict Text Text) → Option (Dict Text Text)
with_pair key v none = none
with_pair key v (some d) = some ((key, v) ∷ d)

unfoldable pairs : List Text → Option (Dict Text Text)
pairs [] = some []
pairs (key ∷ []) = none
pairs (key ∷ v ∷ rest) = with_pair key v (pairs rest)

pieces-seal : (s rest : Text) → pieces (seal s rest) ≡ s ∷ pieces rest
unfolding pieces seal
pieces-seal [] rest = refl
pieces-seal (c ∷ s) rest = ap (extend c) (pieces-seal s rest)

reads_back : (d : Dict Text Text) → pairs (pieces (dumps d)) ≡ some d
unfolding pairs dumps pieces
reads_back [] = refl
reads_back ((key, v) ∷ d) =
    ap pairs (pieces-seal key (seal v (dumps d)) ∙ ap (λ r. key ∷ r) (pieces-seal v (dumps d)))
    ∙ ap (with_pair key v) (reads_back d)

abbrev whole : Text → Option ℤ
whole s =
    if is s "-1"
    then some (negsuc 0)
    else if all_digits s
    then some (pos (digits_value 0 s))
    else none

abbrev decimal : ℤ → Text
decimal (pos n) = show n
decimal (negsuc n) = codes "-1"

abbrev json : Json Text
json = record {
  as_int = whole;
  as_float = whole;
  as_text = λ s. s;
  is_true = truthy;
  of_int = decimal;
  of_float = decimal;
  of_text = λ s. s;
  loads = λ s. pairs (pieces s);
  dumps = dumps;
}

abbrev variable : Text → Text
variable name = codes "token"

abbrev base : List PoolConfig
base = ci_pool ∷ []

abbrev tables : Tables
tables = record {
  tick_snapshots = [];
  runner_events = [];
  audit_log = [];
  pool_override_rows = [];
  global_override_rows = [];
  pool_state_rows = [];
  protected_rows = [];
  runner_status_rows = [];
  runner_jobs = [];
  idempotency = [];
}

abbrev at : ℕ → Edit Text → Request Text
at now edit = record { now = now; actor = codes "ops"; edit = edit }

abbrev requests : List (Request Text)
requests =
    at 1 (patch (codes "ci") ((codes "max_runners", codes "5") ∷ []))
    ∷ at 2 (create ((codes "name", codes "new") ∷ (codes "owner", codes "me") ∷ []))
    ∷ at 3 (patch (codes "ci") ((codes "max_runners", codes "-1") ∷ []))
    ∷ []

after_requests :
    pools_in_force json variable base (handle_all json variable base requests tables)
    ≡ some (
        record ci_pool { max_runners = pos 5 }
        ∷ record (blank_pool (codes "new") (codes "token")) { owner = codes "me" }
        ∷ [])
unfolding handle_all handle patch_pool patch_with create_pool create_among candidate_pool
    candidate_ui is_constructed other_fields check_candidate store_override merge_fields
    coerce_pool_fields coerce_field pools_in_force overlay pool_overrides set_pool_override audit
    unknown_fields sorted text_leb resolve_pools resolve_base resolve_ui apply_override set_fields
    set_field tunable_fields set_int set_text identity_fields build_ui_pool blank_pool
    validation_errors parse_size starts_with work_tmpfs_enabled effective_work_tmpfs_size lower get
    put remove has member text_eq pool_named strip lstrip all_digits digits_value dumps pieces pairs
    show ◌>>=◌
after_requests = refl

-- A pool of the file that was switched off is created again, and removed: it is back in force.
abbrev over_the_file : List (Request Text)
over_the_file =
    at 1 (delete (codes "ci"))
    ∷ at 2 (create ((codes "name", codes "ci") ∷ (codes "owner", codes "me") ∷ []))
    ∷ at 3 (delete (codes "ci"))
    ∷ []

comes_back :
    pools_in_force json variable base (handle_all json variable base over_the_file tables)
    ≡ some base
unfolding handle_all handle remove_pool create_pool create_among candidate_pool candidate_ui
    is_constructed other_fields check_candidate store_override pools_in_force overlay pool_overrides
    set_pool_override delete_pool_override audit unknown_fields sorted text_leb resolve_pools
    resolve_base resolve_ui set_fields set_field tunable_fields set_int set_text identity_fields
    blank_pool validation_errors parse_size starts_with work_tmpfs_enabled effective_work_tmpfs_size
    lower get put remove has member text_eq pool_named strip lstrip all_digits digits_value dumps
    pieces pairs ◌>>=◌
comes_back = refl

handle_all-Valid_example :
    Gives
      (All Valid)
      (pools_in_force json variable base (handle_all json variable base requests tables))
unfolding validation_errors parse_size starts_with text_eq work_tmpfs_enabled
    effective_work_tmpfs_size pool_named get strip lstrip
handle_all-Valid_example =
    handle_all-Valid json reads_back variable base requests tables (refl, tt) (tt, (refl, (tt, tt)))
      refl

handle-Settled_example : Settled 3 (codes "ops") tables (
    handle json variable base
      (at 3 (patch (codes "ci") ((codes "max_runners", codes "-1") ∷ [])))
      tables)
handle-Settled_example =
    handle-Settled json variable base 3 (codes "ops") tables
      (patch (codes "ci") ((codes "max_runners", codes "-1") ∷ [])) tt

abbrev float : Text → Option ℕ
float s = if all_digits s then some (digits_value 0 s) else none

-- Two runners are up, and every command succeeds.
abbrev docker : Docker ℕ
docker = record {
  output = λ args w. (
    (codes "gh-runner-ci-1\timage\tUp\t9 minutes ago\ngh-runner-ci-2\timage\tUp\t3 minutes ago", 0),
    w + 1,
  );
  logs = λ args w. ([], w);
  record_event = λ e w. w;
}

-- A runner that Docker shows as up for about an hour counts as new beside one of five minutes.
hour_counts_as_new :
    given
      (λ i. i.name)
      (idle_container tables (
        container_infos float (
          codes "gh-runner-ci-1\timage\tUp\tAbout an hour ago"
          ∷ codes "gh-runner-ci-2\timage\tUp\t5 minutes ago"
          ∷ [])))
    ≡ some (codes "gh-runner-ci-2")
unfolding idle_container container_infos was_busy longest text_eq starts_with get all_digits
    digits_value
hour_counts_as_new = refl

abbrev spawn : PoolConfig → Run ℕ Bool
spawn pool w = (true, w)

abbrev down : Dict Text Text
down = (codes "delta", codes "-1") ∷ []

scale_down_lem_example :
    ScaledDown json variable base float docker spawn tables
      (container_details float docker (container_prefix ci_pool) 0).0
      (container_details float docker (container_prefix ci_pool) 0).1
      (scale_pool json variable base float docker spawn 1
        (codes "ops")
        (codes "ci")
        down
        (tables, 0))
unfolding pools_in_force overlay pool_overrides resolve_pools resolve_base resolve_ui pool_named get
    text_eq delta_in ◌>>=◌
scale_down_lem_example =
    scale_down_lem json variable base float docker spawn 1 (codes "ops") (codes "ci") down tables 0
      base ci_pool refl refl refl
