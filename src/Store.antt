-- ===== src/Store.antt =====
-- The orchestrator's durable state: orchestrator/rorch/store.py. A table is a list of rows in the order
-- of insertion, or a dictionary by its key; a statement is what SQL says of it, and each method one
-- transaction. `now` is `time.time()` in whole seconds.
pub mod Jobs
use mathlib.Core.List.{reverse}
use selfhosted_runner_swarm.Prelude.{
  ℕ, zero, suc, take, ◌+◌, ◌-◌, ◌*◌, Bool, true, false, Option, none, some, List, [], ◌∷◌, ◌++◌,
  map, if◌then◌else◌, keep, length, ltb, leb,
}
use selfhosted_runner_swarm.Prelude.Int.{ℤ, pos, negsuc}
use selfhosted_runner_swarm.Prelude.Text.{Text, codes, truthy, text_eq}
use selfhosted_runner_swarm.Prelude.Dict.{Dict, get, put, remove, text_key}
use selfhosted_runner_swarm.Scaler.Types.{PoolState}

pub record TickSnapshot : Type 0 where
  pub pool : Text
  pub display : Text
  pub containers : ℕ
  pub online : ℕ
  pub idle : ℕ
  pub busy : ℕ
  pub queued : ℕ

pub record Event : Type 0 where
  pub event : Text
  pub container : Text
  pub pool : Text
  pub reason : Text

pub record Audit : Type 0 where
  pub actor : Text
  pub action : Text
  pub target : Text
  pub detail : Text

pub record RunnerStatus : Type 0 where
  pub pool : Text
  pub status : Text
  pub busy : Bool

-- An override's `data` is the JSON text.
pub record OverrideRow : Type 0 where
  pub fields : Text
  pub origin : Text
  pub disabled : Bool

-- One row of `runner_jobs`.
pub record JobRow : Type 0 where
  pub pool : Text
  pub repo : Text
  pub workflow : Text
  pub job_name : Text
  pub runner : Text
  pub status : Text
  pub conclusion : Text
  pub url : Text
  pub started_at : Text
  pub ts : ℕ
  pub ended : Option ℕ

-- Rows with a time carry it first. The tables of history are in the order of their `id`.
pub record Tables : Type 0 where
  pub tick_snapshots : List (ℕ × TickSnapshot)
  pub runner_events : List (ℕ × Event)
  pub audit_log : List (ℕ × Audit)
  pub pool_override_rows : Dict Text OverrideRow
  pub global_override_rows : Dict Text Text
  pub pool_state_rows : Dict Text PoolState
  pub protected_rows : Dict Text ℕ
  pub runner_status_rows : Dict Text RunnerStatus
  pub runner_jobs : Dict ℕ JobRow
  pub idempotency : Dict Text (ℕ × Text)

abbrev pub push : {A : Type 0} → ℕ → A → List (ℕ × A) → List (ℕ × A)
push now a rows = rows ++ (now, a) ∷ []

unfoldable pub record_tick : ℕ → TickSnapshot → Tables → Tables
record_tick now tick t = record t { tick_snapshots = push now tick t.tick_snapshots }

unfoldable pub record_event : ℕ → Event → Tables → Tables
record_event now event t = record t { runner_events = push now event t.runner_events }

unfoldable pub audit : ℕ → Audit → Tables → Tables
audit now entry t = record t { audit_log = push now entry t.audit_log }

-- `ORDER BY id DESC LIMIT n`
abbrev pub newest : {A : Type 0} → ℕ → List A → List A
newest n rows = take n (reverse rows)

unfoldable pub recent_events : ℕ → Tables → List (ℕ × Event)
recent_events n t = newest n t.runner_events

unfoldable pub recent_audit : ℕ → Tables → List (ℕ × Audit)
recent_audit n t = newest n t.audit_log

-- The last row of each pool: later rows replace earlier ones.
unfoldable pub latest_from :
    List (ℕ × TickSnapshot) → Dict Text (ℕ × TickSnapshot) → Dict Text (ℕ × TickSnapshot)
unfolding put
latest_from [] latest = latest
latest_from ((at, s) ∷ rest) latest = latest_from rest (put s.pool (at, s) latest)

unfoldable pub latest_snapshots : Tables → Dict Text (ℕ × TickSnapshot)
unfolding latest_from
latest_snapshots t = latest_from t.tick_snapshots []

-- `ts >= now - age`
abbrev pub since : {A : Type 0} → ℕ → ℕ → ℕ × A → Bool
since now age row = leb now (row.0 + age)

unfoldable pub snapshots_since : ℕ → ℕ → Tables → List (ℕ × TickSnapshot)
snapshots_since now hours t = keep (since now (hours * 3600)) t.tick_snapshots

unfoldable pub count_event : List (ℕ × Event) → Dict Text ℕ → Dict Text ℕ
unfolding get put
count_event [] counts = counts
count_event ((at, e) ∷ rest) counts =
    count_event rest (put e.event (elim (get e.event counts) [ none ↦ 1 | some n ↦ n + 1 ]) counts)

unfoldable pub event_counts_since : ℕ → ℕ → Tables → Dict Text ℕ
unfolding count_event
event_counts_since now hours t = count_event (keep (since now (hours * 3600)) t.runner_events) []

-- `prune`: the rows deleted, and what is left.
unfoldable pub prune : ℕ → ℤ → Tables → ℕ × Tables
prune now (negsuc days) t = (0, t)
prune now (pos zero) t = (0, t)
prune now (pos (suc days)) t =
    let age = suc days * 86400 in
    let ticks = keep (since now age) t.tick_snapshots in
    let events = keep (since now age) t.runner_events in
    let entries = keep (since now age) t.audit_log in
    (
      length t.tick_snapshots
          - length ticks
          + (length t.runner_events - length events)
          + (length t.audit_log - length entries),
      record t { tick_snapshots = ticks; runner_events = events; audit_log = entries },
    )

-- `parse` is `json.loads`; a row whose text it refuses is left out.
unfoldable pub pool_overrides :
    {V : Type 0} → (Text → Option V) → Dict Text OverrideRow → Dict Text (V × OverrideRow)
pool_overrides parse [] = []
pool_overrides parse ((pool, row) ∷ rest) =
    let others = pool_overrides parse rest in
    elim (parse row.fields) [ none ↦ others | some v ↦ (pool, (v, row)) ∷ others ]

unfoldable pub set_pool_override : Text → OverrideRow → Tables → Tables
unfolding put
set_pool_override pool row t = record t { pool_override_rows = put pool row t.pool_override_rows }

unfoldable pub delete_pool_override : Text → Tables → Tables
unfolding remove
delete_pool_override pool t = record t { pool_override_rows = remove pool t.pool_override_rows }

unfoldable pub set_global : Text → Text → Tables → Tables
unfolding put
set_global key v t = record t { global_override_rows = put key v t.global_override_rows }

unfoldable pub delete_global : Text → Tables → Tables
unfolding remove
delete_global key t = record t { global_override_rows = remove key t.global_override_rows }

unfoldable pub set_pool_state : Text → PoolState → Tables → Tables
unfolding put
set_pool_state pool state t = record t { pool_state_rows = put pool state t.pool_state_rows }

unfoldable pub set_protected : ℕ → Text → Bool → Tables → Tables
unfolding put remove
set_protected now container true t = record t {
  protected_rows = put container now t.protected_rows;
}
set_protected now container false t = record t {
  protected_rows = remove container t.protected_rows;
}

-- `DELETE FROM runner_status WHERE pool = ?`
unfoldable pub without_pool : Text → Dict Text RunnerStatus → Dict Text RunnerStatus
without_pool pool [] = []
without_pool pool ((container, row) ∷ rest) =
    if text_eq row.pool pool
    then without_pool pool rest
    else (container, row) ∷ without_pool pool rest

unfoldable pub insert_status :
    Text → List (Text × Text × Bool) → Dict Text RunnerStatus → Dict Text RunnerStatus
unfolding put
insert_status pool [] table = table
insert_status pool ((name, status, busy) ∷ rest) table =
    insert_status pool rest (put name (record { pool = pool; status = status; busy = busy }) table)

unfoldable pub replace_runner_status : Text → List (Text × Text × Bool) → Tables → Tables
unfolding without_pool insert_status
replace_runner_status pool rows t = record t {
  runner_status_rows = insert_status pool rows (without_pool pool t.runner_status_rows);
}

unfoldable pub idempotent_response : Text → Tables → Option Text
unfolding get
idempotent_response key t = elim (get key t.idempotency) [ none ↦ none | some row ↦ some row.1 ]

unfoldable pub remember_response : ℕ → Text → Text → Tables → Tables
unfolding put
remember_response now key response t = record t {
  idempotency = put key (now, response) t.idempotency;
}

unfoldable pub prune_idempotency : ℕ → ℕ → Tables → Tables
prune_idempotency now hours t = record t {
  idempotency = keep (λ e. since now (hours * 3600) e.1) t.idempotency;
}
