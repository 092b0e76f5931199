-- ===== src/Federation/Snapshot.antt =====
-- What hosts tell each other, and how an answer is checked: `build_snapshot`, `_number` and
-- `validate_snapshot` of orchestrator/rorch/federation.py. A JSON number is finite and given in
-- hundredths, or is one of the infinities and NaN.
pub mod Bounds
use selfhosted_runner_swarm.Prelude.{
  ℕ, zero, suc, ◌+◌, ◌*◌, ◌/◌, Bool, true, false, not, ◌&&◌, ◌||◌, Option, none, some, List, [],
  ◌∷◌, if◌then◌else◌, length, leb,
}
use selfhosted_runner_swarm.Prelude.Int.{ℤ, pos, negsuc, pos_part, leb_ℤ}
use selfhosted_runner_swarm.Prelude.Text.{Text, codes, text_eq, truthy}
use selfhosted_runner_swarm.Prelude.Dict.{Dict, put, text_key}
use selfhosted_runner_swarm.Federation.Settings.{is_name}

mutual
  pub data Json : Type 0 where
    null : Json
    boolean : Bool → Json
    number : ℤ → Json
    not_finite : Json
    string : Text → Json
    array : Elements → Json
    object : Members → Json

  pub data Elements : Type 0 where
    end : Elements
    element : Json → Elements → Elements

  pub data Members : Type 0 where
    empty : Members
    member : Text → Json → Members → Members

abbrev pub max_count : ℕ
max_count = 1000

abbrev pub max_cores : ℕ
max_cores = 1024

-- Load and temperature are in hundredths.
pub record HostMetrics : Type 0 where
  pub cores : ℕ
  pub cpu_count : ℕ
  pub load1 : ℤ
  pub mem_total_mb : ℕ
  pub mem_available_mb : ℕ
  pub temp_c : Option ℤ
  pub free_cores : ℕ

pub record PoolLoad : Type 0 where
  pub running : ℕ
  pub busy : ℕ
  pub max_runners : ℕ

pub record Snapshot : Type 0 where
  pub instance_name : Text
  pub version : Text
  pub ts : ℤ
  pub host : HostMetrics
  pub pools : Dict Text PoolLoad
  pub global_free : Option ℕ

infixl 5 ◌>>=◌
unfoldable pub ◌>>=◌ : {A B : Type 0} → Option A → (A → Option B) → Option B
none >>= f = none
some a >>= f = f a

-- `d.get(key)`; a missing key reads as `null`, since the code treats them alike.
unfoldable pub field : Text → Members → Json
field key empty = null
field key (member k v rest) = if text_eq k key then v else field key rest

unfoldable pub count_members : Members → ℕ
count_members empty = 0
count_members (member k v rest) = suc (count_members rest)

-- `_number(value, low, high, …)`, the bounds in hundredths; `none` stands for the `ValueError`.
unfoldable pub bounded_number : (low high : ℤ) → Json → Option ℤ
bounded_number low high (number n) = if leb_ℤ low n && leb_ℤ n high then some n else none
bounded_number low high null = none
bounded_number low high (boolean b) = none
bounded_number low high not_finite = none
bounded_number low high (string s) = none
bounded_number low high (array es) = none
bounded_number low high (object ms) = none

-- `int(_number(value, low, high, …))` for bounds that are not negative
unfoldable pub bounded_int : (low high : ℕ) → Json → Option ℕ
unfolding bounded_number ◌>>=◌
bounded_int low high value = do
  n ← bounded_number (pos (100 * low)) (pos (100 * high)) value
  some (pos_part n / 100)

-- `None if value is None else check(value)`
unfoldable pub optional : {A : Type 0} → (Json → Option A) → Json → Option (Option A)
unfolding ◌>>=◌
optional check null = some none
optional check (boolean b) = do a ← check (boolean b); some (some a)
optional check (number n) = do a ← check (number n); some (some a)
optional check not_finite = do a ← check not_finite; some (some a)
optional check (string s) = do a ← check (string s); some (some a)
optional check (array es) = do a ← check (array es); some (some a)
optional check (object ms) = do a ← check (object ms); some (some a)

unfoldable pub as_object : Json → Option Members
as_object (object ms) = some ms
as_object null = none
as_object (boolean b) = none
as_object (number n) = none
as_object not_finite = none
as_object (string s) = none
as_object (array es) = none

-- `isinstance(instance, str) and (instance == "" or _NAME_RE.fullmatch(instance))`
unfoldable pub instance_text : Json → Option Text
unfolding is_name
instance_text (string s) = if not (truthy s) || is_name s then some s else none
instance_text null = none
instance_text (boolean b) = none
instance_text (number n) = none
instance_text not_finite = none
instance_text (array es) = none
instance_text (object ms) = none

unfoldable pub pool_load : Json → Option PoolLoad
unfolding as_object field bounded_int ◌>>=◌
pool_load value = do
  counts ← as_object value
  running ← bounded_int 0 max_count (field (codes "running") counts)
  busy ← bounded_int 0 max_count (field (codes "busy") counts)
  max_runners ← bounded_int 0 max_count (field (codes "max_runners") counts)
  some (record { running = running; busy = busy; max_runners = max_runners })

unfoldable pub clean_pools : Members → Dict Text PoolLoad → Option (Dict Text PoolLoad)
unfolding pool_load put ◌>>=◌
clean_pools empty clean = some clean
clean_pools (member name value rest) clean = do
  load ← (if leb (length name) 200 then pool_load value else none)
  clean_pools rest (put name load clean)

unfoldable pub clean_host : Members → Option HostMetrics
unfolding field bounded_int bounded_number optional ◌>>=◌
clean_host host = do
  cores ← bounded_int 1 max_cores (field (codes "cores") host)
  cpu_count ← bounded_int 1 max_cores (field (codes "cpu_count") host)
  load1 ← bounded_number (pos 0) (pos (100 * 100000)) (field (codes "load1") host)
  mem_total_mb ← bounded_int 0 1073741824 (field (codes "mem_total_mb") host)
  mem_available_mb ← bounded_int 0 1073741824 (field (codes "mem_available_mb") host)
  temp_c ← optional (bounded_number (negsuc 4999) (pos 15000)) (field (codes "temp_c") host)
  free_cores ← bounded_int 0 max_cores (field (codes "free_cores") host)
  some (record {
    cores = cores;
    cpu_count = cpu_count;
    load1 = load1;
    mem_total_mb = mem_total_mb;
    mem_available_mb = mem_available_mb;
    temp_c = temp_c;
    free_cores = free_cores;
  })

-- `text[:n]`
unfoldable pub first : ℕ → Text → Text
first zero s = []
first (suc n) [] = []
first (suc n) (c ∷ s) = c ∷ first n s

unfoldable pub has_key : Text → Members → Bool
has_key key empty = false
has_key key (member k v rest) = if text_eq k key then true else has_key key rest

-- `data.get(key, default)`
unfoldable pub field_or : Text → Json → Members → Json
unfolding has_key field
field_or key default ms = if has_key key ms then field key ms else default

-- `str(…)` of a value that is not a string is a parameter.
module _ (str : Json → Text) where
  unfoldable pub version_text : Json → Text
  unfolding first
  version_text (string s) = first 64 s
  version_text null = first 64 (str null)
  version_text (boolean b) = first 64 (str (boolean b))
  version_text (number n) = first 64 (str (number n))
  version_text not_finite = first 64 (str not_finite)
  version_text (array es) = first 64 (str (array es))
  version_text (object ms) = first 64 (str (object ms))

  unfoldable pub validate_snapshot : Json → Option Snapshot
  unfolding as_object field field_or instance_text count_members clean_pools clean_host
      bounded_number bounded_int optional version_text ◌>>=◌
  validate_snapshot value = do
    answer ← as_object value
    name ← instance_text (field (codes "instance") answer)
    host ← as_object (field (codes "host") answer)
    pools ← as_object (field (codes "pools") answer)
    clean ← (if leb (count_members pools) max_count then clean_pools pools [] else none)
    ts ←
        bounded_number (pos 0) (pos (100 * 100000000000))
          (field_or (codes "ts") (number (pos 0)) answer)
    metrics ← clean_host host
    global_free ← optional (bounded_int 0 max_count) (field (codes "global_free") answer)
    some (record {
      instance_name = name;
      version = version_text (field_or (codes "version") (string []) answer);
      ts = ts;
      host = metrics;
      pools = clean;
      global_free = global_free;
    })

-- `build_snapshot(…)` at a time
unfoldable pub build_snapshot :
    Text → Text → ℤ → HostMetrics → Dict Text PoolLoad → Option ℕ → Snapshot
build_snapshot name version now metrics pools global_free = record {
  instance_name = name;
  version = version;
  ts = now;
  host = metrics;
  pools = pools;
  global_free = global_free;
}
