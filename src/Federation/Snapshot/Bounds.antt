-- ===== src/Federation/Snapshot/Bounds.antt =====
-- The bounds of a checked snapshot, `validate_snapshot` of orchestrator/rorch/federation.py.
use selfhosted_runner_swarm.Prelude.Text.{text_eq, Text, codes}
use selfhosted_runner_swarm.Prelude.{
  ◌⊎◌, ◌&&◌, ℕ, zero, suc, ◌*◌, ◌/◌, ◌≤◌, ◌≡◌, refl, Bool, true, false, Option, none, some, [], ◌∷◌,
  if◌then◌else◌, length, leb, arith, Bool-cases, inl, inr, All,
}
use selfhosted_runner_swarm.Prelude.Int.{ℤ, pos, negsuc, pos_part, leb_ℤ}
use selfhosted_runner_swarm.Prelude.Dict.{Dict, put, text_key}
use selfhosted_runner_swarm.Federation.Snapshot.{
  object, array, string, not_finite, empty, member, count_members, boolean, Json, number, Members,
  HostMetrics, PoolLoad, Snapshot, ◌>>=◌, field, bounded_number, bounded_int, optional, as_object,
  instance_text, pool_load, clean_pools, clean_host, first, validate_snapshot, max_count, max_cores,
  null, version_text,
}
use selfhosted_runner_swarm.Federation.Settings.{is_name}

-- The value that a check lets through, if it does, satisfies the predicate.
abbrev pub IfAccepted : {A : Type 0} → (A → Type 0) → Option A → Type 0
IfAccepted P none = Unit
IfAccepted P (some a) = P a

IfAccepted-bind :
    {A B : Type 0} (P : A → Type 0) (Q : B → Type 0) (o : Option A) (f : A → Option B)
    → IfAccepted P o
    → ((a : A) → P a → IfAccepted Q (f a))
    → IfAccepted Q (o >>= f)
unfolding ◌>>=◌
IfAccepted-bind P Q none f p h = tt
IfAccepted-bind P Q (some a) f p h = h a p

abbrev Inside : ℕ → ℕ → ℕ → Type 0
Inside low high n = (low ≤ n) × (n ≤ high)

hundredths-Inside :
    (low high : ℕ) (n : ℤ)
    → (leb_ℤ (pos (100 * low)) n && leb_ℤ n (pos (100 * high))) ≡ true
    → Inside low high (pos_part n / 100)
hundredths-Inside low high (pos m) h = ground arith
hundredths-Inside low high (negsuc m) h = ground arith

checked :
    (low high : ℕ) (b : Bool) (n : ℤ)
    → (b ≡ true → Inside low high (pos_part n / 100))
    → IfAccepted (Inside low high) ((if b then some n else none) >>= λ k. some (pos_part k / 100))
unfolding ◌>>=◌
checked low high true n h = h refl
checked low high false n h = tt

bounded_int-Inside :
    (low high : ℕ) (value : Json) → IfAccepted (Inside low high) (bounded_int low high value)
unfolding bounded_int bounded_number ◌>>=◌
bounded_int-Inside low high (number n) =
    checked low high (leb_ℤ (pos (100 * low)) n && leb_ℤ n (pos (100 * high))) n
      (hundredths-Inside low high n)
bounded_int-Inside low high null = tt
bounded_int-Inside low high (boolean b) = tt
bounded_int-Inside low high not_finite = tt
bounded_int-Inside low high (string s) = tt
bounded_int-Inside low high (array es) = tt
bounded_int-Inside low high (object ms) = tt

-- A number that no other machine can make larger.
abbrev AtMost : ℕ → ℕ → Type 0
AtMost high n = n ≤ high

abbrev IfKnown : {A : Type 0} → (A → Type 0) → Option A → Type 0
IfKnown P none = Unit
IfKnown P (some a) = P a

pub record BoundedLoad (load : PoolLoad) : Type 0 where
  pub running_le : load.running ≤ max_count
  pub busy_le : load.busy ≤ max_count
  pub max_runners_le : load.max_runners ≤ max_count

pub record BoundedHost (h : HostMetrics) : Type 0 where
  pub cores_between : (1 ≤ h.cores) × (h.cores ≤ max_cores)
  pub cpu_count_between : (1 ≤ h.cpu_count) × (h.cpu_count ≤ max_cores)
  pub free_cores_le : h.free_cores ≤ max_cores

pub record BoundedSnapshot (s : Snapshot) : Type 0 where
  pub host_bounded : BoundedHost s.host
  pub pools_bounded : All (λ entry. BoundedLoad entry.1) s.pools
  pub global_free_le : IfKnown (λ n. n ≤ max_count) s.global_free
  pub version_le : length s.version ≤ 64
  pub named : (s.instance_name ≡ []) ⊎ (is_name s.instance_name ≡ true)

module _ {B : Type 0} (Q : B → Type 0) where
  any_then :
      {A : Type 0} (o : Option A) (f : A → Option B)
      → ((a : A) → IfAccepted Q (f a))
      → IfAccepted Q (o >>= f)
  unfolding ◌>>=◌
  any_then none f h = tt
  any_then (some a) f h = h a

  int_then :
      (low high : ℕ) (value : Json) (f : ℕ → Option B)
      → ((n : ℕ) → Inside low high n → IfAccepted Q (f n))
      → IfAccepted Q (bounded_int low high value >>= f)
  int_then low high value f h =
      IfAccepted-bind (Inside low high) Q (bounded_int low high value) f
        (bounded_int-Inside low high value) h

pool_load-Bounded : (value : Json) → IfAccepted BoundedLoad (pool_load value)
unfolding pool_load
pool_load-Bounded value = any_then BoundedLoad (as_object value) _ (λ counts.
    int_then BoundedLoad 0 max_count (field (codes "running") counts) _ (λ running r.
      int_then BoundedLoad 0 max_count (field (codes "busy") counts) _ (λ busy b.
        int_then BoundedLoad 0 max_count (field (codes "max_runners") counts) _
          (λ max_runners m. record { running_le = r.1; busy_le = b.1; max_runners_le = m.1 }))))

AllBounded : Dict Text PoolLoad → Type 0
AllBounded = All (λ entry. BoundedLoad entry.1)

put-AllBounded :
    (name : Text) (load : PoolLoad) (d : Dict Text PoolLoad)
    → BoundedLoad load
    → AllBounded d
    → AllBounded (put name load d)
unfolding put AllBounded
put-AllBounded name load [] b h = (b, tt)
put-AllBounded name load ((k, v) ∷ d) b h = elim (Bool-cases (text_eq k name)) [
  | inl e ↦ rw e (b, h.1)
  | inr e ↦ rw e (h.0, put-AllBounded name load d b h.1)
]

short_or_none :
    (b : Bool) (value : Json) → IfAccepted BoundedLoad (if b then pool_load value else none)
short_or_none true value = pool_load-Bounded value
short_or_none false value = tt

clean_pools-Bounded :
    (ms : Members) (clean : Dict Text PoolLoad)
    → AllBounded clean
    → IfAccepted AllBounded (clean_pools ms clean)
unfolding clean_pools
clean_pools-Bounded empty clean h = h
clean_pools-Bounded (member name value rest) clean h =
    IfAccepted-bind BoundedLoad AllBounded (if leb (length name) 200 then pool_load value else none)
      (λ load. clean_pools rest (put name load clean)) (short_or_none (leb (length name) 200) value)
      (λ load b.
        clean_pools-Bounded rest (put name load clean) (put-AllBounded name load clean b h))

clean_host-Bounded : (host : Members) → IfAccepted BoundedHost (clean_host host)
unfolding clean_host
clean_host-Bounded host =
    int_then BoundedHost 1 max_cores (field (codes "cores") host) _ (λ cores c.
      int_then BoundedHost 1 max_cores (field (codes "cpu_count") host) _ (λ cpu_count p.
        any_then BoundedHost
          (bounded_number (pos 0) (pos (100 * 100000)) (field (codes "load1") host)) _
          (λ load1.
            any_then BoundedHost (bounded_int 0 1073741824 (field (codes "mem_total_mb") host)) _
              (λ total.
                any_then BoundedHost
                  (bounded_int 0 1073741824 (field (codes "mem_available_mb") host)) _
                  (λ available.
                    any_then BoundedHost
                      (optional (bounded_number (negsuc 4999) (pos 15000))
                        (field (codes "temp_c") host))
                      _
                      (λ temp.
                        int_then BoundedHost 0 max_cores (field (codes "free_cores") host) _
                          (λ free_cores f. record {
                            cores_between = c;
                            cpu_count_between = p;
                            free_cores_le = f.1;
                          })))))))

pools_or_none :
    (b : Bool) (ms : Members) → IfAccepted AllBounded (if b then clean_pools ms [] else none)
unfolding AllBounded
pools_or_none true ms = clean_pools-Bounded ms [] tt
pools_or_none false ms = tt

optional-Inside :
    (o : Option ℕ)
    → IfAccepted (Inside 0 max_count) o
    → IfAccepted (IfKnown (λ n. n ≤ max_count)) (o >>= λ n. some (some n))
unfolding ◌>>=◌
optional-Inside none h = tt
optional-Inside (some n) h = h.1

abbrev WellNamed : Text → Type 0
WellNamed name = (name ≡ []) ⊎ (is_name name ≡ true)

instance_text-WellNamed : (value : Json) → IfAccepted WellNamed (instance_text value)
unfolding instance_text
instance_text-WellNamed (string []) = inl refl
instance_text-WellNamed (string (c ∷ s)) = elim (Bool-cases (is_name (c ∷ s))) [
  | inl e ↦ rw e (inr e)
  | inr e ↦ rw e tt
]
instance_text-WellNamed null = tt
instance_text-WellNamed (boolean b) = tt
instance_text-WellNamed (number n) = tt
instance_text-WellNamed not_finite = tt
instance_text-WellNamed (array es) = tt
instance_text-WellNamed (object ms) = tt

optional_int :
    (value : Json)
    → IfAccepted (IfKnown (λ n. n ≤ max_count)) (optional (bounded_int 0 max_count) value)
unfolding optional bounded_int bounded_number ◌>>=◌
optional_int null = tt
optional_int (number n) =
    optional-Inside (bounded_int 0 max_count (number n)) (bounded_int-Inside 0 max_count (number n))
optional_int (boolean b) = tt
optional_int not_finite = tt
optional_int (string s) = tt
optional_int (array es) = tt
optional_int (object ms) = tt

length-first : (n : ℕ) (s : Text) → length (first n s) ≤ n
unfolding first
length-first zero s = omega arith
length-first (suc n) [] = omega arith
length-first (suc n) (c ∷ s) = omega (arith, length-first n s)

module _ (str : Json → Text) where
  length-version_text : (value : Json) → length (version_text str value) ≤ 64
  unfolding version_text
  length-version_text (string s) = length-first 64 s
  length-version_text null = length-first 64 (str null)
  length-version_text (boolean b) = length-first 64 (str (boolean b))
  length-version_text (number n) = length-first 64 (str (number n))
  length-version_text not_finite = length-first 64 (str not_finite)
  length-version_text (array es) = length-first 64 (str (array es))
  length-version_text (object ms) = length-first 64 (str (object ms))

  -- Whatever a peer answers, if the answer is accepted then every count in it is at most 1000, the
  -- cores are between 1 and 1024 and the free ones at most 1024, the version has at most 64
  -- characters, and the name is empty or a well-formed name.
  pub validate_snapshot-Bounded :
      (answer : Json) → IfAccepted BoundedSnapshot (validate_snapshot str answer)
  unfolding validate_snapshot AllBounded
  validate_snapshot-Bounded answer = any_then BoundedSnapshot (as_object answer) _ (λ ms.
      IfAccepted-bind WellNamed BoundedSnapshot (instance_text (field (codes "instance") ms)) _
        (instance_text-WellNamed (field (codes "instance") ms))
        (λ name n. any_then BoundedSnapshot (as_object (field (codes "host") ms)) _ (λ host.
          any_then BoundedSnapshot (as_object (field (codes "pools") ms)) _ (λ pools.
            IfAccepted-bind AllBounded BoundedSnapshot _ _
              (pools_or_none (leb (count_members pools) max_count) pools)
              (λ clean c. any_then BoundedSnapshot _ _ (λ ts.
                IfAccepted-bind BoundedHost BoundedSnapshot (clean_host host) _
                  (clean_host-Bounded host)
                  (λ metrics m.
                    IfAccepted-bind (IfKnown (λ k. k ≤ max_count)) BoundedSnapshot _ _
                      (optional_int (field (codes "global_free") ms))
                      (λ free f. record {
                        host_bounded = m;
                        pools_bounded = c;
                        global_free_le = f;
                        version_le = length-version_text _;
                        named = n;
                      }))))))))
