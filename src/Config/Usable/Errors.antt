-- ===== src/Config/Usable/Errors.antt =====
-- The whole of `validation_errors`, and the repository pools of `for_repository`.
use selfhosted_runner_swarm.Prelude.{◌≡◌, ◌≢◌, ◌↔◌, inr, refl, List, [], ◌∷◌, ◌++◌, map, All}
use selfhosted_runner_swarm.Prelude.Text.{Text}
use selfhosted_runner_swarm.Config.{PoolConfig, for_repository}
use selfhosted_runner_swarm.Config.Size.{work_tmpfs_enabled, effective_work_tmpfs_size}
use selfhosted_runner_swarm.Config.Validation.{
  report, identity_tests, number_tests, container_tests, pool_problems, validation_errors,
}
use selfhosted_runner_swarm.Config.Usable.{IsUsable, report-nil, nil-report}
use selfhosted_runner_swarm.Config.Usable.Numbers.{number_tests-IsInRange, IsInRange-tests}
use selfhosted_runner_swarm.Config.Usable.Identity.{identity_tests-IsIdentified, IsIdentified-tests}
use selfhosted_runner_swarm.Config.Usable.Container.{container_tests-IsRunnable, IsRunnable-tests}

map-nil : {A B : Type 0} (f : A → B) (xs : List A) → map f xs ≡ [] → xs ≡ []
map-nil f [] h = refl
map-nil f (x ∷ xs) h = cc

append-nil_both : {A : Type 0} (xs ys : List A) → xs ++ ys ≡ [] → (xs ≡ []) × (ys ≡ [])
append-nil_both [] ys h = (refl, h)
append-nil_both (x ∷ xs) ys h = cc

pool_problems-IsUsable : (p : PoolConfig) → pool_problems p ≡ [] → IsUsable p
unfolding pool_problems
pool_problems-IsUsable p h =
    let (i, rest) =
      append-nil_both (report (identity_tests p))
        (report (number_tests p) ++ report (container_tests p)) h in
    let (n, c) = append-nil_both (report (number_tests p)) (report (container_tests p)) rest in
    record {
      identified = identity_tests-IsIdentified p (report-nil (identity_tests p) i);
      ranged = number_tests-IsInRange p (report-nil (number_tests p) n);
      runnable = container_tests-IsRunnable p (report-nil (container_tests p) c);
    }

IsUsable-pool_problems : (p : PoolConfig) → IsUsable p → pool_problems p ≡ []
unfolding pool_problems
IsUsable-pool_problems p u = rw (
  nil-report (identity_tests p) (IsIdentified-tests p u.identified),
  nil-report (number_tests p) (IsInRange-tests p u.ranged),
  nil-report (container_tests p) (IsRunnable-tests p u.runnable),
)

validation_errors→All :
    (pools : List PoolConfig) → validation_errors pools ≡ [] → All IsUsable pools
unfolding validation_errors
validation_errors→All [] h = tt
validation_errors→All (p ∷ pools) h =
    let (here, rest) =
      append-nil_both (map (λ problem. (p.name, problem)) (pool_problems p))
        (validation_errors pools) h in
    (
      pool_problems-IsUsable p (map-nil (λ problem. (p.name, problem)) (pool_problems p) here),
      validation_errors→All pools rest,
    )

All→validation_errors :
    (pools : List PoolConfig) → All IsUsable pools → validation_errors pools ≡ []
unfolding validation_errors
All→validation_errors [] h = refl
All→validation_errors (p ∷ pools) h =
    rw (IsUsable-pool_problems p h.0, All→validation_errors pools h.1)

-- Validation reports nothing exactly when every pool is usable: its token is set and resolved, its
-- forge, scope, URL and repository agree, every number that is checked is in its range, its
-- network mode is known, its tmpfs size reads as a size and its hook's path is absolute. (The limits
-- on memory and processors are not checked.)
pub validation_errors_iff :
    (pools : List PoolConfig) → (validation_errors pools ≡ []) ↔ All IsUsable pools
validation_errors_iff pools = (validation_errors→All pools, All→validation_errors pools)

for_repository-IsUsable :
    (p : PoolConfig) (repo : Text) → repo ≢ [] → IsUsable p → IsUsable (for_repository p repo)
unfolding for_repository work_tmpfs_enabled effective_work_tmpfs_size
for_repository-IsUsable p repo named u = record {
  identified = record {
    token = u.identified.token;
    owned = u.identified.owned;
    forge = u.identified.forge;
    scoped = inr (inr (refl, named));
  };
  ranged = record {
    ttl = u.ranged.ttl;
    poll = u.ranged.poll;
    min_age = u.ranged.min_age;
    instance_chars = u.ranged.instance_chars;
    stuck = u.ranged.stuck;
    checkers = u.ranged.checkers;
    operators = u.ranged.operators;
    ceiling = u.ranged.ceiling;
    floor = (0, refl);
  };
  runnable = record {
    network = u.runnable.network;
    tmpfs = u.runnable.tmpfs;
    hook = u.runnable.hook;
  };
}

-- A pool that validation accepts gives, for every repository with a name, a repository pool that
-- validation accepts too.
pub for_repository-validation_errors :
    (p : PoolConfig) (repo : Text)
    → repo ≢ []
    → validation_errors (p ∷ []) ≡ []
    → validation_errors (for_repository p repo ∷ []) ≡ []
for_repository-validation_errors p repo named h =
    (validation_errors_iff (for_repository p repo ∷ [])).1
      (for_repository-IsUsable p repo named ((validation_errors_iff (p ∷ [])).0 h).0, tt)
