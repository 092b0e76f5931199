-- ===== src/Config/Usable/Container.antt =====
-- The tests on the container settings.
use selfhosted_runner_swarm.Prelude.{
  ℕ, Bool, true, false, not, ◌&&◌, ◌||◌, ◌≡◌, ◌⊎◌, inl, inr, refl, Option, none, some, arith,
}
use selfhosted_runner_swarm.Prelude.Text.{Text, codes, is, text_eq, text_eq_iff}
use selfhosted_runner_swarm.Config.{PoolConfig}
use selfhosted_runner_swarm.Config.Size.{parse_size, work_tmpfs_enabled, effective_work_tmpfs_size}
use selfhosted_runner_swarm.Config.Validation.{is_none, container_tests}
use selfhosted_runner_swarm.Config.Usable.{IsRunnable, falsy→nil, AllFail}

tmpfs_size :
    (enabled : Bool) (size : Option ℕ)
    → (enabled && is_none size) ≡ false
    → (enabled ≡ false) ⊎ ((n : ℕ) × (size ≡ some n))
tmpfs_size false size h = inl refl
tmpfs_size true none h = cc
tmpfs_size true (some n) h = inr (n, refl)

tmpfs_test :
    (enabled : Bool) (size : Option ℕ)
    → (enabled ≡ false) ⊎ ((n : ℕ) × (size ≡ some n))
    → (enabled && is_none size) ≡ false
tmpfs_test enabled size h = ground arith

pub container_tests-IsRunnable : (p : PoolConfig) → AllFail (container_tests p) → IsRunnable p
unfolding container_tests
container_tests-IsRunnable p (network, (tmpfs, (hook, _))) = record {
  network = ground (
    arith,
    text_eq_iff p.network_mode (codes "host"),
    text_eq_iff p.network_mode (codes "bridge"),
  );
  tmpfs = tmpfs_size (work_tmpfs_enabled p) (parse_size (effective_work_tmpfs_size p)) tmpfs;
  hook = ground (arith, falsy→nil p.job_started_hook);
}

network_test :
    (mode : Text)
    → (mode ≡ codes "host") ⊎ (mode ≡ codes "bridge")
    → not (is mode "host" || is mode "bridge") ≡ false
unfolding text_eq
network_test mode (inl e) = rw e
network_test mode (inr e) = rw e

pub IsRunnable-tests : (p : PoolConfig) → IsRunnable p → AllFail (container_tests p)
unfolding container_tests
IsRunnable-tests p r = (
  network_test p.network_mode r.network,
  (
    tmpfs_test (work_tmpfs_enabled p) (parse_size (effective_work_tmpfs_size p)) r.tmpfs,
    (ground (arith, r.hook), tt),
  ),
)
