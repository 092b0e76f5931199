-- ===== src/Config/Usable/Numbers.antt =====
-- The tests on the numbers against their ranges.
use selfhosted_runner_swarm.Prelude.{
  ℕ, true, false, not, ◌&&◌, ◌≡◌, ◌⊎◌, inl, inr, refl, [], ◌∷◌, all, arith, Bool-cases,
}
use selfhosted_runner_swarm.Prelude.Int.{ℤ, pos, negsuc, in_range}
use selfhosted_runner_swarm.Prelude.Text.{Text, truthy}
use selfhosted_runner_swarm.Config.{PoolConfig}
use selfhosted_runner_swarm.Config.Validation.{is_negative, is_zero, is_lower_alnum, number_tests}
use selfhosted_runner_swarm.Config.Usable.{Within, Nonneg, IsInRange, AllFail}

within : (low high : ℕ) (a : ℤ) → in_range low high a ≡ true → Within low high a
within low high (pos n) h = (n, refl, ground arith, ground arith)
within low high (negsuc n) h = cc

nonneg : (a : ℤ) → is_negative a ≡ false → Nonneg a
nonneg (pos n) h = (n, refl)
nonneg (negsuc n) h = cc

zero_int : (a : ℤ) → is_zero a ≡ true → a ≡ pos 0
zero_int (pos n) h = ground arith
zero_int (negsuc n) h = cc

poll_range :
    (a : ℤ) → (not (is_zero a) && not (in_range 15 3600 a)) ≡ false → (a ≡ pos 0) ⊎ Within 15 3600 a
poll_range a h = elim (Bool-cases (is_zero a)) [
  | inl z ↦ inl (zero_int a z)
  | inr nz ↦ inr (within 15 3600 a (ground arith))
]

instance_range :
    (s : Text) → (truthy s && not (all is_lower_alnum s)) ≡ false → all is_lower_alnum s ≡ true
instance_range [] h = refl
instance_range (c ∷ s) h = ground arith

pub number_tests-IsInRange : (p : PoolConfig) → AllFail (number_tests p) → IsInRange p
unfolding number_tests
number_tests-IsInRange p
      (ttl, (poll, (age, (chars, (stuck, (checkers, (operators, (ceiling, (floor, _))))))))) =
    record {
      ttl = nonneg p.repo_discovery_ttl ttl;
      poll = poll_range p.github_poll_interval poll;
      min_age = within 0 86400 p.queued_min_age (ground arith);
      instance_chars = instance_range p.instance_name chars;
      stuck = within 1 1440 p.stuck_timeout (ground arith);
      checkers = within 1 32 p.repo_check_workers (ground arith);
      operators = within 1 16 p.runner_operation_workers (ground arith);
      ceiling = nonneg p.max_runners ceiling;
      floor = nonneg p.min_idle floor;
    }

in_range_of_Within : (low high : ℕ) (a : ℤ) → Within low high a → in_range low high a ≡ true
in_range_of_Within low high a (n, e, lo, hi) = rw e (ground arith)

Nonneg-test : (a : ℤ) → Nonneg a → is_negative a ≡ false
Nonneg-test a (n, e) = rw e

poll_test :
    (a : ℤ) → (a ≡ pos 0) ⊎ Within 15 3600 a → (not (is_zero a) && not (in_range 15 3600 a)) ≡ false
poll_test a (inl e) = rw e
poll_test a (inr w) = ground (arith, in_range_of_Within 15 3600 a w)

pub IsInRange-tests : (p : PoolConfig) → IsInRange p → AllFail (number_tests p)
unfolding number_tests
IsInRange-tests p r = (
  Nonneg-test p.repo_discovery_ttl r.ttl,
  (
    poll_test p.github_poll_interval r.poll,
    (
      rw (in_range_of_Within 0 86400 p.queued_min_age r.min_age),
      (
        ground (arith, r.instance_chars),
        (
          rw (in_range_of_Within 1 1440 p.stuck_timeout r.stuck),
          (
            rw (in_range_of_Within 1 32 p.repo_check_workers r.checkers),
            (
              rw (in_range_of_Within 1 16 p.runner_operation_workers r.operators),
              (Nonneg-test p.max_runners r.ceiling, (Nonneg-test p.min_idle r.floor, tt)),
            ),
          ),
        ),
      ),
    ),
  ),
)
