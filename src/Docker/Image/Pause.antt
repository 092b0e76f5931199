-- ===== src/Docker/Image/Pause.antt =====
-- The pause after a failed build or pull of the runner image.
use mathlib.Core.Bool.{true≢false}
use selfhosted_runner_swarm.Prelude.{
  ℕ, ◌+◌, ◌<◌, ◌≡◌, ◌==◌, refl, sym, subst, ◌∙◌, true, false, arith, Bool-cases, inl, inr,
}
use selfhosted_runner_swarm.Prelude.Text.{Text, text_eq_iff}
use selfhosted_runner_swarm.Prelude.Dict.{get-put, text_key}
use selfhosted_runner_swarm.Docker.{Docker, exec}
use selfhosted_runner_swarm.Docker.Image.{
  RetryTimes, build_retry_seconds, backing_off, paused, build, build_command,
}

module _ {W : Type 0} (d : Docker W) (clock : W → ℕ) where
  backing_off-paused :
      (image : Text) (now later : ℕ) (retry_at : RetryTimes)
      → later < now + build_retry_seconds
      → backing_off image later (paused d image now retry_at) ≡ true
  unfolding backing_off
  backing_off-paused image now later retry_at early =
      ground
        (arith, get-put image image (now + build_retry_seconds) retry_at, text_eq_iff image image)

  idle_build :
      (image : Text) (retry_at : RetryTimes) (w : W)
      → backing_off image (clock w) retry_at ≡ true
      → build d clock image (retry_at, w) ≡ (false, (retry_at, w))
  unfolding build
  idle_build image retry_at w e = rw (build, e) refl

  good_build :
      (image : Text) (retry_at : RetryTimes) (w : W)
      → backing_off image (clock w) retry_at ≡ false
      → ((exec d (build_command d image) w).0 == 0) ≡ true
      → (build d clock image (retry_at, w)).0 ≡ true
  unfolding build
  good_build image retry_at w e f = rw (build, e, f) refl

  bad_build :
      (image : Text) (retry_at : RetryTimes) (w : W)
      → backing_off image (clock w) retry_at ≡ false
      → ((exec d (build_command d image) w).0 == 0) ≡ false
      → (build d clock image (retry_at, w)).1.0
        ≡ paused d image (clock (build d clock image (retry_at, w)).1.1) retry_at
  unfolding build
  bad_build image retry_at w e f = rw (build, e, f) refl

  -- A build that was tried and failed leaves the image alone for 300 seconds from the moment at which
  -- it failed: where the clock reads less, a build is refused at once, no command runs, and the time of
  -- the next try stays.
  pub failed_build_pauses :
      (image : Text) (retry_at : RetryTimes) (w w' : W)
      → backing_off image (clock w) retry_at ≡ false
      → (build d clock image (retry_at, w)).0 ≡ false
      → clock w' < clock (build d clock image (retry_at, w)).1.1 + build_retry_seconds
      → build d clock image ((build d clock image (retry_at, w)).1.0, w')
        ≡ (false, ((build d clock image (retry_at, w)).1.0, w'))
  failed_build_pauses image retry_at w w' may failed early =
      elim (Bool-cases ((exec d (build_command d image) w).0 == 0)) [
        | inl e ↦ absurd (true≢false (sym (good_build image retry_at w may e) ∙ failed))
        | inr e ↦ idle_build image (build d clock image (retry_at, w)).1.0 w' (
            subst (λ r. backing_off image (clock w') r ≡ true)
              (sym (bad_build image retry_at w may e))
              (backing_off-paused image (clock (build d clock image (retry_at, w)).1.1) (clock w')
                retry_at early))
      ]
