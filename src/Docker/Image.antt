-- ===== src/Docker/Image.antt =====
-- Keeping the runner image usable: `_image_state`, `_backing_off`, `_pull` and `ensure_image` of
-- orchestrator/rorch/docker_client.py. The group that owns the socket, whether there is a build
-- context, and `time.monotonic()` as a function of the world (in whole seconds), are arguments.
pub mod Pause
use selfhosted_runner_swarm.Prelude.{
  ℕ, zero, suc, ◌+◌, ◌==◌, Bool, true, false, ◌||◌, Option, none, some, List, [], ◌∷◌, ◌++◌,
  if◌then◌else◌, ltb,
}
use selfhosted_runner_swarm.Prelude.Text.{Text, codes, is, strip, truthy, text_eq, show}
use selfhosted_runner_swarm.Prelude.Dict.{Dict, get, put, text_key}
use selfhosted_runner_swarm.Docker.{Docker, Run, capture, exec}
use selfhosted_runner_swarm.Docker.Names.{expand_image, is_registry_ref, pinned_runner_version}

abbrev pub build_retry_seconds : ℕ
build_retry_seconds = 300

abbrev runner_build_context : Text
runner_build_context = codes "/app/runner-image"

-- `None`, or why the image has to be pulled or built.
pub data ImageState : Type 0 where
  usable missing foreign_gid : ImageState

unfoldable pub is_usable : ImageState → Bool
is_usable usable = true
is_usable missing = false
is_usable foreign_gid = false

abbrev pub RetryTimes : Type 0
RetryTimes = Dict Text ℕ

-- A method that reads and writes `_build_retry_at`.
abbrev pub Step : Type 0 → Type 0 → Type 0
Step W A = RetryTimes × W → A × (RetryTimes × W)

unfoldable pub backing_off : Text → ℕ → RetryTimes → Bool
unfolding get
backing_off image now retry_at = elim (get image retry_at) [
  | none ↦ ltb now 0
  | some at ↦ ltb now at
]

module _ {W : Type 0} (d : Docker W) where
  abbrev label_state : ℕ → Text × ℕ → ImageState
  label_state gid (out, suc code) = missing
  label_state gid (out, zero) =
      if is (strip out) "runtime" || text_eq (strip out) (show gid) then usable else foreign_gid

  unfoldable pub image_state : Text → ℕ → Run W ImageState
  unfolding capture strip text_eq show
  image_state image gid w =
      let (answer, after) =
        capture d
          (codes "image"
            ∷ codes "inspect"
            ∷ codes "-f"
            ∷ codes "{{index .Config.Labels \"rorch.docker_gid\"}}"
            ∷ image
            ∷ [])
          w in
      (label_state gid answer, after)

  abbrev paused : Text → ℕ → RetryTimes → RetryTimes
  paused image now retry_at = put image (now + build_retry_seconds) retry_at

  -- `docker build`, with the agent's version where the tag pins one
  unfoldable pub build_command : Text → List Text
  unfolding pinned_runner_version
  build_command image =
      let pinned = pinned_runner_version image in
      codes "build"
      ∷ ((if truthy pinned
            then codes "--build-arg" ∷ (codes "RUNNER_VERSION=" ++ pinned) ∷ []
            else [])
          ++ codes "-t" ∷ image ∷ runner_build_context ∷ [])

  module _ (clock : W → ℕ) where
    unfoldable pub pull : Text → ℕ → Step W Bool
    unfolding backing_off exec image_state is_usable put
    pull image gid (retry_at, w) =
        let (code, pulled) = exec d (codes "pull" ∷ image ∷ []) w in
        let (state, after) = image_state image gid pulled in
        if backing_off image (clock w) retry_at
        then (false, (retry_at, w))
        else if code == 0
        then (is_usable state, (retry_at, after))
        else (false, (paused image (clock pulled) retry_at, pulled))

    unfoldable pub build : Text → Step W Bool
    unfolding backing_off exec build_command put
    build image (retry_at, w) =
        let (code, built) = exec d (build_command image) w in
        if backing_off image (clock w) retry_at
        then (false, (retry_at, w))
        else if code == 0
        then (true, (retry_at, built))
        else (false, (paused image (clock built) retry_at, built))

    unfoldable pub ensure_image : Text → ℕ → Bool → Text → Step W Bool
    unfolding expand_image image_state is_usable is_registry_ref pull build
    ensure_image version gid has_context reference (retry_at, w) =
        let image = expand_image version reference in
        let (state, looked) = image_state image gid w in
        if is_usable state
        then (true, (retry_at, looked))
        else if is_registry_ref image
        then pull image gid (retry_at, looked)
        else if has_context
        then build image (retry_at, looked)
        else (false, (retry_at, looked))
