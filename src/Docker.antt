-- ===== src/Docker.antt =====
-- Runner containers, managed through the Docker command line: orchestrator/rorch/docker_client.py.
-- A parameter `Docker` stands for the commands and for the events of the store; the log is left out.
pub mod Names
pub mod Cleanup
pub mod Image
pub mod Spawn
pub mod Details
pub mod Prune
use selfhosted_runner_swarm.Prelude.{ℕ, Bool, List}
use selfhosted_runner_swarm.Prelude.Text.{Text, strip}

pub data EventKind : Type 0 where
  event_exit event_stuck_kill event_aged_kill event_manual_stop event_spawn event_spawn_failed :
      EventKind

pub record Event : Type 0 where
  pub kind : EventKind
  pub container : Text
  pub pool : Text
  pub reason : Text

abbrev pub Run : Type 0 → Type 0 → Type 0
Run W A = W → A × W

pub record Docker (W : Type 0) : Type 0 where
  -- standard output and exit status of `docker …`
  pub output : List Text → Run W (Text × ℕ)
  -- both streams of `docker logs`
  pub logs : List Text → Run W Text
  -- the store's `record_event`, where there is a store; it never fails the caller
  pub record_event : Event → W → W

module _ {W : Type 0} where
  abbrev pub pure : {A : Type 0} → A → Run W A
  pure a w = (a, w)

  infixl 5 ◌>>=◌ ◌>>◌
  unfoldable pub ◌>>=◌ : {A B : Type 0} → Run W A → (A → Run W B) → Run W B
  ◌>>=◌ m f w = let (a, after) = m w in f a after

  unfoldable pub ◌>>◌ : {B : Type 0} → Run W (Unit {0}) → Run W B → Run W B
  ◌>>◌ m k w = k (m w).1

  -- `_capture`
  unfoldable pub capture : Docker W → List Text → Run W (Text × ℕ)
  unfolding strip
  capture d args w = let ((out, code), after) = d.output args w in ((strip out, code), after)

  -- `_exec`
  unfoldable pub exec : Docker W → List Text → Run W ℕ
  exec d args w = let ((out, code), after) = d.output args w in (code, after)

  -- `_record`
  unfoldable pub note_event : Docker W → Event → Run W (Unit {0})
  note_event d e w = (tt, d.record_event e w)
