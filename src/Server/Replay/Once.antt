-- ===== src/Server/Replay/Once.antt =====
-- Requests that share one idempotency key, `idempotent` of orchestrator/rorch/server/auth.py.
use selfhosted_runner_swarm.Prelude.{ℕ, ◌≤◌, ◌≡◌, none, some, count_if}
use selfhosted_runner_swarm.Prelude.Text.{Text, text_eq}
use selfhosted_runner_swarm.Prelude.Dict.{get, text_key}
use selfhosted_runner_swarm.Server.Replay.{working, Requests}

abbrev pub successes_of : Text → Requests → ℕ
successes_of key r = count_if (λ k. text_eq k key) r.successes

-- The successful runs of the key whose answer was lost.
abbrev pub lost_of : Text → Requests → ℕ
lost_of key r = count_if (λ k. text_eq k key) r.lost

record Ordered (r : Requests) (key : Text) : Type 0 where
  at_work : get key r.in_flight ≡ some working → successes_of key r ≡ 0
  unanswered : get key r.responses ≡ none → successes_of key r ≡ 0
  at_most_one : successes_of key r ≤ 1

-- The key is in order as long as none of its answers is lost.
abbrev Kept : Requests → Text → Type 0
Kept r key = lost_of key r ≡ 0 → Ordered r key
