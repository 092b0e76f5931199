-- ===== src/Server/Guard.antt =====
-- `TokenGuard` of orchestrator/rorch/server/deps.py: failures per client, and the time of the last.
-- Times are whole seconds of `time.time()`.
pub mod Lockout
use selfhosted_runner_swarm.Prelude.{
  ℕ, zero, suc, ◌+◌, Bool, true, false, Option, none, some, List, [], ◌∷◌, if◌then◌else◌, ltb, leb,
}
use selfhosted_runner_swarm.Prelude.Text.{Text}
use selfhosted_runner_swarm.Prelude.Dict.{Dict, get, put, remove, text_key}

abbrev pub max_token_failures : ℕ
max_token_failures = 10

abbrev pub lockout_seconds : ℕ
lockout_seconds = 300

abbrev pub Failures : Type 0
Failures = Dict Text (ℕ × ℕ)

-- `self._failures.get(client, (0, 0.0))`
unfoldable pub failures_of : Text → Failures → ℕ × ℕ
unfolding get
failures_of client f = elim (get client f) [ none ↦ (0, 0) | some entry ↦ entry ]

-- The end of the lockout, 0 where there is none; one that is over is forgotten.
unfoldable pub locked_until : Text → ℕ → Failures → ℕ × Failures
unfolding failures_of remove
locked_until client now f =
    let (count, last) = failures_of client f in
    if ltb count max_token_failures
    then (0, f)
    else if leb (last + lockout_seconds) now
    then (0, remove client f)
    else (last + lockout_seconds, f)

unfoldable pub record_failure : Text → ℕ → Failures → Failures
unfolding failures_of put
record_failure client now f = put client ((failures_of client f).0 + 1, now) f

unfoldable pub record_success : Text → Failures → Failures
unfolding remove
record_success client f = remove client f
