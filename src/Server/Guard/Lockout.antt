-- ===== src/Server/Guard/Lockout.antt =====
-- Clients that guess tokens: runs of failures against `TokenGuard`.
use selfhosted_runner_swarm.Prelude.{ℕ, ◌+◌, ◌≤◌, ◌<◌, ◌≡◌, refl, arith}
use selfhosted_runner_swarm.Prelude.Text.{Text, text_eq_iff}
use selfhosted_runner_swarm.Prelude.Dict.{get-put, text_key}
use selfhosted_runner_swarm.Server.Guard.{
  Failures, failures_of, locked_until, record_failure, lockout_seconds,
}

failures_of-record :
    (client : Text) (now : ℕ) (f : Failures)
    → failures_of client (record_failure client now f) ≡ ((failures_of client f).0 + 1, now)
unfolding failures_of record_failure
failures_of-record client now f =
    rw
      (
        failures_of,
        get-put client client ((failures_of client f).0 + 1, now) f,
        (text_eq_iff client client).1 refl,
      )
      refl

-- The client is locked out: ten failures or more, the last of them less than the lockout ago.
pub locked_until-failures :
    (client : Text) (now later : ℕ) (f : Failures)
    → 9 ≤ (failures_of client f).0
    → later < now + lockout_seconds
    → locked_until client later (record_failure client now f)
      ≡ (now + lockout_seconds, record_failure client now f)
unfolding locked_until
locked_until-failures client now later f many early =
    rw (locked_until, failures_of-record client now f) (ground arith)
