-- ===== src/Server/Access/Denied.antt =====
-- Who is turned away: clients that guess, and those without the token that an action requires.
use mathlib.Core.Option.{none-ne-some}
use selfhosted_runner_swarm.Prelude.{
  ℕ, ◌+◌, ◌-◌, ◌≤◌, ◌<◌, ◌≡◌, ◌==◌, refl, sym, max, Bool, true, false, ◌||◌, Option, none, some,
  if◌then◌else◌, arith,
}
use selfhosted_runner_swarm.Prelude.Text.{Text, text_eq_iff, truthy}
use selfhosted_runner_swarm.Server.Guard.{
  Failures, failures_of, locked_until, record_failure, lockout_seconds,
}
use selfhosted_runner_swarm.Server.Guard.Lockout.{locked_until-failures}
use selfhosted_runner_swarm.Server.Access.{
  Scope, write, read, Tokens, Credentials, supplied_token, scope_of, too_many_attempts,
  unauthorized, read_only, decide, authorize,
}

-- After its tenth failure in a row, and after every further one, a client is turned away for 300
-- seconds whatever token it sends, is told how long to wait, and its failures stay as they are.
pub authorize_locks_out :
    (t : Tokens) (needs_write : Bool) (client : Text) (now later : ℕ) (c : Credentials)
    (f : Failures)
    → 9 ≤ (failures_of client f).0
    → now ≤ later
    → later < now + lockout_seconds
    → authorize t needs_write client later c (record_failure client now f)
      ≡ (some (too_many_attempts (now + lockout_seconds - later)), record_failure client now f)
unfolding authorize
authorize_locks_out t needs_write client now later c f many after early =
    rw (authorize, locked_until-failures client now later f many early) (ground arith)

scope_of-write :
    (t : Tokens) (supplied : Text)
    → (truthy t.token || truthy t.readonly_token) ≡ true
    → scope_of t supplied ≡ some write
    → (supplied ≡ t.token) × (truthy t.token ≡ true)
unfolding scope_of
scope_of-write t supplied configured h =
    ground (arith, text_eq_iff supplied t.token, text_eq_iff supplied t.readonly_token)

decide-none :
    (client : Text) (now : ℕ) (scope : Option Scope) (f : Failures)
    → (decide true client now scope f).0 ≡ none
    → scope ≡ some write
unfolding decide
decide-none client now none f h = absurd (none-ne-some unauthorized (sym h))
decide-none client now (some write) f h = refl
decide-none client now (some read) f h = absurd (none-ne-some read_only (sym h))

authorize-none :
    (b : Bool) (wait : ℕ) (client : Text) (now : ℕ) (scope : Option Scope) (f f' : Failures)
    → (if b then decide true client now scope f' else (some (too_many_attempts wait), f')).0 ≡ none
    → scope ≡ some write
authorize-none true wait client now scope f f' h = decide-none client now scope f' h
authorize-none false wait client now scope f f' h =
    absurd (none-ne-some (too_many_attempts wait) (sym h))

-- Where any token is configured, an action that changes something proceeds only for a request that
-- carries the control token, and there is one.
pub write_needs_token :
    (t : Tokens) (client : Text) (now : ℕ) (c : Credentials) (f : Failures)
    → (truthy t.token || truthy t.readonly_token) ≡ true
    → (authorize t true client now c f).0 ≡ none
    → (supplied_token c ≡ t.token) × (truthy t.token ≡ true)
unfolding authorize
write_needs_token t client now c f configured proceeds =
    let (until, f') = locked_until client now f in
    scope_of-write t (supplied_token c) configured (
      authorize-none (until == 0) (max 1 (until - now)) client now (scope_of t (supplied_token c)) f
        f' proceeds)
