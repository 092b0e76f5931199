-- ===== src/Server/Access.antt =====
-- Who may do what: `_supplied_token`, `_scope`, `_authorize` and `resolve_token` of
-- orchestrator/rorch/server/auth.py, `_limit` and `_is_runner_container` of
-- orchestrator/rorch/server/deps.py.
pub mod Denied
use selfhosted_runner_swarm.Prelude.{
  ℕ, zero, suc, ◌+◌, ◌-◌, ◌==◌, min, max, Bool, true, false, not, ◌&&◌, ◌||◌, Option, none, some,
  List, [], ◌∷◌, if◌then◌else◌,
}
use selfhosted_runner_swarm.Prelude.Text.{
  Text, codes, is, truthy, starts_with, contains, text_eq, strip,
}
use selfhosted_runner_swarm.Prelude.Text.Parts.{behind}
use selfhosted_runner_swarm.Server.Guard.{Failures, locked_until, record_failure, record_success}

pub data Scope : Type 0 where
  write read : Scope

-- The tokens that are configured.
pub record Tokens : Type 0 where
  pub token : Text
  pub readonly_token : Text

-- What a request carries, each empty where it is missing.
pub record Credentials : Type 0 where
  pub authorization : Text
  pub token_argument : Text
  pub token_cookie : Text

unfoldable pub supplied_token : Credentials → Text
unfolding starts_with behind
supplied_token c =
    if starts_with c.authorization (codes "Bearer ")
    then behind (codes "Bearer ") c.authorization
    else if truthy c.token_argument
    then c.token_argument
    else c.token_cookie

unfoldable pub scope_of : Tokens → Text → Option Scope
unfolding text_eq
scope_of t supplied =
    if not (truthy t.token) && not (truthy t.readonly_token)
    then some write
    else if truthy t.token && text_eq supplied t.token
    then some write
    else if truthy t.readonly_token && text_eq supplied t.readonly_token
    then some read
    else none

-- The answer where the request may not proceed, with the seconds to wait.
pub data Denial : Type 0 where
  too_many_attempts : ℕ → Denial
  unauthorized : Denial
  read_only : Denial

-- With the scope found: 401 and 403, or the request proceeds.
unfoldable pub decide : Bool → Text → ℕ → Option Scope → Failures → Option Denial × Failures
unfolding record_failure record_success
decide needs_write client now none f = (some unauthorized, record_failure client now f)
decide needs_write client now (some write) f = (none, record_success client f)
decide needs_write client now (some read) f =
    (if needs_write then some read_only else none, record_success client f)

unfoldable pub authorize :
    Tokens → Bool → Text → ℕ → Credentials → Failures → Option Denial × Failures
unfolding locked_until scope_of supplied_token decide
authorize t needs_write client now c f =
    let (until, f') = locked_until client now f in
    if until == 0
    then decide needs_write client now (scope_of t (supplied_token c)) f'
    else (some (too_many_attempts (max 1 (until - now))), f')

-- The token that the API is to have, and one to store where it was generated: from the environment,
-- none on a loopback address, else the stored one or a new one.
unfoldable pub resolve_token : Text → Text → Option Text → Text → Text × Option Text
unfolding strip
resolve_token from_env host stored generated =
    if truthy (strip from_env)
    then (strip from_env, none)
    else if is host "127.0.0.1" || (is host "localhost" || is host "::1")
    then ([], none)
    else elim stored [
      | none ↦ (generated, none)
      | some existing ↦
          if truthy (strip existing) then (strip existing, none) else (generated, some generated)
    ]

-- The `limit` argument, `none` where it is no number.
unfoldable pub limit : ℕ → Option ℕ → ℕ
limit default none = default
limit default (some n) = max 1 (min n 5000)

unfoldable pub is_runner_container : Text → Bool
unfolding starts_with contains
is_runner_container name =
    starts_with name (codes "gh-runner-")
    && (not (is name "gh-runner-orchestrator")
        && (not (contains name (codes "/")) && not (contains name (codes ".."))))
