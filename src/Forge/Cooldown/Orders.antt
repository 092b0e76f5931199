-- ===== src/Forge/Cooldown/Orders.antt =====
-- What the end of a request does to the orders to wait, `_update_rate_limit`, `_rate_limit_retry` and
-- `_block_token` of orchestrator/rorch/github_client.py.
use selfhosted_runner_swarm.Prelude.{
  ℕ, ◌≤◌, ◌≡◌, ◌⊎◌, inl, inr, refl, max, Option, none, some, Bool-cases, arith, ◌==◌,
}
use selfhosted_runner_swarm.Prelude.Text.{Text, text_eq_iff}
use selfhosted_runner_swarm.Prelude.Dict.{get-put, text_key}
use selfhosted_runner_swarm.Scaler.State.{Outcome, returned, raised, rate_limited, failed}
use selfhosted_runner_swarm.Forge.Client.{
  RequestKey, Client, Headers, Reply, success, http_error, broken, Verb, http_get, http_post,
  http_delete, Answer, get_or_zero, block_token, update_rate_limit, remember_limits,
  reserve_reached, stop_at, rate_limit_retry, count_failure, is_rate_limit_error,
  cache_conditional_response,
}
use selfhosted_runner_swarm.Forge.Request.{
  Cached, accept, reuse, forget_failures, unless_raised, after_limits, reject, finish,
}

module _ {D : Type 0} where
  -- An order is over, or the client keeps it.
  abbrev pub Kept : ℕ → Client D → Text × ℕ → Type 0
  Kept clock c e = (e.1 ≤ clock) ⊎ (e.1 ≤ get_or_zero e.0 c.blocked_until)

  abbrev pub Grows : Client D → Client D → Type 0
  Grows c c' =
      (token : Text) → get_or_zero token c.blocked_until ≤ get_or_zero token c'.blocked_until

  -- The order that a request ends with is kept.
  abbrev pub Heard : Text → Outcome (Answer D) → Client D → Type 0
  Heard token (returned a) c = Unit
  Heard token (raised (rate_limited at)) c = at ≤ get_or_zero token c.blocked_until
  Heard token (raised failed) c = Unit

  abbrev pub Orderly : Text → Client D → Outcome (Answer D) × Client D → Type 0
  Orderly token c r = Grows c r.1 × Heard token r.0 r.1

  block_token-Grows : (token : Text) (at : ℕ) (c : Client D) → Grows c (block_token token at c)
  unfolding block_token
  block_token-Grows token at c t = ground (
    arith,
    get-put token t (max (get_or_zero token c.blocked_until) at) c.blocked_until,
    text_eq_iff token t,
  )

  block_token-Heard :
      (token : Text) (at : ℕ) (c : Client D)
      → at ≤ get_or_zero token (block_token token at c).blocked_until
  unfolding block_token
  block_token-Heard token at c = ground (
    arith,
    get-put token token (max (get_or_zero token c.blocked_until) at) c.blocked_until,
    text_eq_iff token token,
  )

  -- Nothing but `block_token` touches the orders on the way through `finish`.
  abbrev pub Same : Client D → Client D → Type 0
  Same c c' = c'.blocked_until ≡ c.blocked_until

  pub Same-Grows : (c c' : Client D) → Same c c' → Grows c c'
  Same-Grows c c' e t = rw e (omega arith)

  after_limits-Orderly :
      (key : RequestKey) (now : ℕ) (h : Headers) (go : Client D → Answer D × Client D)
      (c : Client D)
      → ((d : Client D) → Same d (go d).1)
      → Orderly key.token c (after_limits key now h go c)
  unfolding after_limits update_rate_limit remember_limits
  after_limits-Orderly key now h go c same = by_limits (reserve_reached c.rate_limit_reserve now h)
    where
      by_limits :
          (o : Option ℕ)
          → Orderly key.token c (unless_raised go (stop_at key.token (remember_limits h c) o))
      by_limits none = (Same-Grows c (go (remember_limits h c)).1 (same (remember_limits h c)), tt)
      by_limits (some at) = (
        block_token-Grows key.token at (remember_limits h c),
        block_token-Heard key.token at (remember_limits h c),
      )

  accept-Same :
      (key : RequestKey) (verb : Verb) (status : ℕ) (h : Headers) (content : Option D)
      (c : Client D)
      → Same c (accept key verb status h content c).1
  unfolding accept forget_failures cache_conditional_response
  accept-Same key http_delete status h content c = refl
  accept-Same key http_get status h none c = refl
  accept-Same key http_get status h (some d) c = ground arith
  accept-Same key http_post status h none c = refl
  accept-Same key http_post status h (some d) c = ground arith

  rate_limit_retry-Same :
      (token : Text) (now : ℕ) (h : Headers) (c : Client D)
      → Same c (rate_limit_retry token now h c).1
  unfolding rate_limit_retry count_failure
  rate_limit_retry-Same token now h c = ground arith

  reject-Orderly :
      (key : RequestKey) (now code : ℕ) (h : Headers) (text : Text) (c : Client D)
      → Orderly key.token c (reject key now code h text c)
  unfolding reject
  reject-Orderly key now code h text c = elim (Bool-cases (is_rate_limit_error code h text)) [
    | inl e ↦ rw e (
      λ t. ground (
        arith,
        block_token-Grows key.token (rate_limit_retry key.token now h c).0
            (rate_limit_retry key.token now h c).1 t,
        Same-Grows c (rate_limit_retry key.token now h c).1
            (rate_limit_retry-Same key.token now h c) t,
      ),
      block_token-Heard key.token (rate_limit_retry key.token now h c).0
          (rate_limit_retry key.token now h c).1,
    )
    | inr e ↦ rw e (λ t. omega arith, tt)
  ]

  pub finish-Orderly :
      (key : RequestKey) (verb : Verb) (cached : Cached D) (reply : Reply D) (now : ℕ)
      (c : Client D)
      → Orderly key.token c (finish key verb cached reply now c)
  unfolding finish
  finish-Orderly key verb cached (success status h content) now c =
      after_limits-Orderly key now h (accept key verb status h content) c
        (λ d. accept-Same key verb status h content d)
  finish-Orderly key verb none (http_error code h text) now c = reject-Orderly key now code h text c
  finish-Orderly key verb (some cached) (http_error code h text) now c =
      elim (Bool-cases (code == 304)) [
        | inl e ↦ rw e (
            after_limits-Orderly key now h (reuse key cached) c
              (λ d. unfold reuse forget_failures in refl))
        | inr e ↦ rw e (reject-Orderly key now code h text c)
      ]
  finish-Orderly key verb none broken now c = (λ t. omega arith, tt)
  finish-Orderly key verb (some cached) broken now c = (λ t. omega arith, tt)
