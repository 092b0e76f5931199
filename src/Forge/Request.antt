-- ===== src/Forge/Request.antt =====
-- One request: `_request` of orchestrator/rorch/github_client.py. `begin` and `finish` are what it
-- does under `_state_lock`, before and after the round trip. The clock, the sleep and the round trip
-- are a parameter.
use selfhosted_runner_swarm.Prelude.{ℕ, zero, suc, Option, none, some, ◌++◌, if◌then◌else◌, ◌==◌}
use selfhosted_runner_swarm.Prelude.Text.{Text}
use selfhosted_runner_swarm.Prelude.Dict.{get, remove, text_key}
use selfhosted_runner_swarm.Scaler.State.{Outcome, returned, raised, rate_limited}
use selfhosted_runner_swarm.Forge.Client.{
  RequestKey, request_key_key, ConditionalResponse, Client, Headers, Reply, success, http_error,
  broken, Verb, http_get, http_post, http_delete, Answer, nothing, deleted, body, raise_if_blocked,
  block_token, update_rate_limit, rate_limit_retry, is_rate_limit_error, move_to_end,
  cache_conditional_response, mutation_pause, note_mutation,
}

-- What the client calls. A round trip is given the URL, the token, the verb and `If-None-Match`.
pub record Network (W D : Type 0) : Type 0 where
  pub clock : W → ℕ
  pub sleep : ℕ → W → W
  pub exchange : Text → Text → Verb → Option Text → W → Reply D × W

abbrev pub Cached : Type 0 → Type 0
Cached D = Option (ConditionalResponse D)

abbrev pub etag_of : {D : Type 0} → Cached D → Option Text
etag_of none = none
etag_of (some cached) = some cached.etag

module _ {D : Type 0} where
  unfoldable pub cached_for : Verb → RequestKey → Client D → Cached D
  unfolding get
  cached_for http_get key c = get key c.conditional_cache
  cached_for http_post key c = none
  cached_for http_delete key c = none

  -- The first use of `_state_lock`: the time to retry at, or what is cached.
  unfoldable pub begin : RequestKey → Verb → ℕ → Client D → (Option ℕ × Cached D) × Client D
  unfolding raise_if_blocked cached_for
  begin key verb now c =
      let (blocked, c') = raise_if_blocked key.token now c in
      ((blocked, cached_for verb key c'), c')

  unfoldable pub forget_failures : Text → Client D → Client D
  unfolding remove
  forget_failures token c = record c { secondary_failures = remove token c.secondary_failures }

  -- A response of status 2xx, its limits noted.
  unfoldable pub accept :
      RequestKey → Verb → ℕ → Headers → Option D → Client D → Answer D × Client D
  unfolding forget_failures cache_conditional_response
  accept key http_delete status h content c = (deleted (status == 204), forget_failures key.token c)
  accept key http_get status h none c = (nothing, forget_failures key.token c)
  accept key http_get status h (some d) c =
      (body d, cache_conditional_response key h.etag d (forget_failures key.token c))
  accept key http_post status h none c = (nothing, forget_failures key.token c)
  accept key http_post status h (some d) c =
      (body d, cache_conditional_response key h.etag d (forget_failures key.token c))

  -- 304 for a response that is cached.
  unfoldable pub reuse : RequestKey → ConditionalResponse D → Client D → Answer D × Client D
  unfolding forget_failures move_to_end
  reuse key cached c =
      let c' = forget_failures key.token c in
      (body cached.content, record c' { conditional_cache = move_to_end key c'.conditional_cache })

  abbrev pub unless_raised :
      (Client D → Answer D × Client D) → Option ℕ × Client D → Outcome (Answer D) × Client D
  unless_raised next (none, c) = let (answer, c') = next c in (returned answer, c')
  unless_raised next (some retry_at, c) = (raised (rate_limited retry_at), c)

  -- `_update_rate_limit`, which may raise, and what follows.
  unfoldable pub after_limits :
      RequestKey
      → ℕ
      → Headers
      → (Client D → Answer D × Client D)
      → Client D
      → Outcome (Answer D) × Client D
  unfolding update_rate_limit
  after_limits key now h next c = unless_raised next (update_rate_limit key.token now h c)

  unfoldable pub reject :
      RequestKey → ℕ → ℕ → Headers → Text → Client D → Outcome (Answer D) × Client D
  unfolding is_rate_limit_error rate_limit_retry block_token
  reject key now code h text c =
      if is_rate_limit_error code h text
      then (let (retry_at, c') = rate_limit_retry key.token now h c in
          (raised (rate_limited retry_at), block_token key.token retry_at c'))
      else (returned nothing, c)

  -- The second use of `_state_lock`.
  unfoldable pub finish :
      RequestKey → Verb → Cached D → Reply D → ℕ → Client D → Outcome (Answer D) × Client D
  unfolding after_limits accept reuse reject
  finish key verb cached (success status h content) now c =
      after_limits key now h (accept key verb status h content) c
  finish key verb none (http_error code h text) now c = reject key now code h text c
  finish key verb (some cached) (http_error code h text) now c =
      if code == 304
      then after_limits key now h (reuse key cached) c
      else reject key now code h text c
  finish key verb cached broken now c = (returned nothing, c)

  module _ {W : Type 0} (net : Network W D) where
    -- The delay is slept only where it is positive.
    abbrev pub pause : ℕ → W → W
    pause zero w = w
    pause (suc n) w = net.sleep (suc n) w

    unfoldable pub send :
        Text
        → Text
        → RequestKey
        → Verb
        → Cached D
        → Client D × W
        → Outcome (Answer D) × (Client D × W)
    unfolding mutation_pause note_mutation finish
    send url pat key verb cached (c, w) =
        let paced = pause (mutation_pause verb (net.clock w) c) w in
        let c' = note_mutation verb (net.clock paced) c in
        let (reply, after) = net.exchange url pat verb (etag_of cached) paced in
        let (outcome, c'') = finish key verb cached reply (net.clock after) c' in
        (outcome, (c'', after))

    abbrev pub unless_blocked :
        (Cached D → Client D × W → Outcome (Answer D) × (Client D × W))
        → W
        → (Option ℕ × Cached D) × Client D
        → Outcome (Answer D) × (Client D × W)
    unless_blocked go w ((none, cached), c) = go cached (c, w)
    unless_blocked go w ((some blocked, cached), c) = (raised (rate_limited blocked), (c, w))

    unfoldable pub request :
        (Text → Text)
        → Text
        → Text
        → Text
        → Verb
        → Client D × W
        → Outcome (Answer D) × (Client D × W)
    unfolding begin send
    request digest base pat path verb (c, w) =
        let key : RequestKey = record { token = digest pat; path = path } in
        unless_blocked (send (base ++ path) pat key verb) w (begin key verb (net.clock w) c)
