-- ===== src/Forge/Conditional/Replies.antt =====
-- The end of a request, `_request` of orchestrator/rorch/github_client.py, and the cache.
use selfhosted_runner_swarm.Prelude.{
  ℕ, ◌≡◌, inl, inr, refl, true, Option, none, some, [], ◌∷◌, ◌==◌, Bool-cases, arith,
}
use selfhosted_runner_swarm.Prelude.Text.{Text, truthy}
use selfhosted_runner_swarm.Scaler.State.{Outcome, returned, raised}
use selfhosted_runner_swarm.Forge.Client.{
  RequestKey, request_key_key, ConditionalResponse, Client, Headers, Reply, http_error, Verb,
  http_get, http_post, http_delete, Answer, nothing, deleted, body, block_token, update_rate_limit,
  remember_limits, stop_at, reserve_reached, rate_limit_retry, count_failure, is_rate_limit_error,
  put_last, cache_conditional_response,
}
use selfhosted_runner_swarm.Forge.Request.{
  Cached, accept, reuse, forget_failures, unless_raised, after_limits, reject, finish,
}
use selfhosted_runner_swarm.Forge.Conditional.{
  Faithful, Conforms, full, unreadable, unchanged, unsent, other, lost,
}
use selfhosted_runner_swarm.Forge.Conditional.Entries.{
  TrueFor, All-remove, All-trim, All-put_last, All-move_to_end,
}

module _ {D : Type 0} (content_of : RequestKey → Text → D) where
  rate_limit_retry-cache :
      (token : Text) (now : ℕ) (h : Headers) (c : Client D)
      → (rate_limit_retry token now h c).1.conditional_cache ≡ c.conditional_cache
  unfolding rate_limit_retry count_failure
  rate_limit_retry-cache token now h c = ground arith

  abbrev pub Seen : D → Outcome (Answer D) → Type 0
  Seen current (returned nothing) = Unit
  Seen current (returned (deleted b)) = Unit
  Seen current (returned (body d)) = d ≡ current
  Seen current (raised e) = Unit

  abbrev pub Right : D → Outcome (Answer D) × Client D → Type 0
  Right current r = (Faithful content_of) r.1 × Seen current r.0

  abbrev RightAnswer : D → Answer D × Client D → Type 0
  RightAnswer current r = (Faithful content_of) r.1 × Seen current (returned r.0)

  after_limits-Right :
      (key : RequestKey) (now : ℕ) (h : Headers) (go : Client D → Answer D × Client D)
      (c : Client D) (current : D)
      → ((d : Client D) → (Faithful content_of) d → RightAnswer current (go d))
      → (Faithful content_of) c
      → Right current (after_limits key now h go c)
  unfolding after_limits update_rate_limit remember_limits block_token
  after_limits-Right key now h go c current right f =
      by_limits (reserve_reached c.rate_limit_reserve now h)
    where
      by_limits :
          (o : Option ℕ)
          → Right current (unless_raised go (stop_at key.token (remember_limits h c) o))
      by_limits none = right (remember_limits h c) f
      by_limits (some at) = (f, tt)

  cache_conditional_response-Faithful :
      (key : RequestKey) (etag : Text) (content : D) (c : Client D)
      → ((truthy etag ≡ true) → content_of key etag ≡ content)
      → (Faithful content_of) c
      → (Faithful content_of) (cache_conditional_response key etag content c)
  unfolding cache_conditional_response
  cache_conditional_response-Faithful key [] content c named f =
      (All-remove content_of) key c.conditional_cache f
  cache_conditional_response-Faithful key (x ∷ etag) content c named f =
      let entry : ConditionalResponse D = record { etag = x ∷ etag; content = content } in
      (All-trim content_of) (put_last key entry c.conditional_cache)
        ((All-put_last content_of) key entry c.conditional_cache (named refl) f)

  accept-Right :
      (key : RequestKey) (verb : Verb) (status : ℕ) (h : Headers) (d : D) (c : Client D)
      → ((truthy h.etag ≡ true) → content_of key h.etag ≡ d)
      → (Faithful content_of) c
      → RightAnswer d (accept key verb status h (some d) c)
  unfolding accept forget_failures
  accept-Right key http_delete status h d c named f = (f, tt)
  accept-Right key http_get status h d c named f =
      (cache_conditional_response-Faithful key h.etag d (forget_failures key.token c) named f, refl)
  accept-Right key http_post status h d c named f =
      (cache_conditional_response-Faithful key h.etag d (forget_failures key.token c) named f, refl)

  accept-Right_none :
      (key : RequestKey) (verb : Verb) (status : ℕ) (h : Headers) (current : D) (c : Client D)
      → (Faithful content_of) c
      → RightAnswer current (accept key verb status h none c)
  unfolding accept forget_failures
  accept-Right_none key http_delete status h current c f = (f, tt)
  accept-Right_none key http_get status h current c f = (f, tt)
  accept-Right_none key http_post status h current c f = (f, tt)

  reject-Right :
      (key : RequestKey) (now code : ℕ) (h : Headers) (text : Text) (c : Client D) (current : D)
      → (Faithful content_of) c
      → Right current (reject key now code h text c)
  unfolding reject block_token
  reject-Right key now code h text c current f =
      elim (Bool-cases (is_rate_limit_error code h text)) [
        | inl e ↦ rw e (rw (rate_limit_retry-cache key.token now h c) f, tt)
        | inr e ↦ rw e (f, tt)
      ]

  reuse-Right :
      (key : RequestKey) (r : ConditionalResponse D) (c : Client D) (current : D)
      → r.content ≡ current
      → (Faithful content_of) c
      → RightAnswer current (reuse key r c)
  unfolding reuse forget_failures
  reuse-Right key r c current e f = ((All-move_to_end content_of) key c.conditional_cache f, e)

  unchanged-Right :
      (key : RequestKey) (verb : Verb) (r : ConditionalResponse D) (code : ℕ) (h : Headers)
      (text : Text) (now : ℕ) (c : Client D) (current : D)
      → (code == 304 ≡ true → r.content ≡ current)
      → (Faithful content_of) c
      → Right current (finish key verb (some r) (http_error code h text) now c)
  unfolding finish
  unchanged-Right key verb r code h text now c current same f = elim (Bool-cases (code == 304)) [
    | inl e ↦ rw e (
        after_limits-Right key now h (reuse key r) c current
          (λ d. reuse-Right key r d current (same e)) f)
    | inr e ↦ rw e (reject-Right key now code h text c current f)
  ]

  pub finish-Right :
      (key : RequestKey) (verb : Verb) (cached : Cached D) (current : D) (reply : Reply D) (now : ℕ)
      (c : Client D)
      → (TrueFor content_of) key cached
      → (Conforms content_of) key cached current reply
      → (Faithful content_of) c
      → Right current (finish key verb cached reply now c)
  unfolding finish
  finish-Right key verb cached current reply now c t (full status h named) f =
      after_limits-Right key now h (accept key verb status h (some current)) c current
        (λ d. accept-Right key verb status h current d named) f
  finish-Right key verb cached current reply now c t (unreadable status h) f =
      after_limits-Right key now h (accept key verb status h none) c current
        (λ d. accept-Right_none key verb status h current d) f
  finish-Right key verb none current reply now c t (unchanged code h text r e names) f = cc
  finish-Right key verb (some x) current reply now c t (unchanged code h text r e names) f =
      unchanged-Right key verb x code h text now c current (λ _. cc) f
  finish-Right key verb none current reply now c t (unsent code h text e) f =
      reject-Right key now code h text c current f
  finish-Right key verb (some x) current reply now c t (unsent code h text e) f = cc
  finish-Right key verb none current reply now c t (other code h text e) f =
      reject-Right key now code h text c current f
  finish-Right key verb (some x) current reply now c t (other code h text e) f =
      unchanged-Right key verb x code h text now c current (λ e'. cc) f
  finish-Right key verb none current reply now c t lost f = (f, tt)
  finish-Right key verb (some x) current reply now c t lost f = (f, tt)
