-- ===== src/Forge/Conditional.antt =====
-- Conditional requests, `If-None-Match` and status 304 in `_request` of
-- orchestrator/rorch/github_client.py, for requests that overlap.
pub mod Entries
pub mod Replies
pub mod Current
use selfhosted_runner_swarm.Prelude.{
  ℕ, ◌≡◌, ◌⊎◌, inl, inr, refl, sym, ◌∙◌, Bool, true, false, Option, none, some, List, [], ◌∷◌, ◌++◌,
  ◌==◌, if◌then◌else◌, All, All-append, All-In, In, Bool-cases, Option-cases, length, ltb, leb,
  arith,
}
use selfhosted_runner_swarm.Prelude.Text.{Text, truthy}
use selfhosted_runner_swarm.Prelude.Dict.{Dict, get, remove}
use selfhosted_runner_swarm.Scaler.State.{Outcome, returned, raised, Raised, rate_limited, failed}
use selfhosted_runner_swarm.Forge.Client.{
  RequestKey, request_key_key, request_key_eq, ConditionalResponse, Client, Headers, Reply, success,
  http_error, broken, Verb, http_get, http_post, http_delete, Answer, nothing, deleted, body,
  raise_if_blocked, block_token, update_rate_limit, remember_limits, stop_at, reserve_reached,
  rate_limit_retry, count_failure, is_rate_limit_error, trim, put_last, move_to_end,
  cache_conditional_response, note_mutation,
}
use selfhosted_runner_swarm.Forge.Request.{
  Cached, begin, cached_for, accept, reuse, forget_failures, unless_raised, after_limits, reject,
  finish,
}

-- `content_of key etag` is the content that the forge names by an ETag of the resource.
module _ {D : Type 0} (content_of : RequestKey → Text → D) where
  abbrev pub Faithful : Client D → Type 0
  Faithful c = All (λ e. content_of e.0 e.1.etag ≡ e.1.content) c.conditional_cache

  -- What HTTP promises of a reply, where `current` is the content of the resource: an ETag names it,
  -- and 304 says that the ETag which was sent still does.
  pub data Conforms (key : RequestKey) (sent : Cached D) (current : D) : Reply D → Type 0 where
    full :
        (status : ℕ) (h : Headers)
        → ((truthy h.etag ≡ true) → content_of key h.etag ≡ current)
        → Conforms key sent current (success status h (some current))
    unreadable : (status : ℕ) (h : Headers) → Conforms key sent current (success status h none)
    unchanged :
        (code : ℕ) (h : Headers) (text : Text) (r : ConditionalResponse D)
        → sent ≡ some r
        → content_of key r.etag ≡ current
        → Conforms key sent current (http_error code h text)
    unsent :
        (code : ℕ) (h : Headers) (text : Text)
        → sent ≡ none
        → Conforms key sent current (http_error code h text)
    other :
        (code : ℕ) (h : Headers) (text : Text)
        → (code == 304) ≡ false
        → Conforms key sent current (http_error code h text)
    lost : Conforms key sent current broken

  -- `sent` holds what the requests that are under way were given by the cache, `seen` every body
  -- that a request returned with the content that the resource then had.
  pub record Readers : Type 0 where
    pub client : Client D
    pub sent : List (RequestKey × Cached D)
    pub seen : List (D × D)

  abbrev pub see : Outcome (Answer D) → D → List (D × D) → List (D × D)
  see (returned nothing) current seen = seen
  see (returned (deleted b)) current seen = seen
  see (returned (body d)) current seen = (d, current) ∷ seen
  see (raised e) current seen = seen

  pub data Step : Readers → Readers → Type 0 where
    begun :
        (r : Readers) (key : RequestKey) (verb : Verb) (now : ℕ)
        → Step r (record r {
          client = (begin key verb now r.client).1;
          sent = (key, (begin key verb now r.client).0.1) ∷ r.sent;
        })
    paced :
        (r : Readers) (verb : Verb) (now : ℕ)
        → Step r (record r { client = note_mutation verb now r.client })
    finished :
        (r : Readers) (key : RequestKey) (verb : Verb) (cached : Cached D) (current : D)
        (reply : Reply D) (now : ℕ)
        → In (key, cached) r.sent
        → Conforms key cached current reply
        → Step r (record r {
          client = (finish key verb cached reply now r.client).1;
          seen = see (finish key verb cached reply now r.client).0 current r.seen;
        })

  pub data Reach (r : Readers) : Readers → Type 0 where
    here : Reach r r
    next : {s t : Readers} → Reach r s → Step s t → Reach r t
