-- ===== src/Forge/Client.antt =====
-- What `GitHubClient` of orchestrator/rorch/github_client.py keeps between requests, and what it does
-- with a response: rate limits, back-off, paced mutations and the conditional cache. Times are whole
-- seconds; a header that is a number is not negative, and `none` where it is no number.
use selfhosted_runner_swarm.Prelude.{
  ℕ, ◌+◌, ◌-◌, ◌*◌, ◌^◌, min, max, Bool, true, false, ◌&&◌, ◌||◌, ◌≡◌, ◌↔◌, Option, none, some, [],
  ◌∷◌, ◌++◌, if◌then◌else◌, ltb, leb, ◌==◌, length, arith,
}
use selfhosted_runner_swarm.Prelude.Text.{
  Text, codes, text_eq, text_eq_iff, truthy, lower, contains,
}
use selfhosted_runner_swarm.Prelude.Dict.{Key, Dict, get, put, remove, text_key}

-- The digest of a token, and a path.
pub record RequestKey : Type 0 where
  pub token : Text
  pub path : Text

abbrev pub request_key_eq : RequestKey → RequestKey → Bool
request_key_eq a b = text_eq a.token b.token && text_eq a.path b.path

pub request_key_eq_iff : (a b : RequestKey) → (request_key_eq a b ≡ true) ↔ (a ≡ b)
request_key_eq_iff a b = ground (arith, text_eq_iff a.token b.token, text_eq_iff a.path b.path)

instance abbrev pub request_key_key : Key RequestKey
request_key_key = record { same = request_key_eq; same_iff = request_key_eq_iff }

pub record ConditionalResponse (D : Type 0) : Type 0 where
  pub etag : Text
  pub content : D

pub record Client (D : Type 0) : Type 0 where
  pub rate_limit_reserve : ℕ
  pub blocked_until : Dict Text ℕ
  pub secondary_failures : Dict Text ℕ
  pub conditional_cache : Dict RequestKey (ConditionalResponse D)
  pub shared_scans : Dict RequestKey (ℕ × D)
  pub last_mutation_at : ℕ
  pub last_remaining : Option ℕ
  pub last_reset_at : Option ℕ
  pub blocked_until_any : ℕ

pub data Header : Type 0 where
  absent : Header
  value : Option ℕ → Header

pub record Headers : Type 0 where
  pub remaining : Header
  pub reset : Header
  pub retry_after : Header
  pub etag : Text

-- The end of an HTTP round trip. A body is `none` where it is no JSON; `broken` is any other
-- exception of the transport.
pub data Reply (D : Type 0) : Type 0 where
  success : ℕ → Headers → Option D → Reply D
  http_error : ℕ → Headers → Text → Reply D
  broken : Reply D

pub data Verb : Type 0 where
  http_get http_post http_delete : Verb

-- What `_request` returns: nothing, whether a deletion went through, or the decoded body.
pub data Answer (D : Type 0) : Type 0 where
  nothing : Answer D
  deleted : Bool → Answer D
  body : D → Answer D

abbrev pub max_conditional_cache_entries : ℕ
max_conditional_cache_entries = 2048

abbrev pub secondary_base : ℕ
secondary_base = 60

abbrev pub secondary_max : ℕ
secondary_max = 900

abbrev pub mutation_delay : ℕ
mutation_delay = 1

-- `_parse_int_header`
unfoldable pub parse_int_header : Header → Option ℕ
parse_int_header absent = none
parse_int_header (value n) = n

abbrev pub get_or_zero : Text → Dict Text ℕ → ℕ
get_or_zero key d = elim (get key d) [ none ↦ 0 | some n ↦ n ]

abbrev pub or_else : Option ℕ → Option ℕ → Option ℕ
or_else none old = old
or_else (some n) old = some n

-- Whether the headers say that the reserve is reached, and until when.
unfoldable pub reserve_reached : ℕ → ℕ → Headers → Option ℕ
unfolding parse_int_header
reserve_reached reserve now h = elim (parse_int_header h.remaining) [
  | none ↦ none
  | some remaining ↦ elim (parse_int_header h.reset) [
    | none ↦ none
    | some reset ↦ if leb remaining reserve && ltb now reset then some (reset + 1) else none
  ]
]

-- The delay after the given number of secondary limits in a row, at least one.
unfoldable pub secondary_delay : ℕ → ℕ
secondary_delay failures = min (secondary_base * 2 ^ (failures - 1)) secondary_max

abbrev pub is_zero_left : Header → Bool
is_zero_left absent = false
is_zero_left (value none) = false
is_zero_left (value (some n)) = n == 0

abbrev pub is_given : Header → Bool
is_given absent = false
is_given (value n) = true

-- `_is_rate_limit_error`
unfoldable pub is_rate_limit_error : ℕ → Headers → Text → Bool
unfolding contains lower
is_rate_limit_error code h text =
    code == 429
    || (is_zero_left h.remaining
        || (contains (lower text) (codes "rate limit") || is_given h.retry_after))

-- `rate_limit_status`
pub record RateStatus : Type 0 where
  pub remaining : Option ℕ
  pub reset_at : Option ℕ
  pub reserve : ℕ
  pub blocked_until : ℕ

module _ {D : Type 0} where
  -- `_raise_if_blocked`: the time to retry at, where it raises
  unfoldable pub raise_if_blocked : Text → ℕ → Client D → Option ℕ × Client D
  unfolding get remove
  raise_if_blocked token now c =
      let blocked = get_or_zero token c.blocked_until in
      if leb blocked now
      then (none, record c { blocked_until = remove token c.blocked_until })
      else (some blocked, c)

  unfoldable pub block_token : Text → ℕ → Client D → Client D
  unfolding get put
  block_token token retry_at c = record c {
    blocked_until = put token (max (get_or_zero token c.blocked_until) retry_at) c.blocked_until;
    blocked_until_any = max c.blocked_until_any retry_at;
  }

  unfoldable pub remember_limits : Headers → Client D → Client D
  unfolding parse_int_header
  remember_limits h c = record c {
    last_remaining = or_else (parse_int_header h.remaining) c.last_remaining;
    last_reset_at = or_else (parse_int_header h.reset) c.last_reset_at;
  }

  abbrev pub stop_at : Text → Client D → Option ℕ → Option ℕ × Client D
  stop_at token c none = (none, c)
  stop_at token c (some retry_at) = (some retry_at, block_token token retry_at c)

  -- `_update_rate_limit`: the time to retry at, where it raises
  unfoldable pub update_rate_limit : Text → ℕ → Headers → Client D → Option ℕ × Client D
  unfolding remember_limits reserve_reached block_token
  update_rate_limit token now h c =
      stop_at token (remember_limits h c) (reserve_reached c.rate_limit_reserve now h)

  unfoldable pub count_failure : Text → ℕ → Client D → ℕ × Client D
  unfolding secondary_delay get put
  count_failure token now c =
      let failures = get_or_zero token c.secondary_failures + 1 in
      (
        now + secondary_delay failures,
        record c { secondary_failures = put token failures c.secondary_failures },
      )

  -- `_rate_limit_retry`
  unfoldable pub rate_limit_retry : Text → ℕ → Headers → Client D → ℕ × Client D
  unfolding parse_int_header count_failure
  rate_limit_retry token now h c = elim (parse_int_header h.retry_after) [
    | some delay ↦ (now + delay, c)
    | none ↦ elim (parse_int_header h.reset) [
      | none ↦ count_failure token now c
      | some reset ↦ if is_zero_left h.remaining then (reset + 1, c) else count_failure token now c
    ]
  ]

  -- The loop that drops the entries used least recently.
  unfoldable pub trim :
      Dict RequestKey (ConditionalResponse D) → Dict RequestKey (ConditionalResponse D)
  trim [] = []
  trim (entry ∷ rest) =
      if ltb max_conditional_cache_entries (length (entry ∷ rest)) then trim rest else entry ∷ rest

  -- `d[key] = v` and `move_to_end(key)`
  unfoldable pub put_last :
      RequestKey
      → ConditionalResponse D
      → Dict RequestKey (ConditionalResponse D)
      → Dict RequestKey (ConditionalResponse D)
  unfolding remove
  put_last key v cache = remove key cache ++ (key, v) ∷ []

  unfoldable pub move_to_end :
      RequestKey → Dict RequestKey (ConditionalResponse D) → Dict RequestKey (ConditionalResponse D)
  unfolding put_last get
  move_to_end key cache = elim (get key cache) [ none ↦ cache | some v ↦ put_last key v cache ]

  unfoldable pub cache_conditional_response : RequestKey → Text → D → Client D → Client D
  unfolding trim put_last remove
  cache_conditional_response key etag content c =
      let cache = c.conditional_cache in
      let entry : ConditionalResponse D = record { etag = etag; content = content } in
      if truthy etag
      then record c { conditional_cache = trim (put_last key entry cache) }
      else record c { conditional_cache = remove key cache }

  -- How long `_pace_mutation` sleeps, on a clock that reads `now`.
  unfoldable pub mutation_pause : Verb → ℕ → Client D → ℕ
  mutation_pause http_get now c = 0
  mutation_pause http_post now c = mutation_delay + c.last_mutation_at - now
  mutation_pause http_delete now c = mutation_delay + c.last_mutation_at - now

  -- The end of `_pace_mutation`, on a clock that reads `now` after the sleep.
  unfoldable pub note_mutation : Verb → ℕ → Client D → Client D
  note_mutation http_get now c = c
  note_mutation http_post now c = record c { last_mutation_at = now }
  note_mutation http_delete now c = record c { last_mutation_at = now }

  unfoldable pub rate_limit_status : ℕ → Client D → RateStatus
  rate_limit_status now c = record {
    remaining = c.last_remaining;
    reset_at = c.last_reset_at;
    reserve = c.rate_limit_reserve;
    blocked_until = if ltb now c.blocked_until_any then c.blocked_until_any else 0;
  }
