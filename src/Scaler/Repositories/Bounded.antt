-- ===== src/Scaler/Repositories/Bounded.antt =====
-- The size of the cache of repositories.
use selfhosted_runner_swarm.Prelude.{
  ℕ, ◌+◌, ◌≤◌, ◌<◌, ◌≡◌, inl, inr, true, Option, none, some, List, [], ◌∷◌, length, ltb, arith,
  Bool-cases,
}
use selfhosted_runner_swarm.Prelude.Text.{Text}
use selfhosted_runner_swarm.Prelude.Dict.{get, has, length-put, length-remove-le, length-remove-lt}
use selfhosted_runner_swarm.Scaler.State.{
  go_on, Services, Scene, Outcome, returned, raised, CacheKey, cache_key_key, cache_key_eq_iff,
  call, fetch, update, ◌>>=◌, ◌>>◌,
}
use selfhosted_runner_swarm.Scaler.Repositories.{
  is_fresh, Cache, max_repository_cache_entries, oldest_from, evict_oldest, store_repositories,
  cache_key, keep_answer, refresh, get_personal_repositories,
}
use selfhosted_runner_swarm.Config.{PoolConfig}
use selfhosted_runner_swarm.Config.Validation.{is_zero}
use selfhosted_runner_swarm.Scaler.Types.{RepositoryCacheEntry}

oldest_from-has :
    (key : CacheKey) (at : ℕ) (cache rest : Cache)
    → has key cache ≡ true
    → ((k : CacheKey) → has k rest ≡ true → has k cache ≡ true)
    → has (oldest_from key at rest) cache ≡ true
unfolding oldest_from has
oldest_from-has key at cache [] h within = h
oldest_from-has key at cache ((k, e) ∷ rest) h within = elim (Bool-cases (ltb e.expires_at at)) [
  | inl older ↦ rw older (
      oldest_from-has k e.expires_at cache rest (within k (ground (arith, cache_key_eq_iff k k)))
        (λ j m. within j (ground arith)))
  | inr newer ↦ rw newer (oldest_from-has key at cache rest h (λ j m. within j (ground arith)))
]

-- An eviction makes room.
length-evict_oldest :
    (cache : Cache) → 0 < length cache → length (evict_oldest cache) + 1 ≤ length cache
unfolding evict_oldest has
length-evict_oldest [] h = absurd (omega arith)
length-evict_oldest ((k, e) ∷ rest) h =
    length-remove-lt (oldest_from k e.expires_at rest) ((k, e) ∷ rest) (
      oldest_from-has k e.expires_at ((k, e) ∷ rest) rest (ground (arith, cache_key_eq_iff k k))
        (λ j m. ground arith))

store_repositories-bounded :
    (key : CacheKey) (repositories : List Text) (at : ℕ) (cache : Cache)
    → length cache ≤ max_repository_cache_entries
    → length (store_repositories key repositories at cache) ≤ max_repository_cache_entries
unfolding store_repositories
store_repositories-bounded key repositories at cache h = ground (
  arith,
  length-put key (record { repositories = repositories; expires_at = at }) cache,
  length-put key (record { repositories = repositories; expires_at = at }) (evict_oldest cache),
  length-evict_oldest cache,
)

module _ {W : Type 0} (s : Services W) (digest : Text → Text) where
  abbrev size : Scene W → ℕ
  size scene = length scene.scaler.repository_cache

  keep_answer-bounded :
      (pool : PoolConfig) (now : ℕ) (cached : Option RepositoryCacheEntry)
      (answer : Option (List Text)) (scene : Scene W)
      → size scene ≤ max_repository_cache_entries
      → size (keep_answer s digest pool now cached answer scene).1 ≤ max_repository_cache_entries
  unfolding keep_answer update ◌>>=◌ ◌>>◌
  keep_answer-bounded pool now cached none scene h = h
  keep_answer-bounded pool now cached (some repositories) scene h =
      elim (Bool-cases (is_zero pool.repo_discovery_ttl)) [
        | inl zero_ttl ↦ rw zero_ttl (
            omega (arith, length-remove-le (cache_key s digest pool) scene.scaler.repository_cache))
        | inr ttl ↦ rw ttl (store_repositories-bounded _ repositories _ _ h)
      ]

  refresh-bounded :
      (pool : PoolConfig) (now : ℕ) (cached : Option RepositoryCacheEntry) (scene : Scene W)
      → size scene ≤ max_repository_cache_entries
      → size (refresh s digest pool now cached scene).1 ≤ max_repository_cache_entries
  unfolding refresh call ◌>>=◌
  refresh-bounded pool now cached scene h = go (s.list_repositories pool scene.world)
    where
      go :
          (answer : Outcome (Option (List Text)) × W)
          → size
              (go_on
                (keep_answer s digest pool now cached)
                (answer.0, record scene { world = answer.1 })).1
            ≤ max_repository_cache_entries
      go (returned a, w) = keep_answer-bounded pool now cached a (record scene { world = w }) h
      go (raised e, w) = h

  -- Whatever the forge answers or raises, a lookup leaves at most 128 entries in the cache that
  -- held at most 128.
  pub cache_bounded :
      (pool : PoolConfig) (now : ℕ) (scene : Scene W)
      → length scene.scaler.repository_cache ≤ max_repository_cache_entries
      → length (get_personal_repositories s digest pool now scene).1.scaler.repository_cache
        ≤ max_repository_cache_entries
  unfolding get_personal_repositories fetch ◌>>=◌
  cache_bounded pool now scene h =
      let cached = get (cache_key s digest pool) scene.scaler.repository_cache in
      elim (Bool-cases (is_fresh now cached)) [
        | inl fresh ↦ rw (fresh, get_personal_repositories) h
        | inr stale ↦ rw stale (refresh-bounded pool now cached scene h)
      ]
