-- ===== src/Scaler/Repositories.antt =====
-- The cache of a personal account's repositories: `_get_personal_repositories` and
-- `_store_repositories` of orchestrator/rorch/scaler.py.
pub mod Bounded
use selfhosted_runner_swarm.Prelude.{
  ℕ, ◌+◌, ◌≤◌, ◌<◌, Bool, true, false, not, ◌&&◌, Option, none, some, List, [], ◌∷◌, if◌then◌else◌,
  length, leb, ltb,
}
use selfhosted_runner_swarm.Prelude.Int.{ℤ, pos, pos_part, ◌+ℤ◌}
use selfhosted_runner_swarm.Prelude.Text.{Text, lower}
use selfhosted_runner_swarm.Prelude.Dict.{Dict, get, put, remove, has}
use selfhosted_runner_swarm.Config.{PoolConfig}
use selfhosted_runner_swarm.Config.Validation.{is_zero}
use selfhosted_runner_swarm.Scaler.Types.{RepositoryCacheEntry}
use selfhosted_runner_swarm.Scaler.State.{
  Services, Scene, Method, ScalerState, CacheKey, cache_key_key, pure, call, fetch, update, ◌>>=◌,
  ◌>>◌,
}

abbrev pub max_repository_cache_entries : ℕ
max_repository_cache_entries = 128

abbrev pub Cache : Type 0
Cache = Dict CacheKey RepositoryCacheEntry

-- The key of the entry that expires first, the first such in the dictionary's order.
unfoldable pub oldest_from : CacheKey → ℕ → Cache → CacheKey
oldest_from key at [] = key
oldest_from key at ((k, e) ∷ rest) =
    if ltb e.expires_at at then oldest_from k e.expires_at rest else oldest_from key at rest

unfoldable pub evict_oldest : Cache → Cache
unfolding oldest_from remove
evict_oldest [] = []
evict_oldest ((k, e) ∷ rest) = remove (oldest_from k e.expires_at rest) ((k, e) ∷ rest)

unfoldable pub store_repositories : CacheKey → List Text → ℕ → Cache → Cache
unfolding evict_oldest put has
store_repositories key repositories expires_at cache =
    let entry : RepositoryCacheEntry = record {
      repositories = repositories;
      expires_at = expires_at;
    } in
    if not (has key cache) && leb max_repository_cache_entries (length cache)
    then put key entry (evict_oldest cache)
    else put key entry cache

abbrev pub set_cache : (Cache → Cache) → ScalerState → ScalerState
set_cache f state = record state { repository_cache = f state.repository_cache }

abbrev pub is_fresh : ℕ → Option RepositoryCacheEntry → Bool
is_fresh now none = false
is_fresh now (some e) = ltb now e.expires_at

abbrev pub cached_or_none : Option RepositoryCacheEntry → List Text
cached_or_none none = []
cached_or_none (some e) = e.repositories

module _ {W : Type 0} (s : Services W) (digest : Text → Text) where
  unfoldable pub cache_key : PoolConfig → CacheKey
  unfolding lower
  cache_key pool = record {
    name = pool.name;
    owner = lower pool.owner;
    token_digest = digest pool.pat;
  }

  -- What a refresh does with the forge's answer.
  unfoldable pub keep_answer :
      PoolConfig → ℕ → Option RepositoryCacheEntry → Option (List Text) → Method W (List Text)
  unfolding cache_key store_repositories update ◌>>=◌ ◌>>◌ ◌+ℤ◌
  keep_answer pool now cached none = pure (cached_or_none cached)
  keep_answer pool now cached (some repositories) =
      let key = cache_key pool in
      let forgotten = (do update (set_cache (remove key)); pure repositories) in
      let stored = (do
        update (
            set_cache
              (store_repositories key repositories (pos_part (pos now +ℤ pool.repo_discovery_ttl))))
        pure repositories) in
      if is_zero pool.repo_discovery_ttl then forgotten else stored

  unfoldable pub refresh : PoolConfig → ℕ → Option RepositoryCacheEntry → Method W (List Text)
  unfolding keep_answer call ◌>>=◌
  refresh pool now cached = do
    answer ← call (s.list_repositories pool)
    keep_answer pool now cached answer

  unfoldable pub get_personal_repositories : PoolConfig → ℕ → Method W (List Text)
  unfolding cache_key refresh fetch get ◌>>=◌
  get_personal_repositories pool now = do
    cached ← fetch (λ state. get (cache_key pool) state.repository_cache)
    (if is_fresh now cached then pure (cached_or_none cached) else refresh pool now cached)
