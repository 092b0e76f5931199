-- ===== src/Scaler/State.antt =====
-- The scaler's fields, what it calls, and its methods as actions that read and write both and may
-- raise. A parameter `Services` stands for the forge, Docker, the federation and the store behind
-- the protocols of orchestrator/rorch/protocols.py; its world is whatever they keep.
use selfhosted_runner_swarm.Prelude.{ℕ, ◌≡◌, ◌↔◌, Bool, true, ◌&&◌, Option, List, arith}
use selfhosted_runner_swarm.Prelude.Int.{ℤ}
use selfhosted_runner_swarm.Prelude.Text.{Text, text_eq, text_eq_iff}
use selfhosted_runner_swarm.Prelude.Dict.{Key, Dict}
use selfhosted_runner_swarm.Config.{PoolConfig}
use selfhosted_runner_swarm.Scaler.Types.{
  RunnerInfo, PoolInspection, RepositoryCacheEntry, JobInfo, Age, PoolCounts,
}

-- `_pool_key`: name, owner, repository and the digest of the token.
pub record PoolKey : Type 0 where
  pub name : Text
  pub owner : Text
  pub repo : Text
  pub token_digest : Text

-- The key of the repository cache.
pub record CacheKey : Type 0 where
  pub name : Text
  pub owner : Text
  pub token_digest : Text

abbrev pool_key_eq : PoolKey → PoolKey → Bool
pool_key_eq a b =
    text_eq a.name b.name
    && (text_eq a.owner b.owner && (text_eq a.repo b.repo && text_eq a.token_digest b.token_digest))

abbrev cache_key_eq : CacheKey → CacheKey → Bool
cache_key_eq a b =
    text_eq a.name b.name && (text_eq a.owner b.owner && text_eq a.token_digest b.token_digest)

pub pool_key_eq_iff : (a b : PoolKey) → (pool_key_eq a b ≡ true) ↔ (a ≡ b)
pool_key_eq_iff a b = ground (
  arith,
  text_eq_iff a.name b.name,
  text_eq_iff a.owner b.owner,
  text_eq_iff a.repo b.repo,
  text_eq_iff a.token_digest b.token_digest,
)

pub cache_key_eq_iff : (a b : CacheKey) → (cache_key_eq a b ≡ true) ↔ (a ≡ b)
cache_key_eq_iff a b = ground (
  arith,
  text_eq_iff a.name b.name,
  text_eq_iff a.owner b.owner,
  text_eq_iff a.token_digest b.token_digest,
)

instance abbrev pub pool_key_key : Key PoolKey
pool_key_key = record { same = pool_key_eq; same_iff = pool_key_eq_iff }

instance abbrev pub cache_key_key : Key CacheKey
cache_key_key = record { same = cache_key_eq; same_iff = cache_key_eq_iff }

pub record ScalerState : Type 0 where
  pub max_total_runners : ℕ
  pub reserved_spawns : ℕ
  pub repository_cache : Dict CacheKey RepositoryCacheEntry
  pub next_poll_at : Dict PoolKey ℕ
  pub pool_counts : Dict Text PoolCounts

-- An exception: GitHub's rate limit, with the time to retry at, or any other.
pub data Raised : Type 0 where
  rate_limited : ℕ → Raised
  failed : Raised

pub data Outcome {ℓ} (A : Type ℓ) : Type ℓ where
  returned : A → Outcome A
  raised : Raised → Outcome A

abbrev pub Call {ℓ} : Type ℓ → Type ℓ → Type ℓ
Call W A = W → Outcome A × W

pub record Services (W : Type 0) : Type 0 where
  pub cleanup_exited : Text → Call W (Unit {0})
  pub running_containers : Text → Call W (List Text)
  pub cleanup_stuck : Text → List Text → ℤ → Call W (Unit {0})
  pub spawn_runner : PoolConfig → Call W Bool
  pub list_repositories : PoolConfig → Call W (Option (List Text))
  pub list_runners : PoolConfig → Call W (Option (List RunnerInfo))
  pub get_queued_count : PoolConfig → Call W (ℕ × List JobInfo)
  pub get_queued_ages : PoolConfig → Call W (List Age × List JobInfo)
  pub deregister_runner : PoolConfig → ℕ → Call W Bool
  -- the federation; both are false where there is none
  pub covers : Text → W → Bool
  pub is_hot : W → Bool
  pub queue_input : Text → List Age → Call W ℕ
  -- the store's writers, which swallow every exception and do nothing where there is no store
  pub record_runner_status : Text → List RunnerInfo → W → W
  pub record_jobs : Text → List JobInfo → W → W
  pub record_snapshot : PoolInspection → W → W
  pub record_deregistered : Text → Text → W → W

pub record Scene (W : Type 0) : Type 0 where
  pub scaler : ScalerState
  pub world : W

-- A method of the scaler.
abbrev pub Method : Type 0 → Type 0 → Type 0
Method W A = Scene W → Outcome A × Scene W

module _ {W : Type 0} where
  abbrev pub pure : {A : Type 0} → A → Method W A
  pure a scene = (returned a, scene)

  abbrev pub raise : {A : Type 0} → Raised → Method W A
  raise e scene = (raised e, scene)

  abbrev pub go_on : {A B : Type 0} → (A → Method W B) → Outcome A × Scene W → Outcome B × Scene W
  go_on f (returned a, scene) = f a scene
  go_on f (raised e, scene) = (raised e, scene)

  infixl 5 ◌>>=◌ ◌>>◌
  unfoldable pub ◌>>=◌ : {A B : Type 0} → Method W A → (A → Method W B) → Method W B
  ◌>>=◌ m f scene = go_on f (m scene)

  unfoldable pub ◌>>◌ : {B : Type 0} → Method W (Unit {0}) → Method W B → Method W B
  unfolding ◌>>=◌
  m >> k = m >>= λ _. k

  -- A call of a service.
  unfoldable pub call : {A : Type 0} → Call W A → Method W A
  call f scene = let (outcome, world) = f scene.world in (outcome, record scene { world = world })

  unfoldable pub note : (W → W) → Method W (Unit {0})
  note f scene = (returned tt, record scene { world = f scene.world })

  unfoldable pub look : {A : Type 0} → (W → A) → Method W A
  look f scene = (returned (f scene.world), scene)

  unfoldable pub fetch : {A : Type 0} → (ScalerState → A) → Method W A
  fetch f scene = (returned (f scene.scaler), scene)

  unfoldable pub update : (ScalerState → ScalerState) → Method W (Unit {0})
  update f scene = (returned tt, record scene { scaler = f scene.scaler })
