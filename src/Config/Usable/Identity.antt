-- ===== src/Config/Usable/Identity.antt =====
-- The tests on forge, scope, URL and repository against what they mean together.
use selfhosted_runner_swarm.Prelude.{false, not, ◌&&◌, ◌||◌, ◌≡◌, inl, inr, refl, arith}
use selfhosted_runner_swarm.Prelude.Text.{codes, is, truthy, text_eq, text_eq_iff}
use selfhosted_runner_swarm.Config.{PoolConfig, is_gitea}
use selfhosted_runner_swarm.Config.Validation.{is_url, identity_tests}
use selfhosted_runner_swarm.Config.Usable.{
  IsIdentified, falsy→nil, truthy-ne-nil, nil-truthy, AllFail,
}

pub identity_tests-IsIdentified : (p : PoolConfig) → AllFail (identity_tests p) → IsIdentified p
unfolding identity_tests is_gitea
identity_tests-IsIdentified p
      (token, (owned, (known, (with_url, (no_url, (scope, (personal, (repository, _)))))))) =
    record {
      token = (ground arith, ground arith);
      owned = ground arith;
      forge = ground (
        arith,
        text_eq_iff p.provider (codes "github"),
        text_eq_iff p.provider (codes "gitea"),
        falsy→nil p.base_url,
      );
      scoped = ground (
        arith,
        text_eq_iff p.scope (codes "organization"),
        text_eq_iff p.scope (codes "personal"),
        text_eq_iff p.scope (codes "repository"),
        falsy→nil p.repo,
        truthy-ne-nil p.repo,
      );
    }

forge_tests :
    (p : PoolConfig)
    → IsIdentified p
    → (not (is p.provider "github" || is p.provider "gitea") ≡ false)
      × ((is_gitea p && not (is_url p.base_url)) ≡ false)
      × ((is p.provider "github" && truthy p.base_url) ≡ false)
unfolding is_gitea text_eq
forge_tests p d = elim d.forge [
  | inl (e, f) ↦ rw (e, f) (refl, refl, refl)
  | inr (e, f) ↦ rw (e, f) (refl, refl, refl)
]

scope_tests :
    (p : PoolConfig)
    → IsIdentified p
    → (not (is p.scope "organization" || (is p.scope "personal" || is p.scope "repository"))
        ≡ false)
      × ((is p.scope "personal" && truthy p.repo) ≡ false)
      × ((is p.scope "repository" && not (truthy p.repo)) ≡ false)
unfolding text_eq
scope_tests p d = elim d.scoped [
  | inl e ↦ rw e (refl, refl, refl)
  | inr (inl (e, f)) ↦ rw (e, f) (refl, refl, refl)
  | inr (inr (e, f)) ↦ rw (e, nil-truthy p.repo f) (refl, refl, refl)
]

pub IsIdentified-tests : (p : PoolConfig) → IsIdentified p → AllFail (identity_tests p)
unfolding identity_tests
IsIdentified-tests p d =
    let (known, with_url, no_url) = forge_tests p d in
    let (scope, personal, repository) = scope_tests p d in
    (
      ground arith,
      (ground arith, (known, (with_url, (no_url, (scope, (personal, (repository, tt))))))),
    )
