-- ===== src/Forge/Routes/Listings.antt =====
-- What the listings keep, `list_repositories`, `list_runners` and `_scan_queue` of
-- orchestrator/rorch/github_client.py.
use selfhosted_runner_swarm.Forge.Methods
use selfhosted_runner_swarm.Prelude.{
  ℕ, zero, suc, ◌+◌, Bool, Option, none, some, List, [], if◌then◌else◌, ltb, length, map,
}
use selfhosted_runner_swarm.Prelude.Text.{Text, truthy}
use selfhosted_runner_swarm.Prelude.Sort.{sorted, text_leb}
use selfhosted_runner_swarm.Prelude.Dict.{number_key}
use selfhosted_runner_swarm.Config.{PoolConfig, api_runners_path, is_personal_level}
use selfhosted_runner_swarm.Scaler.Types.{JobInfo, RunnerInfo}
use selfhosted_runner_swarm.Forge.Action.{Action, pure, ◌>>=◌}
use selfhosted_runner_swarm.Forge.Payload.{Body, Repository, RunnerEntry}
use selfhosted_runner_swarm.Forge.Scan.{QueueScan, empty_scan, failed_scan, scan_repo, scan_repos}
use selfhosted_runner_swarm.Forge.Methods.{Server, add_eligible, page_of, entries_of, repos_path}
use selfhosted_runner_swarm.Forge.Routes.Rules.{Keeps, Keeps-bind, Keeps-if}
use selfhosted_runner_swarm.Forge.Routes.Scans.{Keeps-scan_repo, Keeps-scan_repos}

module _ {S : Type 0} (P : S → Type 0) where
  module _ (get_body : Text → Text → Action S (Option Body)) (fnmatch : Text → Text → Bool)
      (size : ℕ) (pool : PoolConfig)
      (bodies : (path : Text) → Keeps P (get_body pool.pat path)) where
    pub Keeps-list_pages :
        (fuel page : ℕ) (names : List Text)
        → Keeps P (Methods.list_pages get_body fnmatch size fuel pool page names)
    unfolding Methods.list_pages
    Keeps-list_pages zero page names = λ s p. p
    Keeps-list_pages (suc fuel) page names =
        Keeps-bind P (get_body pool.pat (repos_path size page)) _ (bodies (repos_path size page))
          (λ answer.
            by_page (page_of answer)
              (λ rs. Keeps-list_pages fuel (page + 1) (add_eligible fnmatch pool rs names)))
      where
        by_page :
            (o : Option (List Repository))
            → ((rs : List Repository)
                → Keeps P (
                    Methods.list_pages get_body fnmatch size fuel pool
                      (page + 1)
                      (add_eligible fnmatch pool rs names)))
            → Keeps P {A = Option (Option (List Text))} (elim o [
              | none ↦ pure (some none)
              | some rs ↦
                  if ltb (length rs) size
                  then pure (some (some (sorted text_leb (add_eligible fnmatch pool rs names))))
                  else Methods.list_pages get_body fnmatch size fuel pool
                      (page + 1)
                      (add_eligible fnmatch pool rs names)
            ])
        by_page none ih = λ s p. p
        by_page (some rs) ih = Keeps-if P (ltb (length rs) size) _ _ (λ s p. p) (ih rs)

    pub Keeps-is_public_repo : Keeps P (Methods.is_public_repo get_body fnmatch size pool)
    unfolding Methods.is_public_repo
    Keeps-is_public_repo =
        Keeps-if P (truthy pool.repo) _ (pure none)
          (Keeps-bind P (get_body pool.pat _) _ (bodies _) (λ answer s p. p)) (λ s p. p)

    pub Keeps-pool_repositories :
        (fuel : ℕ) → Keeps P (Methods.pool_repositories get_body fnmatch size fuel pool)
    unfolding Methods.pool_repositories Methods.list_repositories
    Keeps-pool_repositories fuel =
        Keeps-if P (is_personal_level pool)
          (Methods.list_pages get_body fnmatch size fuel pool 1 []) _ (Keeps-list_pages fuel 1 [])
          (Keeps-bind P (get_body pool.pat _) _ (bodies _) (λ answer. by_page (page_of answer)))
      where
        by_page :
            (o : Option (List Repository))
            → Keeps P {A = Option (Option (List Text))} (elim o [
              | none ↦ pure (some none)
              | some rs ↦ pure (some (some (map (λ r. r.name) rs)))
            ])
        by_page none = λ s p. p
        by_page (some rs) = λ s p. p

    pub Keeps-list_runners : Keeps P (Methods.list_runners get_body fnmatch size pool)
    unfolding Methods.list_runners
    Keeps-list_runners =
        Keeps-bind P (get_body pool.pat (api_runners_path pool)) _ (bodies (api_runners_path pool))
          (λ answer. by_entries (entries_of answer))
      where
        by_entries :
            (o : Option (List (Option RunnerEntry)))
            → Keeps P {A = Option (List RunnerInfo)}
                (elim o [ none ↦ pure none | some es ↦ pure (some (Methods.runner_infos es)) ])
        by_entries none = λ s p. p
        by_entries (some es) = λ s p. p

    module _ (get_shared : Text → Text → Action S (Option Body)) (clock : S → ℕ)
        (shared : (path : Text) → Keeps P (get_shared pool.pat path)) where
      pub Keeps-scan_queue :
          (fuel : ℕ) → Keeps P (Methods.scan_queue get_body fnmatch size get_shared clock fuel pool)
      unfolding Methods.scan_queue
      Keeps-scan_queue fuel =
          Keeps-if P (truthy pool.repo) _ _
            (Keeps-bind P (scan_repo get_shared clock pool pool.repo) _
              (Keeps-scan_repo P get_shared clock pool shared pool.repo) (λ found s p. p))
            (Keeps-bind P (Methods.pool_repositories get_body fnmatch size fuel pool) _
              (Keeps-pool_repositories fuel) by_listing)
        where
          by_listing :
              (o : Option (Option (List Text)))
              → Keeps P {A = Option (QueueScan × List JobInfo)} (elim o [
                | none ↦ pure none
                | some none ↦ pure (some (failed_scan, []))
                | some (some repos) ↦
                    (scan_repos get_shared clock pool repos empty_scan >>= λ found.
                    pure (some found))
              ])
          by_listing none = λ s p. p
          by_listing (some none) = λ s p. p
          by_listing (some (some repos)) =
              Keeps-bind P (scan_repos get_shared clock pool repos empty_scan) _
                (Keeps-scan_repos P get_shared clock pool shared repos empty_scan) (λ found s p. p)
