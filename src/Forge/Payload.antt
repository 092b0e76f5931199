-- ===== src/Forge/Payload.antt =====
-- The bodies that orchestrator/rorch/github_client.py reads, by the members that it reads of them,
-- and its `_job_info`. A text that is missing or null is empty.
use selfhosted_runner_swarm.Prelude.{ℕ, Bool, Option, none, some, List, [], if◌then◌else◌}
use selfhosted_runner_swarm.Prelude.Int.{ℤ}
use selfhosted_runner_swarm.Prelude.Text.{Text, truthy}
use selfhosted_runner_swarm.Scaler.Types.{JobInfo}

pub record Run : Type 0 where
  pub id : ℕ
  pub workflow_name : Text
  pub name : Text
  pub display_title : Text

-- `created` is the time that `created_at` stands for, if it can be read.
pub record Job : Type 0 where
  pub id : ℕ
  pub name : Text
  pub runner_name : Text
  pub status : Text
  pub conclusion : Text
  pub html_url : Text
  pub started_at : Text
  pub completed_at : Text
  pub labels : List Text
  pub created : Option ℤ

-- One entry of `/user/repos`; `private` reads as true where it is missing.
pub record Repository : Type 0 where
  pub owner : Text
  pub name : Text
  pub archived : Bool
  pub disabled : Bool
  pub private : Bool

-- One entry of a runner list, with what is of the wrong type left out.
pub record RunnerEntry : Type 0 where
  pub id : Option ℕ
  pub name : Option Text
  pub status : Option Text
  pub busy : Bool

pub data Body : Type 0 where
  runs : List Run → Body
  jobs : List Job → Body
  -- a list of the repositories of an account or an organization
  repositories : List Repository → Body
  -- a repository, with its `private` where there is one
  repository : Option Bool → Body
  -- a list of runners; an entry that is no object is `none`
  runner_list : List (Option RunnerEntry) → Body
  registration_token : Option Text → Body
  -- any other object, or a value that is neither an object nor a list
  object : Body
  scalar : Body

abbrev pub or_text : Text → Text → Text
or_text s t = if truthy s then s else t

unfoldable pub job_info : Job → Run → Text → JobInfo
job_info job run repo = record {
  job_id = job.id;
  repo = repo;
  workflow = or_text run.workflow_name (or_text run.name run.display_title);
  job_name = job.name;
  runner = job.runner_name;
  status = job.status;
  conclusion = job.conclusion;
  url = job.html_url;
  started_at = job.started_at;
  completed_at = job.completed_at;
}

-- `data.get("workflow_runs", [])`, which raises on what is no object
unfoldable pub workflow_runs : Body → Option (List Run)
workflow_runs (runs rs) = some rs
workflow_runs (jobs js) = some []
workflow_runs (repositories rs) = none
workflow_runs (repository p) = some []
workflow_runs (runner_list rs) = some []
workflow_runs (registration_token t) = some []
workflow_runs object = some []
workflow_runs scalar = none

-- `data.get("jobs", [])`
unfoldable pub listed_jobs : Body → Option (List Job)
listed_jobs (runs rs) = some []
listed_jobs (jobs js) = some js
listed_jobs (repositories rs) = none
listed_jobs (repository p) = some []
listed_jobs (runner_list rs) = some []
listed_jobs (registration_token t) = some []
listed_jobs object = some []
listed_jobs scalar = none

-- `data if isinstance(data, list) else None`
unfoldable pub repository_list : Body → Option (List Repository)
repository_list (runs rs) = none
repository_list (jobs js) = none
repository_list (repositories rs) = some rs
repository_list (repository p) = none
repository_list (runner_list rs) = none
repository_list (registration_token t) = none
repository_list object = none
repository_list scalar = none

-- `data.get("runners")` where the data are an object and it is a list
unfoldable pub runners_of : Body → Option (List (Option RunnerEntry))
runners_of (runs rs) = none
runners_of (jobs js) = none
runners_of (repositories rs) = none
runners_of (repository p) = none
runners_of (runner_list rs) = some rs
runners_of (registration_token t) = none
runners_of object = none
runners_of scalar = none
