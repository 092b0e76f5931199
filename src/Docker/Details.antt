-- ===== src/Docker/Details.antt =====
-- The runner containers as the dashboard and the control API see them: `container_details` of
-- orchestrator/rorch/docker_client.py. Running times are in seconds, as in Docker/Names.antt.
use selfhosted_runner_swarm.Prelude.{ℕ, Option, none, some, List, [], ◌∷◌, if◌then◌else◌}
use selfhosted_runner_swarm.Prelude.Text.{Text, codes, truthy, split}
use selfhosted_runner_swarm.Docker.{Docker, Run, pure, capture, ◌>>=◌}
use selfhosted_runner_swarm.Docker.Names.{running_seconds}
use selfhosted_runner_swarm.Docker.Cleanup.{newline, tab, named, four_fields}

pub record ContainerInfo : Type 0 where
  pub name : Text
  pub image : Text
  pub status : Text
  pub running_for : Text
  pub seconds : ℕ

abbrev pub or_none : Option ℕ → ℕ
or_none none = 0
or_none (some n) = n

abbrev pub details_command : Text → List Text
details_command prefix =
    codes "ps"
    ∷ codes "--filter"
    ∷ named prefix
    ∷ codes "--format"
    ∷ codes "{{.Names}}\t{{.Image}}\t{{.Status}}\t{{.RunningFor}}"
    ∷ []

module _ (float : Text → Option ℕ) where
  -- A line of exactly four fields.
  abbrev pub as_info : Option (Text × (Text × (Text × Text))) → Option ContainerInfo
  as_info none = none
  as_info (some (name, (image, (status, running_for)))) = some (record {
    name = name;
    image = image;
    status = status;
    running_for = running_for;
    seconds = or_none (running_seconds float running_for);
  })

  unfoldable pub info_of : Text → Option ContainerInfo
  unfolding split running_seconds
  info_of line = as_info (four_fields (split tab line))

  unfoldable pub container_infos : List Text → List ContainerInfo
  unfolding info_of
  container_infos [] = []
  container_infos (line ∷ rest) = elim (info_of line) [
    | none ↦ container_infos rest
    | some info ↦ info ∷ container_infos rest
  ]

  unfoldable pub infos_in : Text → List ContainerInfo
  unfolding split container_infos
  infos_in out = if truthy out then container_infos (split newline out) else []

  unfoldable pub container_details : {W : Type 0} → Docker W → Text → Run W (List ContainerInfo)
  unfolding capture infos_in ◌>>=◌
  container_details d prefix = do
    (out, code) ← capture d (details_command prefix)
    pure (infos_in out)
