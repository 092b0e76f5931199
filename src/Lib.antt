-- ===== src/Lib.antt =====
-- A model of the runner orchestrator, orchestrator/rorch, and the theorems that make it correct.
--
-- The orchestrator keeps pools of ephemeral CI runners on a Docker host. For each pool a tick inspects
-- Docker and the forge, cleans up, decides how many runners to start, reserves them under a cap that
-- all pools share, and runs the deregistrations and spawns. Hosts may join a federation that splits
-- one queue. An HTTP API lets an operator and other programs steer the pools.
--
-- Prelude: shared lemmas and operators. Text is a list of code points, Dict an association list in
-- insertion order like Python's dict, Sort the stable sort, Int the integers over the native numbers.
--
-- Config (orchestrator/rorch/config.py): PoolConfig and its derived properties; Size has parse_size and
-- the tmpfs sizes, Labels serves_labels, Validation validation_errors, Usable an independent
-- description of a usable pool, Warnings validation_warnings. The field `instance` is called
-- instance_name, and cpu_limit is in hundredths. `\d`, isdigit and lower() are those of ASCII.
--
-- Resolver (orchestrator/rorch/resolver.py): the pools of ConfigResolver.resolve, with the store's rows as
-- an argument; int, float and str on stored values and the environment are parameters. No result stands for an exception. Identity is about
-- overrides, Pools about the whole, Returns about when it returns.
--
-- Scaler (orchestrator/rorch/scaler.py): State has the fields of PoolScaler, and methods as actions
-- that pass this state and a world and end in a value or an exception; the forge, Docker, the
-- federation and the store are a parameter, the record Services. Inspect is _inspect_pool and
-- _federated_queue, Spawn _calculate_spawn_count, Share the allocation loop of _tick_personal,
-- Operations _run_runner_operations and what it calls, Repositories the repository cache, Tick the
-- rest of a cycle up to tick. Cap is _reserve_spawns and _release_spawns; Cap.Threads lets the ticks of
-- several pools interleave, as steps of counting and granting under the lock, starts, failures, exits
-- and releases. Tick.Balance follows the reserved slots through a whole tick, Tick.Schedule the
-- back-off, Tick.Draining a draining pool. Within one tick the
-- worker threads run one after another. The loop of the allocation runs on fuel, capacity and one
-- rounds, which is enough because each round but the last uses up capacity. The manual spawn of the API takes no slot, so
-- the cap does not bound it.
--
-- Federation (orchestrator/rorch/federation.py): Settings has the checks of parse_config, Snapshot JSON
-- values and validate_snapshot, Split the pure split, Peers slot_for and the class Federation. What a
-- peer answers and the clock are arguments.
--
-- Docker (orchestrator/rorch/docker_client.py, expand_image of orchestrator/rorch/version.py): Names reads
-- Docker's texts, Details container_details, Cleanup has the reapers, Image the upkeep of the runner image, Prune the prunes and the logs, Spawn spawn_runner. The
-- docker command is a parameter. The reasons in events leave out the numbers of minutes.
--
-- Forge (orchestrator/rorch/github_client.py and gitea_client.py): Client is what a GitHubClient keeps, Request
-- one _request, whose two uses of _state_lock are begin and finish; Cooldown and Conditional let the requests
-- of all threads overlap. Payload has the bodies that the code reads, Scan the walk over a repository,
-- Methods the methods of GitHubClient, Pages its reading of an account, Clients GiteaClient and
-- ForgeClients, Routes where a token goes. The round trip, the clocks and SHA-256 are parameters.
-- The loop over pages runs on fuel: more rounds than the account has repositories are enough.
--
-- Server (orchestrator/rorch/server/auth.py and deps.py): Guard is TokenGuard, Access scopes and
-- authorization, Replay the idempotent actions of requests that overlap. Control has the endpoints of
-- orchestrator/rorch/server/control_routes.py: Pools and Switches edit the store's tables, Runners also
-- runs Docker commands, Requests is the sequence of edits under config_lock; Steady, Safe, Kept and InForce are
-- about the pools in force after it, Refused about failures, Longest about a manual scale-down. JSON
-- values, with int, float, str and bool of them, are a parameter.
--
-- Store (orchestrator/rorch/store.py): the tables and what the methods of Store read and write, each a
-- transaction; Jobs is sync_jobs, with Rows, Missing and Keys about its two loops and Once about scans in
-- a row.
--
-- Lanes (orchestrator/rorch/lanes.py): TickLanes, with the futures that are not done, as steps of
-- submitting, completing and forgetting.
--
-- Tests: runs of the models, and each theorem at a concrete input.
--
-- Not modelled: the database connection, the read API, Flask itself and
-- the daemon's start; reading YAML and the environment; logging; the time-out of a sweep's workers.
pub mod Prelude
pub mod Config
pub mod Scaler
pub mod Federation
pub mod Docker
pub mod Forge
pub mod Server
pub mod Store
pub mod Lanes
pub mod Resolver
pub mod Tests
