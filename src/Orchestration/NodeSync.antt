-- ===== src/Orchestration/NodeSync.antt =====
-- `PrismaNodeSyncStore` of packages/orchestration-store/src/node-sync-store.ts and the processor
-- of apps/worker/src/node-sync-processor.ts. `claim` sends several statements, each at the clock of
-- the database; here they are one step at one time.
pub mod Jobs
pub mod Claiming
pub mod Exclusion
pub mod Processor
use vpnplatform.Base.{
  if◌then◌else◌, ℕ, ◌+◌, Bool, true, false, ◌&&◌, ◌||◌, not, Option, none, some, List, ltb, leb,
  ◌==◌, any, find,
}
use vpnplatform.Orchestration.Table.{update_where, affected}
use vpnplatform.Orchestration.Outbox.{
  NodeSyncCommand, grant_command, route_command, due, after, holds_value, null_or_due, coalesce,
}
use vpnplatform.Orchestration.Database.{
  NodeRow, GrantRow, RouteRow, SyncStatus, pending, processing, succeeded, failed, SyncErrorCode,
  node_sync_lease_expired, route_activation_closed, NodeSyncJob, Config,
}

pub record SyncConfig : Type 0 where
  pub lease_duration_ms : ℕ
  pub retry_delay_ms : ℕ
  pub max_attempts : ℕ

abbrev pub is_pending : SyncStatus → Bool
is_pending pending = true
is_pending _ = false

abbrev pub is_processing : SyncStatus → Bool
is_processing processing = true
is_processing _ = false

abbrev pub exhausted : SyncConfig → NodeSyncJob → Bool
exhausted cfg job = leb cfg.max_attempts job.attempts

-- The end of a lease without completion: FAILED with its time, or PENDING from the given time on.
abbrev pub released : SyncConfig → ℕ → ℕ → Option SyncErrorCode → NodeSyncJob → NodeSyncJob
released cfg now delay code job = record job {
  status = if exhausted cfg job then failed else pending;
  completed_at = if exhausted cfg job then some now else none;
  next_attempt_at = if exhausted cfg job then none else some (now + delay);
  last_error_code = code;
  lease_owner = none;
  lease_token = none;
  lease_expires_at = none;
  updated_at = now;
}

abbrev pub expired_code : SyncConfig → NodeSyncJob → Option SyncErrorCode
expired_code cfg job =
    if exhausted cfg job
    then coalesce job.last_error_code node_sync_lease_expired
    else job.last_error_code

abbrev pub reclaimed : SyncConfig → ℕ → NodeSyncJob → NodeSyncJob
reclaimed cfg now job = released cfg now 0 (expired_code cfg job) job

abbrev pub reclaimable : SyncConfig → ℕ → NodeSyncJob → Bool
reclaimable cfg now job =
    (is_processing job.status && due job.lease_expires_at now)
    || (is_pending job.status && exhausted cfg job)

unfoldable pub reclaim_expired_leases : SyncConfig → ℕ → List NodeSyncJob → ℕ × List NodeSyncJob
reclaim_expired_leases cfg now jobs = (
  affected (reclaimable cfg now) jobs,
  update_where (reclaimable cfg now) (reclaimed cfg now) jobs,
)

abbrev pub command_job_id : NodeSyncCommand → ℕ
command_job_id (grant_command grant id version) = id
command_job_id (route_command endpoint profile id version) = id

abbrev pub command_version : NodeSyncCommand → ℕ
command_version (grant_command grant id version) = version
command_version (route_command endpoint profile id version) = version

-- The job of the command's id has the command's resource and version.
abbrev pub matches : NodeSyncCommand → NodeSyncJob → Bool
matches (grant_command grant id version) job =
    job.id == id && holds_value job.node_access_grant_id grant && job.target_version == version
matches (route_command endpoint profile id version) job =
    job.id == id
    && holds_value job.route_endpoint_id endpoint
    && holds_value job.route_connection_profile_id profile
    && job.target_version == version

-- The first statement of a claim: the command's own job, if its lease has expired.
abbrev pub stale : ℕ → NodeSyncCommand → NodeSyncJob → Bool
stale now command job =
    matches command job && is_processing job.status && due job.lease_expires_at now

-- The joins with the tables of nodes, grants and routes.
abbrev pub node_ready : NodeSyncJob → NodeRow → Bool
node_ready job node = node.id == job.node_id && leb job.target_version node.desired_config_version

abbrev pub grant_joined : Config → NodeSyncJob → Bool
grant_joined db job =
    any
      (λ (g : GrantRow).
        holds_value job.node_access_grant_id g.id
        && g.node_id == job.node_id
        && any (λ n. node_ready job n && leb g.desired_version n.desired_config_version) db.nodes)
      db.grants

abbrev pub is_route_of : NodeSyncJob → RouteRow → Bool
is_route_of job route =
    holds_value job.route_endpoint_id route.endpoint_id
    && holds_value job.route_connection_profile_id route.connection_profile_id
    && route.node_id == job.node_id

abbrev pub route_joined : Config → NodeSyncJob → Bool
route_joined db job =
    any (λ (r : RouteRow). is_route_of job r && holds_value r.activation_version job.target_version)
      db.routes
    && any (node_ready job) db.nodes

abbrev pub joined : Config → NodeSyncCommand → NodeSyncJob → Bool
joined db (grant_command _ _ _) job = grant_joined db job
joined db (route_command _ _ _ _) job = route_joined db job

abbrev pub claimable : SyncConfig → Config → ℕ → NodeSyncCommand → NodeSyncJob → Bool
claimable cfg db now command job =
    matches command job
    && joined db command job
    && is_pending job.status
    && ltb job.attempts cfg.max_attempts
    && null_or_due job.next_attempt_at now

abbrev pub claimed : SyncConfig → ℕ → ℕ → ℕ → NodeSyncJob → NodeSyncJob
claimed cfg now owner token job = record job {
  status = processing;
  attempts = job.attempts + 1;
  next_attempt_at = none;
  lease_owner = some owner;
  lease_token = some token;
  lease_expires_at = some (now + cfg.lease_duration_ms);
  updated_at = now;
}

abbrev is_route : NodeSyncCommand → Bool
is_route (grant_command _ _ _) = false
is_route (route_command _ _ _ _) = true

abbrev is_null : Option ℕ → Bool
is_null none = true
is_null (some _) = false

-- The route has gone on to another activation, at or after the job's version.
abbrev pub superseded : NodeSyncJob → RouteRow → Bool
superseded job route =
    is_route_of job route
    && not (holds_value route.activation_version job.target_version)
    && leb job.target_version route.last_activation_version

abbrev pub closable : Config → ℕ → NodeSyncCommand → NodeSyncJob → Bool
closable db now command job =
    is_route command
    && matches command job
    && is_null job.node_access_grant_id
    && (is_pending job.status || (is_processing job.status && due job.lease_expires_at now))
    && any (superseded job) db.routes

abbrev pub closed : ℕ → NodeSyncJob → NodeSyncJob
closed now job = record job {
  status = failed;
  completed_at = some now;
  next_attempt_at = none;
  last_error_code = some route_activation_closed;
  lease_owner = none;
  lease_token = none;
  lease_expires_at = none;
  updated_at = now;
}

pub data ClaimResult : Type 0 where
  claimed_job : (id lease_token : ℕ) → ClaimResult
  already_completed terminal unavailable : ClaimResult

-- `existing?.field !== value` and `existing?.field !== null`.
abbrev pub resource_mismatch : NodeSyncCommand → NodeSyncJob → Bool
resource_mismatch (grant_command grant _ _) job =
    not (holds_value job.node_access_grant_id grant) || not (is_null job.route_endpoint_id)
resource_mismatch (route_command endpoint profile _ _) job =
    not (is_null job.node_access_grant_id)
    || not (holds_value job.route_endpoint_id endpoint)
    || not (holds_value job.route_connection_profile_id profile)

abbrev by_status : SyncStatus → ClaimResult
by_status succeeded = already_completed
by_status failed = terminal
by_status _ = unavailable

abbrev pub existing_result : NodeSyncCommand → Option NodeSyncJob → ClaimResult
existing_result command none = unavailable
existing_result command (some job) =
    if resource_mismatch command job || not (job.target_version == command_version command)
    then terminal
    else by_status job.status

abbrev pub after_stale : SyncConfig → ℕ → NodeSyncCommand → List NodeSyncJob → List NodeSyncJob
after_stale cfg now command jobs = update_where (stale now command) (reclaimed cfg now) jobs

-- `claim`, from the table after its first statement on.
abbrev pub claim_rest :
    SyncConfig
    → Config
    → ℕ
    → NodeSyncCommand
    → ℕ
    → ℕ
    → List NodeSyncJob
    → ClaimResult × List NodeSyncJob
claim_rest cfg db now command owner token jobs =
    if any (claimable cfg db now command) jobs
    then (
      claimed_job (command_job_id command) token,
      update_where (claimable cfg db now command) (claimed cfg now owner token) jobs,
    )
    else if any (closable db now command) jobs
    then (terminal, update_where (closable db now command) (closed now) jobs)
    else (existing_result command (find (λ job. job.id == command_job_id command) jobs), jobs)

-- `token` is the UUID that `randomUUID` gives.
unfoldable pub claim :
    SyncConfig
    → Config
    → ℕ
    → NodeSyncCommand
    → ℕ
    → ℕ
    → List NodeSyncJob
    → ClaimResult × List NodeSyncJob
claim cfg db now command owner token jobs =
    claim_rest cfg db now command owner token (after_stale cfg now command jobs)

abbrev pub holds_lease : ℕ → ℕ → ℕ → ℕ → NodeSyncJob → Bool
holds_lease now id owner token job =
    job.id == id
    && is_processing job.status
    && holds_value job.lease_owner owner
    && holds_value job.lease_token token
    && after job.lease_expires_at now

abbrev pub completed : ℕ → NodeSyncJob → NodeSyncJob
completed now job = record job {
  status = succeeded;
  completed_at = some now;
  lease_owner = none;
  lease_token = none;
  lease_expires_at = none;
  updated_at = now;
}

unfoldable pub complete : ℕ → ℕ → ℕ → ℕ → List NodeSyncJob → Bool × List NodeSyncJob
complete now id owner token jobs = (
  affected (holds_lease now id owner token) jobs == 1,
  update_where (holds_lease now id owner token) (completed now) jobs,
)

pub data RetryResult : Type 0 where
  retried retry_failed fenced : RetryResult

abbrev retry_result : SyncConfig → Option NodeSyncJob → RetryResult
retry_result cfg none = fenced
retry_result cfg (some job) = if exhausted cfg job then retry_failed else retried

unfoldable pub retry :
    SyncConfig → ℕ → ℕ → ℕ → ℕ → SyncErrorCode → List NodeSyncJob → RetryResult × List NodeSyncJob
retry cfg now id owner token code jobs = (
  retry_result cfg (find (holds_lease now id owner token) jobs),
  update_where (holds_lease now id owner token) (released cfg now cfg.retry_delay_ms (some code))
      jobs,
)
