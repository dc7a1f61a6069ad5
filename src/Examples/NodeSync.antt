-- ===== src/Examples/NodeSync.antt =====
-- Node-sync jobs at concrete inputs: one job for a grant, whose node desires its version.
use vpnplatform.Base.{◌≡◌, refl, inl, true, none, some, List, [], ◌∷◌, arith, In}
use vpnplatform.Access.{healthy, GrantStatus}
use vpnplatform.Orchestration.Outbox.{NodeSyncCommand, grant_command, node_sync_requested}
use vpnplatform.Orchestration.Database.{NodeSyncJob, SyncStatus, Config}
use vpnplatform.Orchestration.NodeSync.{
  SyncConfig, claim, claimable, claimed, completed, after_stale, complete,
}
use vpnplatform.Orchestration.NodeSync.Jobs.{JobsOk, insert, JobsReach, start, then}
use vpnplatform.Orchestration.NodeSync.Claiming.{IsClaimed}
use vpnplatform.Orchestration.NodeSync.Exclusion.{claim_exclusive}
use vpnplatform.Orchestration.NodeSync.Processor.{
  ProcessWorld, process, process_completes, redelivery_harmless,
}

abbrev cfg : SyncConfig
cfg = record { lease_duration_ms = 100; retry_delay_ms = 10; max_attempts = 3 }

abbrev db : Config
db = record {
  nodes =
      record { id = 3; status = healthy; desired_config_version = 2; applied_config_version = 1 }
      ∷ [];
  grants =
      record {
        id = 5;
        node_id = 3;
        device_id = 4;
        status = GrantStatus.active;
        expires_at = 1_000;
        desired_version = 2;
        applied_version = 1;
        revoked_at = none;
      }
      ∷ [];
  routes = [];
}

abbrev job : NodeSyncJob
job = record {
  id = 6;
  node_id = 3;
  node_access_grant_id = some 5;
  route_endpoint_id = none;
  route_connection_profile_id = none;
  target_version = 2;
  idempotency_key = 60;
  status = SyncStatus.pending;
  attempts = 0;
  next_attempt_at = none;
  lease_owner = none;
  lease_token = none;
  lease_expires_at = none;
  last_error_code = none;
  completed_at = none;
  updated_at = 1;
}

abbrev jobs : List NodeSyncJob
jobs = job ∷ []

abbrev command : NodeSyncCommand
command = grant_command 5 6 2

abbrev done : NodeSyncJob
done = completed 20 (claimed cfg 10 70 8 job)

jobs_reached : JobsReach cfg jobs
jobs_reached = (then) start (insert job refl refl refl refl refl refl refl)

jobs-JobsOk : JobsOk cfg jobs
jobs-JobsOk = ground arith

done-JobsOk : JobsOk cfg (done ∷ [])
done-JobsOk = ground arith

job-IsClaimed : IsClaimed (claim cfg db 10 command 70 8 jobs).0
unfolding claim
job-IsClaimed = tt

claim_exclusive_example :
    let next = (claim cfg db 10 command 70 8 jobs).1 in
    (¬ IsClaimed (claim cfg db 109 command 71 9 next).0)
    × ((claim cfg db 109 command 71 9 next).1 ≡ next)
claim_exclusive_example =
    claim_exclusive cfg db db 10 109 command command 70 71 8 9 jobs jobs-JobsOk job-IsClaimed refl
      (omega arith)

abbrev world : ProcessWorld
world = record { claim_at = 10; complete_at = 20; retry_at = 30; token = 8; others = λ t. t }

processed : process cfg db world 70 node_sync_requested (some command) jobs ≡ (none, done ∷ [])
unfolding process claim complete
processed = refl

process_completes_example :
    let (error, next) = process cfg db world 70 node_sync_requested (some command) jobs in
    let ready = after_stale cfg 10 command jobs in
    (error ≡ none)
    × ((j : NodeSyncJob) × In j ready
        × (claimable cfg db 10 command j ≡ true)
        × In (completed 20 (claimed cfg 10 70 8 j)) next)
process_completes_example =
    process_completes cfg db world 70 command jobs jobs-JobsOk job-IsClaimed refl (omega arith)

redelivery_harmless_example :
    process cfg db world 71 node_sync_requested (some command) (done ∷ []) ≡ (none, done ∷ [])
redelivery_harmless_example =
    redelivery_harmless cfg db world 71 command (done ∷ []) done done-JobsOk (inl refl) refl refl
