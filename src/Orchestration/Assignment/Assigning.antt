-- ===== src/Orchestration/Assignment/Assigning.antt =====
-- What an assignment leaves, and its repetition.
use vpnplatform.Base.{◌≡◌, ◌⊎◌, true, false, some, ◌∷◌, In, any}
use vpnplatform.Orchestration.Database.{NodeRow, GrantRow, NodeSyncJob}
use vpnplatform.Orchestration.Subscriptions.{DeliveryEvent, Store, next_version}
use vpnplatform.Orchestration.Subscriptions.Expiry.{job_by_key, event_by_key}
use vpnplatform.Orchestration.Subscriptions.Repair.{is_healthy}
use vpnplatform.Orchestration.Devices.{DeviceStore}
use vpnplatform.Orchestration.Devices.Turns.{Announced}
use vpnplatform.Orchestration.Assignment.{
  ScheduleNodeAccessGrantInput, ScheduleNodeAccessGrantResult, ScheduleWorld, Scheduled, scheduled,
  refused, new_assignment, is_taken_by, is_assignable, node_by_id, schedule,
}

-- The grant is new, PENDING, for an ACTIVE device on a HEALTHY node that had none for it, and its
-- version, the node's next one, is announced.
pub record Assigned (w : ScheduleWorld) (input : ScheduleNodeAccessGrantInput)
    (result : ScheduleNodeAccessGrantResult) (store next : Store) : Type 0 where
  pub node : NodeRow
  pub found : node_by_id input.node_id store ≡ some node
  pub healthy_ : is_healthy node.status ≡ true
  pub device_active : any (is_assignable input) store.devices ≡ true
  pub unassigned : any (is_taken_by w input) store.grants ≡ false
  pub grants : next.grants ≡ new_assignment w input node ∷ store.grants
  pub version : result.target_version ≡ next_version node
  pub announced : Announced result.node_access_grant_id result.target_version next

-- The assignment was made before: the job and the event of the input's keys are there, the job is
-- for the node, and both are for the answered grant, which is the device's.
pub record AssignedBefore (input : ScheduleNodeAccessGrantInput)
    (result : ScheduleNodeAccessGrantResult) (store : Store) : Type 0 where
  pub grant : GrantRow
  pub job : NodeSyncJob
  pub event : DeliveryEvent
  pub there : In grant store.grants
  pub answered : grant.id ≡ result.node_access_grant_id
  pub of_device : grant.device_id ≡ input.device_id
  pub job_found : job_by_key input.sync_job_idempotency_key store ≡ some job
  pub job_answered :
      (job.id ≡ result.node_sync_job_id) × (job.target_version ≡ result.target_version)
  pub of_node : job.node_id ≡ input.node_id
  pub job_of_grant : job.node_access_grant_id ≡ some grant.id
  pub event_found : event_by_key input.outbox_event_idempotency_key store ≡ some event
  pub event_answered : event.id ≡ result.outbox_event_id
  pub event_of_grant : event.aggregate_id ≡ grant.id

-- The same input is answered with the same result, at any time.
abbrev Repeated :
    ScheduleNodeAccessGrantInput → ScheduleNodeAccessGrantResult → DeviceStore → Type 0
Repeated input result store = (w : ScheduleWorld) → schedule w input store ≡ scheduled result store

ScheduleEnds : ScheduleWorld → ScheduleNodeAccessGrantInput → DeviceStore → Scheduled → Type 0
ScheduleEnds w input store (refused e) = Unit
ScheduleEnds w input store (scheduled result next) =
    Repeated input result next
    × (((next ≡ store) × AssignedBefore input result store.tables)
        ⊎ Assigned w input result store.tables next.tables)
