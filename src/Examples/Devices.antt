-- ===== src/Examples/Devices.antt =====
-- The revocation of a device at concrete inputs: the device 4 of the user 1, with a grant on a
-- healthy node, and its assignment
-- to another.
use vpnplatform.Base.{ℕ, true, some, ◌+◌, ◌*◌, ◌≡◌, refl, none, [], ◌∷◌, map}
use vpnplatform.Access.{DeviceStatus, GrantStatus, healthy}
use vpnplatform.Orchestration.Database.{NodeRow, GrantRow}
use vpnplatform.Orchestration.Subscriptions.{DeviceRow}
use vpnplatform.Orchestration.Devices.{
  revoked, already_revoked, DeviceWorld, DeviceStore, revoke_device_access,
}
use vpnplatform.Orchestration.Assignment.{
  ScheduleNodeAccessGrantInput, ScheduleNodeAccessGrantResult, ScheduleWorld, Scheduled, scheduled,
  refused, schedule,
}
use vpnplatform.Orchestration.Devices.Revoking.{DeviceWithdrawn, revoke_device_withdraws}

abbrev world : ℕ → DeviceWorld
world now = record {
  now = now;
  job_id = λ grant. 100 + grant;
  event_id = λ grant. 200 + grant;
  job_key = λ device grant version. 1000 + 100 * device + 10 * grant + version;
  event_key = λ grant version. 2000 + 10 * grant + version;
}

abbrev device : DeviceRow
device = record { id = 4; user_id = 1; status = DeviceStatus.active; revoked_at = none }

abbrev store : DeviceStore
store = record {
  tables = record {
    subscriptions = [];
    devices = device ∷ [];
    nodes =
        record { id = 3; status = healthy; desired_config_version = 2; applied_config_version = 2 }
        ∷ [];
    grants =
        record {
          id = 5;
          node_id = 3;
          device_id = 4;
          status = GrantStatus.active;
          expires_at = 1_000;
          desired_version = 2;
          applied_version = 2;
          revoked_at = none;
        }
        ∷ [];
    jobs = [];
    events = [];
    acknowledged = [];
    audit = [];
  };
  audit = [];
}

abbrev revoked_store : DeviceStore
revoked_store = (revoke_device_access (world 50) 1 4 store).1

revokes : map (λ (g : GrantRow). g.desired_version) revoked_store.tables.grants ≡ 3 ∷ []
unfolding revoke_device_access
revokes = refl

revoke_device_withdraws_example :
    (next : DeviceStore) × (revoke_device_access (world 50) 1 4 store ≡ (revoked, next))
    × DeviceWithdrawn 50 1 4 device store.tables next.tables
    × (revoke_device_access (world 90) 1 4 next ≡ (already_revoked, next))
revoke_device_withdraws_example =
    revoke_device_withdraws (world 50) (world 90) 1 4 device store (refl, tt) refl refl

abbrev schedule_world : ℕ → ScheduleWorld
schedule_world now = record {
  now = now;
  grant_id = 9;
  job_id = 60;
  event_id = 61;
  has_credentials = true;
}

abbrev assignment : ScheduleNodeAccessGrantInput
assignment = record {
  node_id = 7;
  device_id = 4;
  expires_at = 1_000;
  sync_job_idempotency_key = 70;
  outbox_event_idempotency_key = 71;
  actor_user_id = some 1;
}

abbrev assignment_result : ScheduleNodeAccessGrantResult
assignment_result = record {
  node_access_grant_id = 9;
  node_sync_job_id = 60;
  outbox_event_id = 61;
  target_version = 5;
}

abbrev free_node : NodeRow
free_node = record {
  id = 7;
  status = healthy;
  desired_config_version = 4;
  applied_config_version = 4;
}

abbrev assignable : DeviceStore
assignable = record { tables = record store.tables { nodes = free_node ∷ [] }; audit = [] }

abbrev store_of : Scheduled → DeviceStore
store_of (scheduled _ next) = next
store_of (refused _) = store

abbrev assigned_store : DeviceStore
assigned_store = store_of (schedule (schedule_world 50) assignment assignable)
