-- ===== src/Examples/Lifecycle.antt =====
-- The life cycle of a node at concrete inputs: a healthy node with one live grant.
use vpnplatform.Base.{◌≤◌, ◌≡◌, refl, inl, none, some, List, [], ◌∷◌, arith, In}
use vpnplatform.Access.{healthy, quarantined, GrantStatus}
use vpnplatform.Orchestration.Database.{NodeRow, GrantRow}
use vpnplatform.Orchestration.NodeSync.{SyncConfig}
use vpnplatform.Orchestration.Lifecycle.{Store, committed}
use vpnplatform.Orchestration.Lifecycle.Isolation.{
  QuarantineNodeInput, QuarantineNodeResult, QuarantineWorld, quarantine,
}
use vpnplatform.Orchestration.Lifecycle.Transitions.{store_after}
use vpnplatform.Orchestration.Lifecycle.Quarantine.{quarantine_idempotent}
use vpnplatform.Orchestration.Lifecycle.Revocation.{Isolated, quarantine_revokes_all}
use vpnplatform.Orchestration.Lifecycle.Handover.{JobReady, quarantine-JobReady}
use vpnplatform.Orchestration.Lifecycle.Calls.{
  Call, restoring, draining, quarantining, run_calls, quarantine_is_final,
}

abbrev node : NodeRow
node = record { id = 3; status = healthy; desired_config_version = 2; applied_config_version = 2 }

abbrev grant : GrantRow
grant = record {
  id = 5;
  node_id = 3;
  device_id = 4;
  status = GrantStatus.active;
  expires_at = 1_000;
  desired_version = 2;
  applied_version = 2;
  revoked_at = none;
}

abbrev store : Store
store = record { nodes = node ∷ []; grants = grant ∷ []; jobs = []; events = []; audit = [] }

abbrev input : QuarantineNodeInput
input = record {
  node_id = 3;
  sync_job_idempotency_key = 60;
  outbox_event_idempotency_key = 61;
  actor_user_id = none;
}

abbrev world : QuarantineWorld
world = record { now = 50; job_id = 6; event_id = 7 }

abbrev result : QuarantineNodeResult
result = record {
  node_id = 3;
  node_sync_job_id = some 6;
  outbox_event_id = some 7;
  target_version = 3;
}

abbrev isolated : Store
isolated = store_after (quarantine input world store) store

isolates : quarantine input world store ≡ committed result isolated
unfolding quarantine
isolates = refl

quarantine_idempotent_example :
    quarantine input (record world { job_id = 8 }) isolated ≡ committed result isolated
quarantine_idempotent_example =
    quarantine_idempotent input world (record world { job_id = 8 }) store isolated result isolates

quarantine_revokes_all_example :
    (r : QuarantineNodeResult) × (next : Store) × (quarantine input world store ≡ committed r next)
    × Isolated input world node store next
quarantine_revokes_all_example =
    quarantine_revokes_all input world node store (refl, refl) (refl, tt) refl refl

abbrev cfg : SyncConfig
cfg = record { lease_duration_ms = 100; retry_delay_ms = 10; max_attempts = 3 }

quarantine-JobReady_example : JobReady input cfg 60 [] store (quarantine input world store)
quarantine-JobReady_example =
    quarantine-JobReady input world cfg 60 [] node grant store (omega arith) (refl, refl) refl refl
      (inl refl) refl

abbrev lost : NodeRow
lost = record node { status = quarantined }

abbrev calls : List Call
calls = restoring 3 none ∷ draining 3 none ∷ quarantining input world ∷ []

quarantine_is_final_example :
    (b : NodeRow) × In b (run_calls calls (record store { nodes = lost ∷ [] })).nodes
    × (b.id ≡ 3)
    × (b.status ≡ quarantined)
    × (2 ≤ b.desired_config_version)
quarantine_is_final_example =
    quarantine_is_final calls (record store { nodes = lost ∷ [] }) lost (refl, tt) (inl refl) refl
