-- ===== src/NodeAgent/Cycle.antt =====
-- `NodeAgentRunner.runCycle` of apps/node-agent/src/agent.ts. What the control plane and the
-- adapter do is a world: which calls throw, the snapshot that is returned, and whether the
-- adapter has its optional methods. A cycle is the calls that it makes and its outcome, if none
-- of them throws.
use vpnplatform.Base.{
  ◌<◌, ◌≡◌, Bool, true, false, not, Option, none, some, List, [], ◌∷◌, ◌==◌, if◌then◌else◌, arith,
  In,
}
use vpnplatform.NodeAgent.Snapshot.{Acknowledgement, Snapshot, snapshot_valid}
use vpnplatform.NodeAgent.Timing.{CycleOutcome, synchronized, waiting_for_command, acknowledged}

pub data AgentCall : Type 0 where
  heartbeat configuration : AgentCall
  enforce_snapshot_security reconcile_confirmed_snapshot apply : Snapshot → AgentCall
  acknowledge : Acknowledgement → AgentCall

pub record AgentWorld : Type 0 where
  pub throws : AgentCall → Bool
  pub snapshot : Snapshot
  pub can_enforce : Bool
  pub can_reconcile : Bool

pub record CycleRun : Type 0 where
  pub calls : List AgentCall
  pub outcome : Option CycleOutcome

abbrev pub finish : CycleOutcome → CycleRun
finish outcome = record { calls = []; outcome = some outcome }

-- `await call`, and the rest of the cycle unless it throws.
abbrev pub await : AgentWorld → AgentCall → CycleRun → CycleRun
await w call rest =
    if w.throws call
    then record { calls = call ∷ []; outcome = none }
    else record { calls = call ∷ rest.calls; outcome = rest.outcome }

-- `await adapter.method?.(…)`
abbrev pub await_optional : Bool → AgentWorld → AgentCall → CycleRun → CycleRun
await_optional present w call rest = if present then await w call rest else rest

abbrev pub after_configuration : AgentWorld → Option Acknowledgement → CycleRun
after_configuration w none =
    if not (w.snapshot.desired_config_version == w.snapshot.applied_config_version)
    then await_optional w.can_enforce w (enforce_snapshot_security w.snapshot)
        (finish waiting_for_command)
    else await_optional w.can_reconcile w (reconcile_confirmed_snapshot w.snapshot)
        (finish synchronized)
after_configuration w (some a) =
    await w (apply w.snapshot) (await w (acknowledge a) (finish acknowledged))

unfoldable pub run_cycle : AgentWorld → CycleRun
run_cycle w =
    await w heartbeat
      (await w configuration (after_configuration w w.snapshot.pending_acknowledgement))

after_configuration-acknowledge :
    (w : AgentWorld) (pending : Option Acknowledgement) (a : Acknowledgement)
    → In (acknowledge a) (after_configuration w pending).calls
    → (pending ≡ some a)
      × (w.throws (apply w.snapshot) ≡ false)
      × ((after_configuration w pending).calls ≡ apply w.snapshot ∷ acknowledge a ∷ [])
after_configuration-acknowledge w none a i = ground arith
after_configuration-acknowledge w (some b) a i = ground arith

fits :
    (s : Snapshot) (a : Acknowledgement)
    → snapshot_valid s ≡ true
    → s.pending_acknowledgement ≡ some a
    → (a.target_version ≡ s.desired_config_version)
      × (s.applied_config_version < s.desired_config_version)
unfolding snapshot_valid
fits s a valid e = ground arith

-- With a valid snapshot, a cycle acknowledges only the acknowledgement that the snapshot asks
-- for, as its last call, directly after the adapter has applied that snapshot without an error,
-- and the acknowledged version is the desired one, which was not applied before.
pub run_cycle-acknowledge :
    (w : AgentWorld) (a : Acknowledgement)
    → snapshot_valid w.snapshot ≡ true
    → In (acknowledge a) (run_cycle w).calls
    → ((run_cycle w).calls ≡ heartbeat ∷ configuration ∷ apply w.snapshot ∷ acknowledge a ∷ [])
      × (w.throws (apply w.snapshot) ≡ false)
      × (w.snapshot.pending_acknowledgement ≡ some a)
      × (a.target_version ≡ w.snapshot.desired_config_version)
      × (w.snapshot.applied_config_version < w.snapshot.desired_config_version)
unfolding run_cycle
run_cycle-acknowledge w a valid i = ground (
  arith,
  after_configuration-acknowledge w w.snapshot.pending_acknowledgement a,
  fits w.snapshot a valid,
)
