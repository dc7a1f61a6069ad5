-- ===== src/Orchestration/Lifecycle/Transitions.antt =====
-- The status of a node over the calls of its life cycle.
use vpnplatform.Base.{
  ℕ, ◌≤◌, ◌≡◌, refl, inl, inr, true, ◌&&◌, Option, none, some, List, [], ◌∷◌, arith, ◌==◌, In, All,
  All-tabulate, if_intro, ltb, subst, Bool-cases, find-In, Nodup, map,
}
use vpnplatform.Access.{NodeStatus, healthy, draining, disabled, quarantined, provisioning, deleted}
use vpnplatform.Orchestration.Table.{
  update_where, In-update_where_hit, In-update_where_miss, In-unique, map-update_where,
}
use vpnplatform.Orchestration.Database.{NodeRow, GrantRow, NodeSyncJob}
use vpnplatform.Orchestration.Lifecycle.{
  EventRow, AuditAction, node_healthy, node_draining, node_disabled, Store, Tx, committed,
  rolled_back, is_node, node_by_id, with_status, move_node, restore_node, restore_status,
  drain_status, disable_status,
}
use vpnplatform.Orchestration.Lifecycle.Isolation.{
  QuarantineNodeInput, QuarantineWorld, is_quarantined, is_node_eligible_for_emergency_quarantine,
  is_grant_event, replay_grant, isolate, revoke_all, quarantine_node, by_keys, live_grants,
}

-- The edges of the life cycle that the manager's calls take, and none at all.
pub data Allowed : NodeStatus → NodeStatus → Type 0 where
  stays : (status : NodeStatus) → Allowed status status
  healthy_drains : Allowed healthy draining
  healthy_disabled : Allowed healthy disabled
  draining_disabled : Allowed draining disabled
  draining_restored : Allowed draining healthy
  disabled_restored : Allowed disabled healthy
  healthy_isolated : Allowed healthy quarantined
  draining_isolated : Allowed draining quarantined
  disabled_isolated : Allowed disabled quarantined

-- The node before and after a call.
pub record Kept (before after : NodeRow) : Type 0 where
  pub same : after.id ≡ before.id
  pub edge : Allowed before.status after.status
  pub grows : before.desired_config_version ≤ after.desired_config_version

abbrev pub node_id : NodeRow → ℕ
node_id node = node.id

-- The nodes after a call, against those of before.
pub record NodesKept (before after : List NodeRow) : Type 0 where
  pub each : All (λ (a : NodeRow). (b : NodeRow) × In b after × Kept a b) before
  pub ids_kept : map node_id after ≡ map node_id before

pub unchanged : (nodes : List NodeRow) → NodesKept nodes nodes
unchanged nodes = record {
  each =
      All-tabulate _ nodes
        λ a i. (a, i, record { same = refl; edge = stays a.status; grows = ground arith });
  ids_kept = refl;
}

update-NodesKept :
    (k : ℕ) (f : NodeRow → NodeRow) (n : NodeRow) (nodes : List NodeRow)
    → Nodup (map node_id nodes)
    → ((a : NodeRow) → (f a).id ≡ a.id)
    → In n nodes × (is_node k n ≡ true)
    → Kept n (f n)
    → NodesKept nodes (update_where (is_node k) f nodes)
update-NodesKept k f n nodes uniq same (j, named) kept = record {
  each = All-tabulate _ nodes λ a i. elim (Bool-cases (a.id == k)) [
    | inl y ↦
        let one = In-unique node_id n a nodes uniq j i (ground arith) in
        (f a, In-update_where_hit (is_node k) f a nodes i y, subst (λ x. Kept x (f x)) one kept)
    | inr m ↦ (
      a,
      In-update_where_miss (is_node k) f a nodes i m,
      record { same = refl; edge = stays a.status; grows = ground arith },
    )
  ];
  ids_kept = map-update_where node_id (is_node k) f nodes same;
}

-- The store after a transaction.
abbrev pub store_after : {A : Type 0} → Tx A → Store → Store
store_after (committed result next) store = next
store_after (rolled_back error) store = store

module _ (store : Store) (uniq : Nodup (map node_id store.nodes)) where
  move-NodesKept :
      (status : NodeStatus) (action : AuditAction) (actor : Option ℕ) (k : ℕ) (n : NodeRow)
      → In n store.nodes × (is_node k n ≡ true)
      → Allowed n.status status
      → NodesKept store.nodes (store_after (move_node status action actor n store) store).nodes
  move-NodesKept status action actor k n (i, named) edge =
      update-NodesKept n.id (with_status status) n store.nodes uniq (λ a. refl) (i, ground arith)
        (record { same = refl; edge = edge; grows = ground arith })

  restore_node-NodesKept :
      (actor : Option ℕ) (k : ℕ) (n : NodeRow)
      → In n store.nodes × (is_node k n ≡ true)
      → Allowed n.status healthy
      → NodesKept store.nodes (store_after (restore_node actor n store) store).nodes
  restore_node-NodesKept actor k n i edge =
      if_intro (λ (tx : Tx NodeStatus). NodesKept store.nodes (store_after tx store).nodes)
        (ltb n.applied_config_version n.desired_config_version) _ _ (λ y. unchanged store.nodes)
        (λ m. move-NodesKept healthy node_healthy actor k n i edge)

  pub restore-NodesKept :
      (actor : Option ℕ) (k : ℕ) (n : NodeRow) (status : NodeStatus)
      → In n store.nodes × (is_node k n ≡ true)
      → n.status ≡ status
      → NodesKept store.nodes (store_after (restore_status status actor n store) store).nodes
  restore-NodesKept actor k n healthy i e = unchanged store.nodes
  restore-NodesKept actor k n draining i e =
      restore_node-NodesKept actor k n i (rw e draining_restored)
  restore-NodesKept actor k n disabled i e =
      restore_node-NodesKept actor k n i (rw e disabled_restored)
  restore-NodesKept actor k n quarantined i e = unchanged store.nodes
  restore-NodesKept actor k n provisioning i e = unchanged store.nodes
  restore-NodesKept actor k n deleted i e = unchanged store.nodes

  pub drain-NodesKept :
      (actor : Option ℕ) (k : ℕ) (n : NodeRow) (status : NodeStatus)
      → In n store.nodes × (is_node k n ≡ true)
      → n.status ≡ status
      → NodesKept store.nodes (store_after (drain_status status actor n store) store).nodes
  drain-NodesKept actor k n healthy i e =
      move-NodesKept draining node_draining actor k n i (rw e healthy_drains)
  drain-NodesKept actor k n draining i e = unchanged store.nodes
  drain-NodesKept actor k n disabled i e = unchanged store.nodes
  drain-NodesKept actor k n quarantined i e = unchanged store.nodes
  drain-NodesKept actor k n provisioning i e = unchanged store.nodes
  drain-NodesKept actor k n deleted i e = unchanged store.nodes

  pub disable-NodesKept :
      (actor : Option ℕ) (k : ℕ) (n : NodeRow) (status : NodeStatus)
      → In n store.nodes × (is_node k n ≡ true)
      → n.status ≡ status
      → NodesKept store.nodes (store_after (disable_status status actor n store) store).nodes
  disable-NodesKept actor k n healthy i e =
      move-NodesKept disabled node_disabled actor k n i (rw e healthy_disabled)
  disable-NodesKept actor k n draining i e =
      move-NodesKept disabled node_disabled actor k n i (rw e draining_disabled)
  disable-NodesKept actor k n disabled i e = unchanged store.nodes
  disable-NodesKept actor k n quarantined i e = unchanged store.nodes
  disable-NodesKept actor k n provisioning i e = unchanged store.nodes
  disable-NodesKept actor k n deleted i e = unchanged store.nodes

  isolated_edge :
      (status : NodeStatus)
      → is_node_eligible_for_emergency_quarantine status ≡ true
      → Allowed status quarantined
  isolated_edge healthy h = healthy_isolated
  isolated_edge draining h = draining_isolated
  isolated_edge disabled h = disabled_isolated
  isolated_edge quarantined h = cc
  isolated_edge provisioning h = cc
  isolated_edge deleted h = cc

  revoke_all-NodesKept :
      (input : QuarantineNodeInput) (w : QuarantineWorld) (n : NodeRow) (found : List GrantRow)
      → In n store.nodes × (is_node input.node_id n ≡ true)
      → Allowed n.status quarantined
      → NodesKept store.nodes (store_after (revoke_all input w n found store) store).nodes
  revoke_all-NodesKept input w n [] i edge =
      update-NodesKept input.node_id (with_status quarantined) n store.nodes uniq (λ a. refl) i
        (record { same = refl; edge = edge; grows = ground arith })
  revoke_all-NodesKept input w n (lead ∷ rest) i edge =
      update-NodesKept input.node_id isolate n store.nodes uniq (λ a. refl) i
        (record { same = refl; edge = edge; grows = ground arith })

  quarantine_node-NodesKept :
      (input : QuarantineNodeInput) (w : QuarantineWorld) (found : Option NodeRow)
      → node_by_id input.node_id store ≡ found
      → NodesKept store.nodes (store_after (quarantine_node input w found store) store).nodes
  quarantine_node-NodesKept input w none n = unchanged store.nodes
  quarantine_node-NodesKept input w (some row) n = elim (Bool-cases (is_quarantined row.status)) [
    | inl q ↦ rw q (unchanged store.nodes)
    | inr f ↦ rw f (elim (Bool-cases (is_node_eligible_for_emergency_quarantine row.status)) [
      | inl y ↦ rw y (
          revoke_all-NodesKept input w row (live_grants input.node_id store)
            (find-In (is_node input.node_id) row store.nodes n) (isolated_edge row.status y))
      | inr m ↦ rw m (unchanged store.nodes)
    ])
  ]

  replay-NodesKept :
      (input : QuarantineNodeInput) (grant : Option ℕ) (row : Option NodeRow) (job : NodeSyncJob)
      (event : EventRow)
      → NodesKept store.nodes
          (store_after (replay_grant input grant row job event store) store).nodes
  replay-NodesKept input none row job event = unchanged store.nodes
  replay-NodesKept input (some grant) none job event = unchanged store.nodes
  replay-NodesKept input (some grant) (some row) job event =
      elim (Bool-cases
        (job.node_id == input.node_id && is_quarantined row.status && is_grant_event grant event)) [
          | inl y ↦ rw y (unchanged store.nodes)
          | inr n ↦ rw n (unchanged store.nodes)
        ]

  pub by_keys-NodesKept :
      (input : QuarantineNodeInput) (w : QuarantineWorld) (job : Option NodeSyncJob)
      (event : Option EventRow)
      → NodesKept store.nodes (store_after (by_keys input w job event store) store).nodes
  by_keys-NodesKept input w none none =
      quarantine_node-NodesKept input w (node_by_id input.node_id store) refl
  by_keys-NodesKept input w none (some event) = unchanged store.nodes
  by_keys-NodesKept input w (some job) none = unchanged store.nodes
  by_keys-NodesKept input w (some job) (some event) =
      replay-NodesKept input job.node_access_grant_id (node_by_id job.node_id store) job event
