-- ===== src/Orchestration/Lifecycle/Calls.antt =====
-- Sequences of the manager's calls.
use vpnplatform.Base.{
  ℕ, ◌≤◌, ◌≡◌, refl, Option, none, some, List, [], ◌∷◌, arith, In, In-All, subst, sym, ◌∙◌, find-In,
  Nodup, map, Option-cases, inl, inr, true,
}
use vpnplatform.Access.{NodeStatus, quarantined}
use vpnplatform.Orchestration.Database.{NodeRow}
use vpnplatform.Orchestration.Lifecycle.{
  Store, rolled_back, cannot_restore, cannot_drain, cannot_disable, restore_status, drain_status,
  disable_status, is_node, node_by_id, restore_healthy, drain, disable,
}
use vpnplatform.Orchestration.Lifecycle.Isolation.{
  QuarantineNodeInput, QuarantineWorld, job_by_key, event_by_key, quarantine,
}
use vpnplatform.Orchestration.Lifecycle.Transitions.{
  Allowed, stays, healthy_drains, healthy_disabled, draining_disabled, draining_restored,
  disabled_restored, healthy_isolated, draining_isolated, disabled_isolated, Kept, NodesKept,
  node_id, store_after, unchanged, restore-NodesKept, drain-NodesKept, disable-NodesKept,
  by_keys-NodesKept,
}

-- A call of the manager, with what it meets.
pub data Call : Type 0 where
  restoring draining disabling : (node : ℕ) (actor : Option ℕ) → Call
  quarantining : QuarantineNodeInput → QuarantineWorld → Call

-- The store after a call, committed or rolled back.
abbrev pub run_call : Call → Store → Store
run_call (restoring node actor) store = store_after (restore_healthy node actor store) store
run_call (draining node actor) store = store_after (drain node actor store) store
run_call (disabling node actor) store = store_after (disable node actor store) store
run_call (quarantining input w) store = store_after (quarantine input w store) store

abbrev pub run_calls : List Call → Store → Store
run_calls [] store = store
run_calls (call ∷ calls) store = run_calls calls (run_call call store)

by_id :
    (store : Store) (id : ℕ) (P : Option NodeRow → Type 0)
    → P none
    → ((n : NodeRow) → In n store.nodes × (is_node id n ≡ true) → P (some n))
    → P (node_by_id id store)
by_id store id P missing there = elim (Option-cases (node_by_id id store)) [
  | inl e ↦ subst P (sym e) missing
  | inr (n, e) ↦ subst P (sym e) (there n (find-In (is_node id) n store.nodes e))
]

-- Where the nodes' ids differ, every call of the manager, committed or rolled back, keeps every
-- node: its id stays, its desired version never falls, and its status stays or takes an edge of
-- the life cycle, from HEALTHY to DRAINING, from HEALTHY or DRAINING to DISABLED, from DRAINING
-- or DISABLED to HEALTHY, or from one of these to QUARANTINED. No node is added or removed.
pub run_call-NodesKept :
    (call : Call) (store : Store)
    → Nodup (map node_id store.nodes)
    → NodesKept store.nodes (run_call call store).nodes
unfolding restore_healthy drain disable quarantine
run_call-NodesKept (restoring id actor) store uniq =
    by_id store id
      (λ o.
        NodesKept store.nodes
          (store_after
            (elim o [
              | none ↦ rolled_back cannot_restore
              | some node ↦ restore_status node.status actor node store
            ])
            store).nodes)
      (unchanged store.nodes) (λ n i. restore-NodesKept store uniq actor id n n.status i refl)
run_call-NodesKept (draining id actor) store uniq =
    by_id store id
      (λ o.
        NodesKept store.nodes
          (store_after
            (elim o [
              | none ↦ rolled_back cannot_drain
              | some node ↦ drain_status node.status actor node store
            ])
            store).nodes)
      (unchanged store.nodes) (λ n i. drain-NodesKept store uniq actor id n n.status i refl)
run_call-NodesKept (disabling id actor) store uniq =
    by_id store id
      (λ o.
        NodesKept store.nodes
          (store_after
            (elim o [
              | none ↦ rolled_back cannot_disable
              | some node ↦ disable_status node.status actor node store
            ])
            store).nodes)
      (unchanged store.nodes) (λ n i. disable-NodesKept store uniq actor id n n.status i refl)
run_call-NodesKept (quarantining input w) store uniq =
    by_keys-NodesKept store uniq input w (job_by_key input.sync_job_idempotency_key store)
      (event_by_key input.outbox_event_idempotency_key store)

-- A QUARANTINED node has no edge but its own.
Allowed-quarantined :
    (before after : NodeStatus) → Allowed before after → before ≡ quarantined → after ≡ quarantined
Allowed-quarantined before after (stays _) e = e
Allowed-quarantined before after healthy_drains e = cc
Allowed-quarantined before after healthy_disabled e = cc
Allowed-quarantined before after draining_disabled e = cc
Allowed-quarantined before after draining_restored e = cc
Allowed-quarantined before after disabled_restored e = cc
Allowed-quarantined before after healthy_isolated e = refl
Allowed-quarantined before after draining_isolated e = refl
Allowed-quarantined before after disabled_isolated e = refl

-- A quarantine is never lifted: where the nodes' ids differ, a QUARANTINED node keeps its
-- status over any sequence of calls, and its desired version never falls.
pub quarantine_is_final :
    (calls : List Call) (store : Store) (node : NodeRow)
    → Nodup (map node_id store.nodes)
    → In node store.nodes
    → node.status ≡ quarantined
    → (b : NodeRow) × In b (run_calls calls store).nodes
      × (b.id ≡ node.id)
      × (b.status ≡ quarantined)
      × (node.desired_config_version ≤ b.desired_config_version)
quarantine_is_final [] store node uniq i q = (node, i, refl, q, ground arith)
quarantine_is_final (call ∷ calls) store node uniq i q =
    let kept = run_call-NodesKept call store uniq in
    let (b, j, k) =
      In-All (λ (a : NodeRow). (b : NodeRow) × In b (run_call call store).nodes × Kept a b) node
        store.nodes kept.each i in
    let (c, there, same, status, grows) =
      quarantine_is_final calls (run_call call store) b (subst Nodup (sym kept.ids_kept) uniq) j
        (Allowed-quarantined node.status b.status k.edge q) in
    (c, there, same ∙ k.same, status, ground (arith, k.grows, grows))
