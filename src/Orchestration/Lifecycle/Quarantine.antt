-- ===== src/Orchestration/Lifecycle/Quarantine.antt =====
-- What a quarantine guarantees.
use vpnplatform.Base.{
  ℕ, ◌+◌, ◌≡◌, refl, inl, inr, Bool, true, false, ◌&&◌, Option, none, some, List, [], ◌∷◌, arith,
  ◌==◌, subst, sym, ◌∙◌, Bool-cases, find, find-In, if◌then◌else◌, ap,
}
use vpnplatform.Access.{quarantined}
use vpnplatform.Orchestration.Table.{update_where}
use vpnplatform.Orchestration.Database.{NodeRow, GrantRow, NodeSyncJob}
use vpnplatform.Orchestration.Lifecycle.{
  EventRow, Store, Tx, committed, rolled_back, is_node, node_by_id, with_status,
}
use vpnplatform.Orchestration.Lifecycle.Isolation.{
  QuarantineNodeInput, QuarantineNodeResult, QuarantineWorld, is_quarantined,
  is_node_eligible_for_emergency_quarantine, live_grants, is_grant_event, replay_grant, new_job,
  new_event, isolate, revoke_all, quarantine_node, by_keys, job_by_key, event_by_key, quarantine,
}

same_id : (n : ℕ) → (n == n) ≡ true
same_id n = ground arith

find-head :
    (p : NodeRow → Bool) (a : NodeRow) (rest : List NodeRow)
    → p a ≡ true
    → find p (a ∷ rest) ≡ some a
find-head p a rest h = rw h refl

find-tail :
    (p : NodeRow → Bool) (a : NodeRow) (rest : List NodeRow)
    → p a ≡ false
    → find p (a ∷ rest) ≡ find p rest
find-tail p a rest h = rw h refl

find-rest :
    (k : ℕ) (a n : NodeRow) (rest : List NodeRow)
    → is_node k a ≡ false
    → find (is_node k) (a ∷ rest) ≡ some n
    → find (is_node k) rest ≡ some n
find-rest k a n rest m h = sym (find-tail (is_node k) a rest m) ∙ h

pub find-update :
    (k : ℕ) (f : NodeRow → NodeRow) (n : NodeRow) (nodes : List NodeRow)
    → ((a : NodeRow) → (f a).id ≡ a.id)
    → find (is_node k) nodes ≡ some n
    → find (is_node k) (update_where (is_node k) f nodes) ≡ some (f n)
find-update k f n [] same h = cc
find-update k f n (a ∷ nodes) same h = elim (Bool-cases (a.id == k)) [
  | inl y ↦
      let hit : some a ≡ some n =
        subst (λ b. (if b then some a else find (is_node k) nodes) ≡ some n) y h in
      let one : a ≡ n = cc in
      let y2 : ((f a).id == k) ≡ true = subst (λ i. (i == k) ≡ true) (sym (same a)) y in
      let rest = update_where (is_node k) f nodes in
      find-head (is_node k) (if a.id == k then f a else a) rest (rw y y2)
      ∙ ap some (rw y (ap f one))
  | inr m ↦
      find-tail (is_node k) (if a.id == k then f a else a) (update_where (is_node k) f nodes)
        (rw m m)
      ∙ find-update k f n nodes same (find-rest k a n nodes m h)
]

-- The job and the event of the keys are stored with a grant, and the node is QUARANTINED: a call
-- with these keys returns them again.
replayed :
    (input : QuarantineNodeInput) (w w2 : QuarantineWorld) (store : Store) (lead version : ℕ)
    (node : NodeRow)
    → job_by_key input.sync_job_idempotency_key store ≡ some (new_job input w lead version)
    → event_by_key input.outbox_event_idempotency_key store ≡ some (new_event input w lead version)
    → node_by_id input.node_id store ≡ some node
    → is_quarantined node.status ≡ true
    → quarantine input w2 store
      ≡ committed
          (record {
            node_id = input.node_id;
            node_sync_job_id = some w.job_id;
            outbox_event_id = some w.event_id;
            target_version = version;
          })
          store
unfolding quarantine
replayed input w w2 store lead version node j e n q =
    rw (j, e, n) (rw (q, same_id input.node_id, same_id lead) refl)

-- The two keys are not in use.
abbrev pub KeysFree : QuarantineNodeInput → Store → Type 0
KeysFree input store =
    (job_by_key input.sync_job_idempotency_key store ≡ none)
    × (event_by_key input.outbox_event_idempotency_key store ≡ none)

already_quarantined :
    (input : QuarantineNodeInput) (w : QuarantineWorld) (store : Store) (node : NodeRow)
    → KeysFree input store
    → node_by_id input.node_id store ≡ some node
    → is_quarantined node.status ≡ true
    → quarantine input w store
      ≡ committed
          (record {
            node_id = input.node_id;
            node_sync_job_id = none;
            outbox_event_id = none;
            target_version = node.desired_config_version;
          })
          store
unfolding quarantine
already_quarantined input w store node (j, e) n q =
    let named : node.id ≡ input.node_id =
      ground (arith, (find-In (is_node input.node_id) node store.nodes n).1) in
    rw (j, e, n) (rw (q, named) refl)

-- The call, made again on the store that it committed, commits the same result and that store.
abbrev Repeats : QuarantineNodeInput → QuarantineWorld → Tx QuarantineNodeResult → Type 0
Repeats input w (committed result next) = quarantine input w next ≡ committed result next
Repeats input w (rolled_back error) = Unit

revoke_all-Repeats :
    (input : QuarantineNodeInput) (w w2 : QuarantineWorld) (store : Store) (node : NodeRow)
    (found : List GrantRow)
    → KeysFree input store
    → node_by_id input.node_id store ≡ some node
    → Repeats input w2 (revoke_all input w node found store)
revoke_all-Repeats input w w2 store node [] free n =
    already_quarantined input w2 _ (with_status quarantined node) free
      (find-update input.node_id (with_status quarantined) node store.nodes (λ a. refl) n) refl
revoke_all-Repeats input w w2 store node (lead ∷ rest) free n =
    replayed input w w2 _ lead.id (node.desired_config_version + 1) (isolate node)
      (rw (same_id input.sync_job_idempotency_key) refl)
      (rw (same_id input.outbox_event_idempotency_key) refl)
      (find-update input.node_id isolate node store.nodes (λ a. refl) n) refl

quarantine_node-Repeats :
    (input : QuarantineNodeInput) (w w2 : QuarantineWorld) (store : Store) (found : Option NodeRow)
    → KeysFree input store
    → node_by_id input.node_id store ≡ found
    → Repeats input w2 (quarantine_node input w found store)
quarantine_node-Repeats input w w2 store none free n = tt
quarantine_node-Repeats input w w2 store (some row) free n =
    let named : row.id ≡ input.node_id =
      ground (arith, (find-In (is_node input.node_id) row store.nodes n).1) in
    elim (Bool-cases (is_quarantined row.status)) [
      | inl q ↦ rw (q, named) (already_quarantined input w2 store row free n q)
      | inr f ↦ rw f (elim (Bool-cases (is_node_eligible_for_emergency_quarantine row.status)) [
        | inl y ↦
            rw y (revoke_all-Repeats input w w2 store row (live_grants input.node_id store) free n)
        | inr m ↦ rw m tt
      ])
    ]

replay_grant-Repeats :
    (input : QuarantineNodeInput) (w : QuarantineWorld) (grant : Option ℕ) (row : Option NodeRow)
    (job : NodeSyncJob) (event : EventRow) (store : Store)
    → quarantine input w store ≡ replay_grant input grant row job event store
    → Repeats input w (replay_grant input grant row job event store)
replay_grant-Repeats input w none row job event store h = tt
replay_grant-Repeats input w (some grant) none job event store h = tt
replay_grant-Repeats input w (some grant) (some row) job event store h =
    elim (Bool-cases
      (job.node_id == input.node_id && is_quarantined row.status && is_grant_event grant event)) [
        | inl y ↦ rw y (h ∙ rw y refl)
        | inr n ↦ rw n tt
      ]

by_keys-Repeats :
    (input : QuarantineNodeInput) (w w2 : QuarantineWorld) (store : Store)
    (job : Option NodeSyncJob) (event : Option EventRow)
    → job_by_key input.sync_job_idempotency_key store ≡ job
    → event_by_key input.outbox_event_idempotency_key store ≡ event
    → Repeats input w2 (by_keys input w job event store)
unfolding quarantine
by_keys-Repeats input w w2 store none none j e =
    quarantine_node-Repeats input w w2 store (node_by_id input.node_id store) (j, e) refl
by_keys-Repeats input w w2 store none (some event) j e = tt
by_keys-Repeats input w w2 store (some job) none j e = tt
by_keys-Repeats input w w2 store (some job) (some event) j e =
    replay_grant-Repeats input w2 job.node_access_grant_id (node_by_id job.node_id store) job event
      store (rw (j, e) refl)

-- Quarantine is idempotent: a call that has committed, repeated with the same keys on the store
-- that it left, commits the same result and changes nothing, whatever the clock and the new ids.
pub quarantine_idempotent :
    (input : QuarantineNodeInput) (w w2 : QuarantineWorld) (store next : Store)
    (result : QuarantineNodeResult)
    → quarantine input w store ≡ committed result next
    → quarantine input w2 next ≡ committed result next
unfolding quarantine
quarantine_idempotent input w w2 store next result h = subst (Repeats input w2) h (
    by_keys-Repeats input w w2 store (job_by_key input.sync_job_idempotency_key store)
      (event_by_key input.outbox_event_idempotency_key store) refl refl)
