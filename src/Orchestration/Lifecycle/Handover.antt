-- ===== src/Orchestration/Lifecycle/Handover.antt =====
-- The job and the event that a quarantine leaves for the workers.
use vpnplatform.Base.{
  ℕ, ◌+◌, ◌<◌, ◌≡◌, refl, inl, inr, Bool, true, false, ◌&&◌, some, List, [], ◌∷◌, arith, ◌==◌, In,
  subst, sym, Bool-cases, find-In, leb, if◌then◌else◌, map, filter, In-filter, filter-In, In→elem,
  any,
}
use vpnplatform.Base.Sort.{In-sort_by}
use vpnplatform.Orchestration.Table.{update_where, In-update_where_hit}
use vpnplatform.Orchestration.Outbox.{holds_value}
use vpnplatform.Orchestration.Database.{NodeRow, GrantRow, NodeSyncJob, RouteRow}
use vpnplatform.Orchestration.NodeSync.{node_ready, SyncConfig, claimable}
use vpnplatform.Orchestration.Lifecycle.Revocation.{revoke_each-In, grant_id}
use vpnplatform.Orchestration.Lifecycle.Quarantine.{KeysFree}
use vpnplatform.Orchestration.Lifecycle.{EventRow, Store, Tx, committed, is_node, node_by_id}
use vpnplatform.Orchestration.Lifecycle.Isolation.{
  QuarantineNodeInput, QuarantineNodeResult, QuarantineWorld, is_quarantined,
  is_node_eligible_for_emergency_quarantine, is_live_grant_of, live_grants, revoke, revoke_each,
  new_job, new_event, isolate, revoke_all, quarantine, grant_before,
}

In-any : {A : Type 0} (p : A → Bool) (a : A) (xs : List A) → In a xs → p a ≡ true → any p xs ≡ true
In-any p a [] i h = absurd i
In-any p a (x ∷ xs) (inl e) h = rw (subst (λ y. p y ≡ true) e h) refl
In-any p a (x ∷ xs) (inr i) h = elim (Bool-cases (p x)) [
  | inl y ↦ rw y refl
  | inr n ↦ rw n (In-any p a xs i h)
]

-- The job that a quarantine leaves can be claimed by its command.
abbrev pub JobReady :
    QuarantineNodeInput → SyncConfig → ℕ → List RouteRow → Store → Tx QuarantineNodeResult → Type 0
JobReady input cfg now routes store tx =
    (result : QuarantineNodeResult) × (next : Store) × (tx ≡ committed result next)
    × (job : NodeSyncJob) × (event : EventRow) × In job next.jobs
    × In event next.events
    × (result.node_sync_job_id ≡ some job.id)
    × (result.outbox_event_id ≡ some event.id)
    × (claimable cfg (record { nodes = next.nodes; grants = next.grants; routes = routes }) now
          event.payload job
        ≡ true)

revoke_all-JobReady :
    (input : QuarantineNodeInput) (w : QuarantineWorld) (cfg : SyncConfig) (now : ℕ)
    (routes : List RouteRow) (node : NodeRow) (lead : GrantRow) (rest : List GrantRow)
    (store : Store)
    → 0 < cfg.max_attempts
    → In node store.nodes × (is_node input.node_id node ≡ true)
    → In lead store.grants × (is_live_grant_of input.node_id lead ≡ true)
    → JobReady input cfg now routes store (revoke_all input w node (lead ∷ rest) store)
revoke_all-JobReady input w cfg now routes node lead rest store room (i, y) (k, live) =
    let version = node.desired_config_version + 1 in
    let job = new_job input w lead.id version in
    let nodes = update_where (is_node input.node_id) isolate store.nodes in
    let after = revoke_each w.now version (lead ∷ rest) store.grants in
    let ready : any (λ n. node_ready job n && leb version n.desired_config_version) nodes ≡ true =
      In-any _ (isolate node) nodes
        (In-update_where_hit (is_node input.node_id) isolate node store.nodes i y) (ground arith) in
    let stands = revoke_each-In w.now version lead (lead ∷ rest) store.grants k in
    let stands =
      subst (λ b. In (if b then revoke w.now version lead else lead) after)
        (In→elem lead.id (map grant_id (lead ∷ rest)) (inl refl))
        (revoke_each-In w.now version lead (lead ∷ rest) store.grants k) in
    let join =
      In-any
        (λ (g : GrantRow).
          holds_value job.node_access_grant_id g.id
          && g.node_id == job.node_id
          && any (λ n. node_ready job n && leb g.desired_version n.desired_config_version) nodes)
        (revoke w.now version lead) after stands (ground (arith, ready)) in
    (
      _,
      _,
      refl,
      job,
      new_event input w lead.id version,
      inl refl,
      inl refl,
      refl,
      refl,
      ground (arith, join),
    )

live_found-JobReady :
    (input : QuarantineNodeInput) (w : QuarantineWorld) (cfg : SyncConfig) (now : ℕ)
    (routes : List RouteRow) (node : NodeRow) (grant : GrantRow) (store : Store)
    → 0 < cfg.max_attempts
    → In node store.nodes × (is_node input.node_id node ≡ true)
    → (found : List GrantRow) → live_grants input.node_id store ≡ found
    → In grant found
    → JobReady input cfg now routes store (revoke_all input w node found store)
live_found-JobReady input w cfg now routes node grant store room n [] e i = absurd i
live_found-JobReady input w cfg now routes node grant store room n (lead ∷ rest) e i =
    let p = is_live_grant_of input.node_id in
    revoke_all-JobReady input w cfg now routes node lead rest store room n (
      In-filter p lead store.grants (
        (In-sort_by grant_before lead (filter p store.grants)).0
          (subst (In lead) (sym e) (inl refl))))

-- A quarantine of a node that may be quarantined and has a live grant, under two unused keys,
-- commits, and the store holds the job and the outbox event that the result names. With a
-- positive limit of attempts the worker can claim that job by the event's payload at any time:
-- its resource, its version, its node and its grant fit.
pub quarantine-JobReady :
    (input : QuarantineNodeInput) (w : QuarantineWorld) (cfg : SyncConfig) (now : ℕ)
    (routes : List RouteRow) (node : NodeRow) (grant : GrantRow) (store : Store)
    → 0 < cfg.max_attempts
    → KeysFree input store
    → node_by_id input.node_id store ≡ some node
    → is_node_eligible_for_emergency_quarantine node.status ≡ true
    → In grant store.grants
    → is_live_grant_of input.node_id grant ≡ true
    → JobReady input cfg now routes store (quarantine input w store)
unfolding quarantine
quarantine-JobReady input w cfg now routes node grant store room (j, e) n fit i live =
    let open_ : is_quarantined node.status ≡ false = ground arith in
    rw (j, e, n)
      (rw (open_, fit)
        (live_found-JobReady input w cfg now routes node grant store room
          (find-In (is_node input.node_id) node store.nodes n) (live_grants input.node_id store)
          refl
          ((In-sort_by grant_before grant (filter (is_live_grant_of input.node_id) store.grants)).1
            (filter-In (is_live_grant_of input.node_id) grant store.grants i live))))
