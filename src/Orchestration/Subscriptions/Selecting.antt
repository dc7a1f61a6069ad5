-- ===== src/Orchestration/Subscriptions/Selecting.antt =====
-- The query for nodes to reconcile and the transaction that reconciles one agree.
use vpnplatform.Base.{
  ℕ, ◌≡◌, refl, inl, inr, Bool, true, false, ◌&&◌, ◌||◌, not, Option, none, some, List, [], ◌∷◌,
  arith, ltb, ◌==◌, In, map, filter, any, collect, is_some, subst, sym, ◌∙◌, ap, find, Bool-cases,
  In-filter, any-In, find-In, Option-cases, if◌then◌else◌, find-none, Nodup,
}
use vpnplatform.Base.Sort.{In-sort_by, sort_by}
use vpnplatform.Base.Any.{
  nonempty, option_any, nonempty-append, any-ext, any-or, any-filter, any-sort_by, any-and-none,
  any-one, elem-map-filter, nonempty-collect, any-collect,
}
use vpnplatform.Orchestration.Table.{In-unique}
use vpnplatform.Orchestration.Database.{NodeRow, GrantRow}
use vpnplatform.Orchestration.Subscriptions.{Store, Keys, AccessWorld, requires_delivery}
use vpnplatform.Orchestration.Subscriptions.Cancelling.{node_id_of}
use vpnplatform.Orchestration.Subscriptions.Expiry.{deliverable_node}
use vpnplatform.Orchestration.Subscriptions.Reconciliation.{
  ExpectedDevice, NetworkChange, expected_device, expected_devices, existing_grants, device_order,
  device_before, live_versions, is_live_delivery, target_of, delivery_lost, grant_of_device,
  change_of, expected_change, activation_of, local_activation, revoked_change, network_changes,
}
use vpnplatform.Orchestration.Subscriptions.Repair.{
  commit_changes, is_healthy, reconcile_locked, reconcile_one_node,
}
use vpnplatform.Orchestration.Subscriptions.Selection.{
  query_lost, joined, joined_needs, expected_needs, device_needs, revoked_needs,
  needs_reconciliation,
}

-- `@@unique([nodeId, deviceId])`
abbrev pub OneGrantPerDevice : List GrantRow → Type 0
OneGrantPerDevice [] = Unit
OneGrantPerDevice (g ∷ grants) =
    (any (joined g.node_id g.device_id) grants ≡ false) × OneGrantPerDevice grants

absent_pair :
    (a g : GrantRow) (grants : List GrantRow)
    → a.node_id ≡ g.node_id
    → a.device_id ≡ g.device_id
    → any (joined g.node_id g.device_id) grants ≡ false
    → ¬ In a grants
absent_pair a g grants node device none_joined i =
    ground (arith, any-In (joined g.node_id g.device_id) a grants i)

pub joined_unique :
    (a b : GrantRow) (grants : List GrantRow)
    → OneGrantPerDevice grants
    → In a grants
    → In b grants
    → a.node_id ≡ b.node_id
    → a.device_id ≡ b.device_id
    → a ≡ b
joined_unique a b [] u i j n d = absurd i
joined_unique a b (g ∷ grants) u (inl i) (inl j) n d = i ∙ sym j
joined_unique a b (g ∷ grants) u (inl i) (inr j) n d =
    absurd (absent_pair b g grants (ground arith) (ground arith) u.0 j)
joined_unique a b (g ∷ grants) u (inr i) (inl j) n d =
    absurd (absent_pair a g grants (ground arith) (ground arith) u.0 i)
joined_unique a b (g ∷ grants) u (inr i) (inr j) n d = joined_unique a b grants u.1 i j n d

-- What the map of the grants by device gives.
unfoldable pub Looked : ℕ → List GrantRow → Option GrantRow → Type 0
Looked device grants none = any (λ (g : GrantRow). g.device_id == device) grants ≡ false
Looked device grants (some g) = In g grants × (g.device_id ≡ device)

pub grant_of_device-Looked :
    (device : ℕ) (grants : List GrantRow) → Looked device grants (grant_of_device device grants)
unfolding Looked
grant_of_device-Looked device [] = refl
grant_of_device-Looked device (g ∷ grants) = ground (arith, grant_of_device-Looked device grants)

commit_changes-any :
    (keys : Keys) (w : AccessWorld) (n : NodeRow) (changes : List NetworkChange)
    (locals : List GrantRow) (store : Store)
    → (commit_changes keys w n changes locals store).0 ≡ nonempty changes || nonempty locals
commit_changes-any keys w n [] [] store = refl
commit_changes-any keys w n [] (g ∷ locals) store = refl
commit_changes-any keys w n (c ∷ changes) locals store = refl

pub delivery_lost-query :
    (node : ℕ) (store : Store) (g : GrantRow)
    → delivery_lost (live_versions node store) g ≡ query_lost node store g
delivery_lost-query node store g =
    ap (λ b. ltb g.applied_version g.desired_version && not b)
      (elem-map-filter g.desired_version target_of (is_live_delivery node store) store.jobs
        ∙ any-ext _ _ store.jobs (λ j i. ground arith))

abbrev of_node : ℕ → GrantRow → Bool
of_node node g = g.node_id == node

any-existing :
    (node : ℕ) (store : Store) (q : GrantRow → Bool)
    → any q (existing_grants node store) ≡ any (λ g. of_node node g && q g) store.grants
any-existing node store q =
    any-sort_by device_order q (filter (of_node node) store.grants)
    ∙ any-filter (of_node node) q store.grants

pub In-existing :
    (node : ℕ) (store : Store) (g : GrantRow)
    → In g (existing_grants node store)
    → In g store.grants × (of_node node g ≡ true)
In-existing node store g i =
    In-filter (of_node node) g store.grants
      ((In-sort_by device_order g (filter (of_node node) store.grants)).0 i)

-- The first loop sets a change or an activation for the device exactly if the query's conditions
-- on the device hold.
module _ (n : NodeRow) (store : Store) (unique : OneGrantPerDevice store.grants) where
  versions : List ℕ
  versions = live_versions n.id store

  Looked-needs :
      (may : Bool) (e : ExpectedDevice) (o : Option GrantRow)
      → Looked e.device_id (existing_grants n.id store) o
      → is_some (change_of may versions e o) || is_some (activation_of o)
        ≡ (may && not (any (joined n.id e.device_id) store.grants))
          || any
              (λ g. joined n.id e.device_id g && joined_needs n.id e.expires_at store g)
              store.grants
  unfolding Looked versions
  Looked-needs may e none nothing =
      let absent : any (joined n.id e.device_id) store.grants ≡ false =
        sym (any-existing n.id store (λ (g : GrantRow). g.device_id == e.device_id)) ∙ nothing in
      rw
        (
          absent,
          any-and-none (joined n.id e.device_id) (joined_needs n.id e.expires_at store) store.grants
              absent,
        )
        (ground arith)
  Looked-needs may e (some g) (i, device) =
      let (there, node) = In-existing n.id store g i in
      let here : joined n.id e.device_id g ≡ true = ground arith in
      rw
        (
          any-In (joined n.id e.device_id) g store.grants there here,
          any-one (joined n.id e.device_id) (joined_needs n.id e.expires_at store) g store.grants
              there here
              (λ b j y.
                joined_unique b g store.grants unique j there (ground arith) (ground arith)),
        )
        (ground (arith, delivery_lost-query n.id store g))

  expected_step :
      (o : Option ExpectedDevice)
      → option_any
          (λ e.
            is_some (
              expected_change
                (is_healthy n.status || false)
                versions
                (existing_grants n.id store)
                e)
            || is_some (local_activation (existing_grants n.id store) e))
          o
        ≡ expected_needs n store o
  expected_step none = refl
  expected_step (some e) =
      let found = grant_of_device e.device_id (existing_grants n.id store) in
      Looked-needs (is_healthy n.status || false) e found
        (grant_of_device-Looked e.device_id (existing_grants n.id store))
      ∙ ground arith

  revoked_step :
      any (λ g. is_some (revoked_change versions g)) (existing_grants n.id store)
      ≡ any (revoked_needs n.id store) store.grants
  unfolding versions
  revoked_step =
      any-existing n.id store (λ g. is_some (revoked_change versions g))
      ∙ any-ext _ _ store.grants (λ g i. ground (arith, delivery_lost-query n.id store g))

  reconcile_some-needs :
      (keys : Keys) (w : AccessWorld)
      → (reconcile_locked keys w false (some n) store).0
        ≡ any (device_needs w.now n store) store.devices
          || any (revoked_needs n.id store) store.grants
  unfolding versions
  reconcile_some-needs keys w =
      let grants = existing_grants n.id store in
      let expected = expected_devices w.now store in
      let change = expected_change (is_healthy n.status || false) versions grants in
      let activation = local_activation grants in
      let devices : any (λ (e : ExpectedDevice). is_some (change e) || is_some (activation e))
            expected
          ≡ any (device_needs w.now n store) store.devices =
        any-collect (expected_device w.now store)
          (λ (e : ExpectedDevice). is_some (change e) || is_some (activation e))
          (sort_by device_before store.devices)
        ∙ any-sort_by device_before _ store.devices
        ∙ any-ext _ _ store.devices (λ d i. expected_step (expected_device w.now store d)) in
      commit_changes-any keys w n
        (network_changes (is_healthy n.status || false) versions grants expected)
        (collect activation expected) store
      ∙ rw
          (
            nonempty-append (collect change expected) (collect (revoked_change versions) grants),
            nonempty-collect change expected,
            nonempty-collect (revoked_change versions) grants,
            nonempty-collect activation expected,
          )
          (ground (
            arith,
            devices,
            any-or (λ e. is_some (change e)) (λ e. is_some (activation e)) expected,
            revoked_step,
          ))

deliverable_row :
    (n : NodeRow) (store : Store)
    → Nodup (map node_id_of store.nodes)
    → In n store.nodes
    → deliverable_node n.id store ≡ (if requires_delivery n.status then some n else none)
deliverable_row n store uniq i =
    let p = λ (x : NodeRow). (x.id == n.id) && requires_delivery x.status in
    elim (Option-cases (find p store.nodes)) [
      | inl e ↦
          let missed = find-none p n store.nodes e i in
          let idle : requires_delivery n.status ≡ false = ground arith in e ∙ rw idle refl
      | inr (x, e) ↦
          let (there, y) = find-In p x store.nodes e in
          let one : x ≡ n = In-unique node_id_of x n store.nodes uniq there i (ground arith) in
          let open_ : requires_delivery n.status ≡ true =
            subst (λ z. requires_delivery z.status ≡ true) one (ground arith) in
          e ∙ ap some one ∙ rw open_ refl
    ]

-- The query and the transaction agree, at one time: the query selects a node of the table exactly
-- if the reconciliation of that node answers `true`. Nodes have different ids, and a node has at
-- most one grant for a device.
pub selected_iff_reconciled :
    (keys : Keys) (w : AccessWorld) (n : NodeRow) (store : Store)
    → Nodup (map node_id_of store.nodes)
    → OneGrantPerDevice store.grants
    → In n store.nodes
    → needs_reconciliation w.now store n ≡ (reconcile_one_node keys w n.id false store).0
unfolding needs_reconciliation reconcile_one_node
selected_iff_reconciled keys w n store uniq unique i = sym (
    ap (λ o. (reconcile_locked keys w false o store).0) (deliverable_row n store uniq i)
    ∙ elim (Bool-cases (requires_delivery n.status)) [
      | inl y ↦ rw y (reconcile_some-needs n store unique keys w)
      | inr m ↦ rw m refl
    ])
