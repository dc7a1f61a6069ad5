-- ===== src/Orchestration/Devices/Turns.antt =====
-- The loop of a revocation over the grants of the device.
use vpnplatform.Base.{
  ℕ, ◌≡◌, refl, sym, ap, ◌∙◌, subst, ◌⊎◌, inl, inr, Bool, true, false, Option, none, some, Nodup,
  List, [], ◌∷◌, arith, All, In, In-All, map, elem, Bool-cases, All-map,
}
use vpnplatform.Orchestration.Table.{
  update_where, update_where-All, In-update_where_miss, In-update_where_hit, In-key,
  map-update_where,
}
use vpnplatform.Orchestration.Database.{NodeRow, GrantRow, NodeSyncJob}
use vpnplatform.Orchestration.Outbox.{grant_command}
use vpnplatform.Orchestration.Subscriptions.{
  DeliveryEvent, Store, is_revoked, requires_delivery, id_of,
}
use vpnplatform.Orchestration.Subscriptions.Cancellation.{revoke_grant, revoke_grant_at}
use vpnplatform.Orchestration.Devices.{
  DeviceWorld, DeviceStore, is_device_live, locked_node, with_grant_id, version_after,
  revoke_device_grant, revoke_device_grants,
}

abbrev pub delivered_to : Option NodeRow → Bool
delivered_to none = false
delivered_to (some n) = requires_delivery n.status

-- A job for the grant and the version, with its event.
abbrev pub Announced : ℕ → ℕ → Store → Type 0
Announced grant version store =
    (j : NodeSyncJob) × (e : DeliveryEvent) × In j store.jobs
    × In e store.events
    × (j.node_access_grant_id ≡ some grant)
    × (j.target_version ≡ version)
    × (e.payload ≡ grant_command grant j.id version)

-- The version of the grant's row is announced.
abbrev pub Delivered : ℕ → Store → Type 0
Delivered grant store =
    (x : GrantRow) × In x store.grants × (x.id ≡ grant) × Announced grant x.desired_version store

-- What one turn of the loop does.
record Turn (o : Option NodeRow) (g : GrantRow) (store next : Store) : Type 0 where
  change : GrantRow → GrantRow
  grants : next.grants ≡ update_where (with_grant_id g.id) change store.grants
  revokes : (x : GrantRow) → is_revoked (change x).status ≡ true
  named : (x : GrantRow) → (change x).id ≡ x.id
  devices : next.devices ≡ store.devices
  jobs : (j : NodeSyncJob) → In j store.jobs → In j next.jobs
  events : (e : DeliveryEvent) → In e store.events → In e next.events
  announces :
      (delivered_to o ≡ false) ⊎ ((x : GrantRow) → Announced g.id (change x).desired_version next)

locally-Turn :
    (now : ℕ) (o : Option NodeRow) (g : GrantRow) (store : Store)
    → delivered_to o ≡ false
    → Turn o g store (record store {
      grants = update_where (with_grant_id g.id) (revoke_grant now) store.grants;
    })
locally-Turn now o g store quiet = record {
  change = revoke_grant now;
  grants = refl;
  revokes = λ x. refl;
  named = λ x. refl;
  devices = refl;
  jobs = λ j i. i;
  events = λ e i. i;
  announces = inl quiet;
}

revoke_device_grant-Turn :
    (w : DeviceWorld) (user device : ℕ) (o : Option NodeRow) (g : GrantRow) (store : DeviceStore)
    → Turn o g store.tables (revoke_device_grant w user device o g store).tables
revoke_device_grant-Turn w user device none g store = locally-Turn w.now none g store.tables refl
revoke_device_grant-Turn w user device (some n) g store =
    elim (Bool-cases (requires_delivery n.status)) [
      | inl y ↦ rw y (record {
        change = revoke_grant_at w.now (version_after g.node_id store.tables.nodes);
        grants = refl;
        revokes = λ x. refl;
        named = λ x. refl;
        devices = refl;
        jobs = λ j i. inr i;
        events = λ e i. inr i;
        announces = inr (λ x. (_, _, inl refl, inl refl, refl, refl, refl));
      })
      | inr m ↦ rw m (locally-Turn w.now (some n) g store.tables m)
    ]

Announced-grows :
    (grant version : ℕ) (store next : Store)
    → ((j : NodeSyncJob) → In j store.jobs → In j next.jobs)
    → ((e : DeliveryEvent) → In e store.events → In e next.events)
    → Announced grant version store
    → Announced grant version next
Announced-grows grant version store next jobs events (j, e, i, k, a, b, c) =
    (j, e, jobs j i, events e k, a, b, c)

module _ (w : DeviceWorld) (user device : ℕ) (nodes : List NodeRow) where
  abbrev turn : GrantRow → DeviceStore → DeviceStore
  turn g store = revoke_device_grant w user device (locked_node g.node_id nodes) g store

  turn-Turn :
      (g : GrantRow) (store : DeviceStore)
      → Turn (locked_node g.node_id nodes) g store.tables (turn g store).tables
  turn-Turn g store = revoke_device_grant-Turn w user device (locked_node g.node_id nodes) g store

  turn-ids :
      (g : GrantRow) (store : DeviceStore)
      → map id_of (turn g store).tables.grants ≡ map id_of store.tables.grants
  turn-ids g store =
      let t = turn-Turn g store in
      ap (map id_of) t.grants
      ∙ map-update_where id_of (with_grant_id g.id) t.change store.tables.grants t.named

  pub loop-ids :
      (todo : List GrantRow) (store : DeviceStore)
      → map id_of (revoke_device_grants w user device nodes todo store).tables.grants
        ≡ map id_of store.tables.grants
  loop-ids [] store = refl
  loop-ids (g ∷ todo) store = loop-ids todo (turn g store) ∙ turn-ids g store

  pub loop-devices :
      (todo : List GrantRow) (store : DeviceStore)
      → (revoke_device_grants w user device nodes todo store).tables.devices ≡ store.tables.devices
  loop-devices [] store = refl
  loop-devices (g ∷ todo) store = loop-devices todo (turn g store) ∙ (turn-Turn g store).devices

  pub loop-keeps :
      (todo : List GrantRow) (store : DeviceStore) (x : GrantRow)
      → In x store.tables.grants
      → elem x.id (map id_of todo) ≡ false
      → In x (revoke_device_grants w user device nodes todo store).tables.grants
  loop-keeps [] store x i other = i
  loop-keeps (g ∷ todo) store x i other =
      let t = turn-Turn g store in
      loop-keeps todo (turn g store) x
        (subst (In x) (sym t.grants) (
          In-update_where_miss (with_grant_id g.id) t.change x store.tables.grants i
            (ground arith)))
        (ground arith)

  -- A grant of the device that is live has its turn still to come.
  pub loop-none_live :
      (todo : List GrantRow) (store : DeviceStore)
      → All
          (λ x. (is_device_live device x ≡ false) ⊎ (elem x.id (map id_of todo) ≡ true))
          store.tables.grants
      → All
          (λ x. is_device_live device x ≡ false)
          (revoke_device_grants w user device nodes todo store).tables.grants
  loop-none_live [] store h =
      All-map (λ x. (is_device_live device x ≡ false) ⊎ (false ≡ true)) _ store.tables.grants
        (λ x k. elim k [ inl dead ↦ dead | inr turn ↦ cc ]) h
  loop-none_live (g ∷ todo) store h =
      let t = turn-Turn g store in
      let Due = λ (todo : List GrantRow) (x : GrantRow).
        (is_device_live device x ≡ false) ⊎ (elem x.id (map id_of todo) ≡ true) in
      loop-none_live todo (turn g store) (
        subst (All (Due todo)) (sym t.grants) (
          update_where-All (Due todo) (with_grant_id g.id) t.change store.tables.grants
            (λ x i y. inl (ground (arith, t.revokes x)))
            (λ x i m. elim (In-All (Due (g ∷ todo)) x store.tables.grants h i) [
              | inl dead ↦ inl dead
              | inr due ↦ inr (ground arith)
            ])))

  loop-Delivered :
      (todo : List GrantRow) (store : DeviceStore) (grant : ℕ)
      → elem grant (map id_of todo) ≡ false
      → Delivered grant store.tables
      → Delivered grant (revoke_device_grants w user device nodes todo store).tables
  loop-Delivered [] store grant other d = d
  loop-Delivered (g ∷ todo) store grant other (x, i, named, announced) =
      let t = turn-Turn g store in
      let next = turn g store in
      loop-Delivered todo next grant (ground arith) (
        x,
        subst (In x) (sym t.grants) (
            In-update_where_miss (with_grant_id g.id) t.change x store.tables.grants i
              (ground arith)),
        named,
        Announced-grows grant x.desired_version store.tables next.tables t.jobs t.events announced,
      )

  turn-Delivered :
      (g : GrantRow) (store : DeviceStore)
      → elem g.id (map id_of store.tables.grants) ≡ true
      → delivered_to (locked_node g.node_id nodes) ≡ true
      → Delivered g.id (turn g store).tables
  turn-Delivered g store there open_ =
      let t = turn-Turn g store in
      let (x, i, named) = In-key id_of g.id store.tables.grants there in
      elim t.announces [
        | inl quiet ↦ cc
        | inr announced ↦ (
          t.change x,
          subst (In (t.change x)) (sym t.grants) (
              In-update_where_hit (with_grant_id g.id) t.change x store.tables.grants i
                (ground arith)),
          t.named x ∙ named,
          announced x,
        )
      ]

  -- Each grant of the loop whose node takes deliveries is delivered.
  pub loop-delivers :
      (todo : List GrantRow) (store : DeviceStore) (g : GrantRow)
      → Nodup (map id_of todo)
      → In g todo
      → elem g.id (map id_of store.tables.grants) ≡ true
      → delivered_to (locked_node g.node_id nodes) ≡ true
      → Delivered g.id (revoke_device_grants w user device nodes todo store).tables
  loop-delivers [] store g uniq i there open_ = absurd i
  loop-delivers (lead ∷ todo) store g uniq (inr i) there open_ =
      loop-delivers todo (turn lead store) g uniq.1 i (ap (elem g.id) (turn-ids lead store) ∙ there)
        open_
  loop-delivers (lead ∷ todo) store g uniq (inl e) there open_ =
      loop-Delivered todo (turn lead store) g.id (ground (arith, e, uniq.0)) (
        subst (λ (k : GrantRow). Delivered g.id (turn k store).tables) e
          (turn-Delivered g store there open_))
