-- ===== src/Orchestration/Devices/Revoking.antt =====
-- What the revocation of a device leaves.
use vpnplatform.Base.{
  ℕ, ◌≡◌, refl, ap, ◌∙◌, ◌⊎◌, inl, inr, true, false, some, Nodup, arith, ◌==◌, All, In,
  All-tabulate, map, filter, elem, find, Bool-cases, filter-In, In-map, In→elem, find-In,
  Nodup-filter,
}
use vpnplatform.Base.Sort.{In-sort_by, Nodup-sort_by}
use vpnplatform.Orchestration.Table.{find-update_where, elem-selected}
use vpnplatform.Orchestration.Database.{GrantRow}
use vpnplatform.Orchestration.Subscriptions.{DeviceRow, Store, id_of}
use vpnplatform.Orchestration.Subscriptions.Cancellation.{grant_order}
use vpnplatform.Orchestration.Devices.{
  revoked, already_revoked, DeviceWorld, DeviceStore, is_device_of, is_revoked_device,
  is_device_live, device_grants, locked_nodes, locked_node, revoke_device_row, revoke_rows,
  update_device, revoke_device_access,
}
use vpnplatform.Orchestration.Devices.Turns.{
  delivered_to, Delivered, loop-ids, loop-devices, loop-keeps, loop-none_live, loop-delivers,
}

-- The store after the revocation of a device.
pub record DeviceWithdrawn (now user device : ℕ) (d : DeviceRow) (store next : Store) : Type 0 where
  pub row : find (is_device_of user device) next.devices ≡ some (revoke_device_row now d)
  pub none_live : All (λ g. is_device_live device g ≡ false) next.grants
  pub others_kept : All (λ g. (is_device_live device g ≡ true) ⊎ In g next.grants) store.grants
  pub same_ids : map id_of next.grants ≡ map id_of store.grants
  pub delivered :
      All
        (λ g.
          (is_device_live device g ≡ false)
          ⊎ (delivered_to (locked_node g.node_id (locked_nodes device store)) ≡ false)
          ⊎ Delivered g.id next)
        store.grants

module _ (w : DeviceWorld) (user device : ℕ) where
  abbrev after_rows : DeviceStore → Store
  after_rows store = (revoke_rows w user device store).tables

  read_ids :
      (store : Store) (g : GrantRow)
      → Nodup (map id_of store.grants)
      → In g store.grants
      → elem g.id (map id_of (device_grants device store)) ≡ is_device_live device g
  read_ids store g uniq i =
      elem-selected id_of grant_order (is_device_live device) g store.grants uniq i

  nothing_due :
      (store : Store)
      → Nodup (map id_of store.grants)
      → All
          (λ x.
            (is_device_live device x ≡ false)
            ⊎ (elem x.id (map id_of (device_grants device store)) ≡ true))
          store.grants
  nothing_due store uniq = All-tabulate _ store.grants (λ g i.
      elim (Bool-cases (is_device_live device g)) [
        | inl y ↦ inr (read_ids store g uniq i ∙ y)
        | inr n ↦ inl n
      ])

  others :
      (store : DeviceStore)
      → Nodup (map id_of store.tables.grants)
      → All
          (λ g. (is_device_live device g ≡ true) ⊎ In g (after_rows store).grants)
          store.tables.grants
  others store uniq = All-tabulate _ store.tables.grants (λ g i.
      elim (Bool-cases (is_device_live device g)) [
        | inl y ↦ inl y
        | inr n ↦ inr (
            loop-keeps w user device (locked_nodes device store.tables)
              (device_grants device store.tables)
              (record store { tables = update_device w.now device store.tables }) g i
              (read_ids store.tables g uniq i ∙ n))
      ])

  live_delivered :
      (store : DeviceStore)
      → Nodup (map id_of store.tables.grants)
      → All
          (λ g.
            (is_device_live device g ≡ false)
            ⊎ (delivered_to (locked_node g.node_id (locked_nodes device store.tables)) ≡ false)
            ⊎ Delivered g.id (after_rows store))
          store.tables.grants
  live_delivered store uniq =
      let nodes = locked_nodes device store.tables in
      let todo = device_grants device store.tables in
      let p = is_device_live device in
      All-tabulate _ store.tables.grants (λ g i. elim (Bool-cases (p g)) [
        | inr n ↦ inl n
        | inl y ↦ elim (Bool-cases (delivered_to (locked_node g.node_id nodes))) [
          | inr quiet ↦ inr (inl quiet)
          | inl open_ ↦ inr (
              inr (
                loop-delivers w user device nodes todo
                  (record store { tables = update_device w.now device store.tables }) g
                  (Nodup-sort_by grant_order id_of (filter p store.tables.grants)
                    (Nodup-filter p id_of store.tables.grants uniq))
                  ((In-sort_by grant_order g (filter p store.tables.grants)).1
                    (filter-In p g store.tables.grants i y))
                  (In→elem g.id (map id_of store.tables.grants)
                    (In-map id_of g store.tables.grants i))
                  open_))
        ]
      ])

  revoke_rows-DeviceWithdrawn :
      (d : DeviceRow) (store : DeviceStore)
      → Nodup (map id_of store.tables.grants)
      → find (is_device_of user device) store.tables.devices ≡ some d
      → DeviceWithdrawn w.now user device d store.tables (after_rows store)
  revoke_rows-DeviceWithdrawn d store uniq found =
      let nodes = locked_nodes device store.tables in
      let todo = device_grants device store.tables in
      let marked : DeviceStore = record store {
        tables = update_device w.now device store.tables;
      } in
      let p = is_device_of user device in
      let own : p d ≡ true = (find-In p d store.tables.devices found).1 in
      let hit : (d.id == device) ≡ true = ground arith in
      record {
        row =
            ap (find p) (loop-devices w user device nodes todo marked)
            ∙ find-update_where p (λ (x : DeviceRow). x.id == device) (revoke_device_row w.now) d
                store.tables.devices (λ r. refl) found
            ∙ rw hit refl;
        none_live = loop-none_live w user device nodes todo marked (nothing_due store.tables uniq);
        others_kept = others store uniq;
        same_ids = loop-ids w user device nodes todo marked;
        delivered = live_delivered store uniq;
      }

  -- A second call finds the device revoked.
  again :
      (w2 : DeviceWorld) (d : DeviceRow) (store : DeviceStore)
      → find (is_device_of user device) store.tables.devices ≡ some (revoke_device_row w.now d)
      → revoke_device_access w2 user device store ≡ (already_revoked, store)
  unfolding revoke_device_access
  again w2 d store found = rw found refl

-- The revocation of a device that the user has and that is not revoked, where the grants have
-- different ids: the device is REVOKED; none of its grants is live; every other grant is kept; no
-- grant appears or disappears; each grant that was live, on a node that takes deliveries, has a job
-- and an event for the version of its row; and a second revocation, at any time, answers
-- `already-revoked` and changes nothing.
pub revoke_device_withdraws :
    (w w2 : DeviceWorld) (user device : ℕ) (d : DeviceRow) (store : DeviceStore)
    → Nodup (map id_of store.tables.grants)
    → find (is_device_of user device) store.tables.devices ≡ some d
    → is_revoked_device d.status ≡ false
    → (next : DeviceStore) × (revoke_device_access w user device store ≡ (revoked, next))
      × DeviceWithdrawn w.now user device d store.tables next.tables
      × (revoke_device_access w2 user device next ≡ (already_revoked, next))
unfolding revoke_device_access
revoke_device_withdraws w w2 user device d store uniq found open_ =
    let next = revoke_rows w user device store in
    let done = revoke_rows-DeviceWithdrawn w user device d store uniq found in
    (next, rw found (rw open_ refl), done, again w user device w2 d next done.row)
