-- ===== src/Orchestration/Subscriptions/Cancelling.antt =====
-- What a cancellation does to the grants and to the subscription.
use vpnplatform.Base.{
  ℕ, ◌≡◌, refl, ◌⊎◌, inl, inr, true, false, ◌&&◌, Option, none, some, Nodup, List, [], ◌∷◌, arith,
  ◌==◌, All, In, In-All, All-tabulate, map, filter, find, elem, subst, sym, ◌∙◌, ap, Bool-cases,
  filter-In, In-map, find-In, ==→eq, ==_refl, In→elem, elem-filter, any, any-In, if◌then◌else◌,
  All-map,
}
use vpnplatform.Base.Sort.{In-sort_by}
use vpnplatform.Orchestration.Table.{
  update_where, update_where-All, In-update_where_miss, find-update_where, In-key, elem-selected,
  map-update_where,
}
use vpnplatform.Orchestration.Database.{NodeRow, GrantRow}
use vpnplatform.Orchestration.Subscriptions.{
  SubscriptionRow, DeviceRow, Store, Keys, AccessWorld, requires_delivery, entitled_at,
  is_user_live, subscription_by_id, next_version, node_before, id_of, update_subscription,
}
use vpnplatform.Orchestration.Subscriptions.Cancellation.{
  cancelled, already_cancelled, CancelResult, cancellation_nodes, cancellation_grants, grant_order,
  revoke_grant, revoke_grant_at, cancel_on_node, cancel_on_nodes, mark_cancelled, cancel_locked,
  not_found, cancel_rows, cancel_subscription_access, is_cancelled,
}

abbrev pub node_id_of : NodeRow → ℕ
node_id_of n = n.id

-- What a round makes of a grant of its node.
abbrev revoked_on : ℕ → NodeRow → GrantRow → GrantRow
revoked_on now n =
    if requires_delivery n.status then revoke_grant_at now (next_version n) else revoke_grant now

abbrev of_node : NodeRow → List GrantRow → List GrantRow
of_node n grants = filter (λ (g : GrantRow). g.node_id == n.id) grants

-- The grants after a round, and the tables that it leaves alone.
record Round (now : ℕ) (n : NodeRow) (found : List GrantRow) (store next : Store) : Type 0 where
  grants :
      next.grants
      ≡ update_where (λ (g : GrantRow). elem g.id (map id_of found)) (revoked_on now n) store.grants
  devices : next.devices ≡ store.devices
  subscriptions : next.subscriptions ≡ store.subscriptions

no_ids :
    (f : GrantRow → GrantRow) (grants : List GrantRow) → grants ≡ update_where (λ g. false) f grants
no_ids f [] = refl
no_ids f (g ∷ grants) = ap (◌∷◌ g) (no_ids f grants)

cancel_on_node-Round :
    (keys : Keys) (w : AccessWorld) (s : SubscriptionRow) (n : NodeRow) (found : List GrantRow)
    (store : Store)
    → Round w.now n found store (cancel_on_node keys w s n found store)
cancel_on_node-Round keys w s n [] store = record {
  grants = no_ids (revoked_on w.now n) store.grants;
  devices = refl;
  subscriptions = refl;
}
cancel_on_node-Round keys w s n (lead ∷ rest) store =
    elim (Bool-cases (requires_delivery n.status)) [
      | inl y ↦ rw y (record { grants = rw y refl; devices = refl; subscriptions = refl })
      | inr m ↦ rw m (record { grants = rw m refl; devices = refl; subscriptions = refl })
    ]

-- A live grant of the user is one of those read, and the turn of its node is still to come.
abbrev Waiting : ℕ → List DeviceRow → List GrantRow → List NodeRow → GrantRow → Type 0
Waiting user devices found todo g =
    (is_user_live user devices g ≡ false)
    ⊎ (In g found × (elem g.node_id (map node_id_of todo) ≡ true))

not_live :
    (user now : ℕ) (devices : List DeviceRow) (n : NodeRow) (g : GrantRow)
    → is_user_live user devices (revoked_on now n g) ≡ false
not_live user now devices n g = ground arith

Waiting-step :
    (user : ℕ) (devices : List DeviceRow) (found : List GrantRow) (n : NodeRow)
    (todo : List NodeRow) (g : GrantRow)
    → Waiting user devices found (n ∷ todo) g
    → elem g.id (map id_of (of_node n found)) ≡ false
    → Waiting user devices found todo g
Waiting-step user devices found n todo g (inl dead) miss = inl dead
Waiting-step user devices found n todo g (inr (i, turn)) miss =
    elim (Bool-cases (g.node_id == n.id)) [
      | inl y ↦
          let mine = filter-In (λ (x : GrantRow). x.node_id == n.id) g found i y in
          let hit =
            In→elem g.id (map id_of (of_node n found)) (In-map id_of g (of_node n found) mine) in
          absurd (ground (arith, hit, miss))
      | inr m ↦ inr (i, ground (arith, turn, m))
    ]

module _ (keys : Keys) (w : AccessWorld) (s : SubscriptionRow) (user : ℕ)
    (found : List GrantRow) where
  round : NodeRow → Store → Store
  round n store = cancel_on_node keys w s n (of_node n found) store

  cancel_on_nodes-none_live :
      (todo : List NodeRow) (store : Store) (devices : List DeviceRow)
      → devices ≡ store.devices
      → All (Waiting user devices found todo) store.grants
      → All
          (λ g. is_user_live user devices g ≡ false)
          (cancel_on_nodes keys w s found todo store).grants
  cancel_on_nodes-none_live [] store devices same h =
      All-map (Waiting user devices found []) _ store.grants
        (λ g k. elim k [ inl dead ↦ dead | inr (i, turn) ↦ cc ]) h
  cancel_on_nodes-none_live (n ∷ todo) store devices same h =
      let mine = of_node n found in
      let r = cancel_on_node-Round keys w s n mine store in
      let next = cancel_on_node keys w s n mine store in
      cancel_on_nodes-none_live todo next devices (same ∙ sym r.devices) (
        subst (All (Waiting user devices found todo)) (sym r.grants) (
          update_where-All (Waiting user devices found todo)
            (λ (g : GrantRow). elem g.id (map id_of mine)) (revoked_on w.now n) store.grants
            (λ g i y. inl (not_live user w.now devices n g))
            (λ g i m.
              Waiting-step user devices found n todo g
                (In-All (Waiting user devices found (n ∷ todo)) g store.grants h i) m)))

  cancel_on_nodes-keeps :
      (todo : List NodeRow) (store : Store) (g : GrantRow)
      → In g store.grants
      → elem g.id (map id_of found) ≡ false
      → In g (cancel_on_nodes keys w s found todo store).grants
  cancel_on_nodes-keeps [] store g i other = i
  cancel_on_nodes-keeps (n ∷ todo) store g i other =
      let mine = of_node n found in
      let r = cancel_on_node-Round keys w s n mine store in
      let next = cancel_on_node keys w s n mine store in
      cancel_on_nodes-keeps todo next g
        (subst (In g) (sym r.grants) (
          In-update_where_miss (λ (x : GrantRow). elem x.id (map id_of mine)) (revoked_on w.now n) g
            store.grants i
            (elem-filter (λ (x : GrantRow). x.node_id == n.id) id_of g.id found other)))
        other

  cancel_on_nodes-ids :
      (todo : List NodeRow) (store : Store)
      → map id_of (cancel_on_nodes keys w s found todo store).grants ≡ map id_of store.grants
  cancel_on_nodes-ids [] store = refl
  cancel_on_nodes-ids (n ∷ todo) store =
      let mine = of_node n found in
      let r = cancel_on_node-Round keys w s n mine store in
      cancel_on_nodes-ids todo (cancel_on_node keys w s n mine store)
      ∙ ap (map id_of) r.grants
      ∙ map-update_where id_of (λ (x : GrantRow). elem x.id (map id_of mine)) (revoked_on w.now n)
          store.grants (λ g. ground arith)

  cancel_on_nodes-same :
      (todo : List NodeRow) (store : Store)
      → let next = cancel_on_nodes keys w s found todo store in
        (next.devices ≡ store.devices) × (next.subscriptions ≡ store.subscriptions)
  cancel_on_nodes-same [] store = (refl, refl)
  cancel_on_nodes-same (n ∷ todo) store =
      let r = cancel_on_node-Round keys w s n (of_node n found) store in
      let next = cancel_on_node keys w s n (of_node n found) store in
      let rest = cancel_on_nodes-same todo next in (rest.0 ∙ r.devices, rest.1 ∙ r.subscriptions)

-- The grants of the user that are live stand among those read, and their nodes among the nodes.
cancellation-Waiting :
    (user : ℕ) (store : Store) (g : GrantRow)
    → In g store.grants
    → elem g.node_id (map node_id_of store.nodes) ≡ true
    → Waiting user store.devices (cancellation_grants user store) (cancellation_nodes user store) g
cancellation-Waiting user store g i known =
    let live = is_user_live user store.devices in
    let has_live =
      λ (n : NodeRow). any (λ (x : GrantRow). (x.node_id == n.id) && live x) store.grants in
    elim (Bool-cases (live g)) [
      | inr dead ↦ inl dead
      | inl y ↦
          let (n, there, named) = In-key node_id_of g.node_id store.nodes known in
          let kept : has_live n ≡ true =
            any-In (λ (x : GrantRow). (x.node_id == n.id) && live x) g store.grants i
              (ground arith) in
          let chosen =
            (In-sort_by node_before n (filter has_live store.nodes)).1
              (filter-In has_live n store.nodes there kept) in
          inr (
            (In-sort_by grant_order g (filter live store.grants)).1
                (filter-In live g store.grants i y),
            subst (λ k. elem k (map node_id_of (cancellation_nodes user store)) ≡ true) named
                (In→elem n.id (map node_id_of (cancellation_nodes user store))
                  (In-map node_id_of n (cancellation_nodes user store) chosen)),
          )
    ]

-- The store after the cancellation of `s`, a subscription that gave an entitlement.
pub record Withdrawn (now : ℕ) (s : SubscriptionRow) (store next : Store) : Type 0 where
  pub row : subscription_by_id s.id next ≡ some (mark_cancelled now s)
  pub none_live : All (λ g. is_user_live s.user_id store.devices g ≡ false) next.grants
  pub others_kept :
      All (λ g. (is_user_live s.user_id store.devices g ≡ true) ⊎ In g next.grants) store.grants
  pub same_ids : map id_of next.grants ≡ map id_of store.grants
  pub same_devices : next.devices ≡ store.devices

cancel_rows-row :
    (keys : Keys) (w : AccessWorld) (s : SubscriptionRow) (nodes : List NodeRow)
    (grants : List GrantRow) (store : Store)
    → subscription_by_id s.id store ≡ some s
    → subscription_by_id s.id (cancel_rows keys w s nodes grants store)
      ≡ some (mark_cancelled w.now s)
cancel_rows-row keys w s nodes grants store found =
    let marked = update_subscription s.id (mark_cancelled w.now) store in
    let p = λ (x : SubscriptionRow). x.id == s.id in
    ap (find p) (cancel_on_nodes-same keys w s s.user_id grants nodes marked).1
    ∙ find-update_where p p (mark_cancelled w.now) s store.subscriptions (λ r. refl) found
    ∙ rw (==_refl s.id) refl

named_row :
    (id : ℕ) (s : SubscriptionRow) (store : Store)
    → subscription_by_id id store ≡ some s
    → (s.id ≡ id) × (subscription_by_id s.id store ≡ some s)
named_row id s store found =
    let p = λ (x : SubscriptionRow). x.id == id in
    let named : s.id ≡ id = ==→eq s.id id (find-In p s store.subscriptions found).1 in
    (named, subst (λ k. subscription_by_id k store ≡ some s) (sym named) found)

-- A cancellation of a subscription that gives an entitlement at the time, where the grants have
-- different ids and their nodes exist: the subscription is CANCELLED at that time; none of the
-- grants on devices of its user is live; every other grant is kept as it was; and no grant
-- appears or disappears.
pub cancel_withdraws_access :
    (keys : Keys) (w : AccessWorld) (s : SubscriptionRow) (id : ℕ) (store : Store)
    → Nodup (map id_of store.grants)
    → All (λ (g : GrantRow). elem g.node_id (map node_id_of store.nodes) ≡ true) store.grants
    → subscription_by_id id store ≡ some s
    → entitled_at w.now s ≡ true
    → (next : Store) × (cancel_subscription_access keys w id store ≡ (cancelled, next))
      × Withdrawn w.now s store next
unfolding cancel_subscription_access
cancel_withdraws_access keys w s id store uniq known found entitled =
    let open_ : is_cancelled s.status ≡ false = ground arith in
    let user = s.user_id in
    let nodes = cancellation_nodes user store in
    let grants = cancellation_grants user store in
    let marked = update_subscription s.id (mark_cancelled w.now) store in
    (
      cancel_rows keys w s nodes grants store,
      ap (λ o. cancel_locked keys w o store) found ∙ rw (open_, entitled) refl,
      record {
        row = cancel_rows-row keys w s nodes grants store (named_row id s store found).1;
        none_live = cancel_on_nodes-none_live keys w s user grants nodes marked store.devices refl (
            All-tabulate _ store.grants (λ g i. cancellation-Waiting user store g i (
              In-All (λ (x : GrantRow). elem x.node_id (map node_id_of store.nodes) ≡ true) g
                store.grants known i)));
        others_kept = All-tabulate _ store.grants (λ g i.
            elim (Bool-cases (is_user_live user store.devices g)) [
              | inl live ↦ inl live
              | inr dead ↦ inr (
                  cancel_on_nodes-keeps keys w s user grants nodes marked g i (
                    elem-selected id_of grant_order (is_user_live user store.devices) g store.grants
                      uniq i
                    ∙ dead))
            ]);
        same_ids = cancel_on_nodes-ids keys w s user grants nodes marked;
        same_devices = (cancel_on_nodes-same keys w s user grants nodes marked).0;
      },
    )

-- What a second call answers after a first one.
abbrev Final : Keys → AccessWorld → ℕ → CancelResult × Store → Type 0
Final keys w id (cancelled, next) =
    cancel_subscription_access keys w id next ≡ (already_cancelled, next)
Final keys w id (already_cancelled, next) = Unit
Final keys w id (not_found, next) = Unit

cancel_rows-Final :
    (keys : Keys) (w w2 : AccessWorld) (id : ℕ) (s : SubscriptionRow) (nodes : List NodeRow)
    (grants : List GrantRow) (store : Store)
    → subscription_by_id id store ≡ some s
    → Final keys w2 id (cancelled, cancel_rows keys w s nodes grants store)
unfolding cancel_subscription_access
cancel_rows-Final keys w w2 id s nodes grants store found =
    let (named, row) = named_row id s store found in
    let next = cancel_rows keys w s nodes grants store in
    ap (λ o. cancel_locked keys w2 o next)
      (subst (λ k. subscription_by_id k next ≡ some (mark_cancelled w.now s)) named
        (cancel_rows-row keys w s nodes grants store row))

cancel_locked-Final :
    (keys : Keys) (w w2 : AccessWorld) (id : ℕ) (o : Option SubscriptionRow) (store : Store)
    → subscription_by_id id store ≡ o
    → Final keys w2 id (cancel_locked keys w o store)
cancel_locked-Final keys w w2 id none store found = tt
cancel_locked-Final keys w w2 id (some s) store found = elim (Bool-cases (is_cancelled s.status)) [
  | inl y ↦ rw y tt
  | inr n ↦ rw n (elim (Bool-cases (entitled_at w.now s)) [
    | inl e ↦ rw e (
        cancel_rows-Final keys w w2 id s (cancellation_nodes s.user_id store)
          (cancellation_grants s.user_id store) store found)
    | inr l ↦ rw l (cancel_rows-Final keys w w2 id s [] [] store found)
  ])
]

-- A cancellation is final: whatever it did, once it has answered `cancelled`, cancelling the
-- same subscription at any later time answers `already-cancelled` and changes nothing.
pub cancel_final :
    (keys : Keys) (w w2 : AccessWorld) (id : ℕ) (store next : Store)
    → cancel_subscription_access keys w id store ≡ (cancelled, next)
    → cancel_subscription_access keys w2 id next ≡ (already_cancelled, next)
unfolding cancel_subscription_access
cancel_final keys w w2 id store next h =
    subst (Final keys w2 id) h
      (cancel_locked-Final keys w w2 id (subscription_by_id id store) store refl)
