-- ===== src/Orchestration/Subscriptions/Batches.antt =====
-- What a batch of expired subscriptions achieves, whatever fails in it.
use vpnplatform.Base.{
  ℕ, ◌≤◌, ◌≡◌, refl, ◌⊎◌, inl, inr, Bool, true, ◌||◌, if_intro, false, ◌&&◌, Option, none, some,
  List, [], ◌∷◌, arith, Nodup, ltb, ◌==◌, All, In, In-All, All-tabulate, All-map, map, find-In,
  find-none, Bool-cases, sym, ◌∙◌, subst, filter, In-filter, map-In,
}
use vpnplatform.Base.Sort.{In-sort_by}
use vpnplatform.Orchestration.Table.{update_where-All, In-unique}
use vpnplatform.Orchestration.Outbox.{after}
use vpnplatform.Orchestration.Database.{NodeRow, GrantRow}
use vpnplatform.Orchestration.Subscriptions.{
  SubscriptionRow, Store, Keys, Tx, committed, rolled_back, AccessWorld,
}
use vpnplatform.Orchestration.Subscriptions.Expiry.{
  is_dated_active, dated_active_subscription, dated_subscription, deliverable_node, mark_expired,
  materialize_locked, materialize_expired_subscription_status, Matching, absent, matching,
  inconsistent, schedule_matching, schedule_grants, schedule_locked, expiring_grants,
  schedule_expired_subscription_on_node,
}
use vpnplatform.Orchestration.Subscriptions.Maintenance.{
  MaintenanceWorld, CandidateRun, BatchRun, after_schedule, unless_failed, schedule_on_nodes,
  materialize_candidate, materialize_each, materialize_expired_subscriptions, expired_candidates,
  is_expired_candidate, no_work, schedule_candidate, find_pending_expiry_nodes,
}
use vpnplatform.Orchestration.Subscriptions.Unobservable.{subscription_id}
use vpnplatform.Orchestration.Subscriptions.Paging.{find_candidates, find_candidates-In}

-- A transaction that commits leaves the subscriptions alone.
abbrev Keeps : List SubscriptionRow → Tx Bool → Type 0
Keeps rows (committed _ next) = next.subscriptions ≡ rows
Keeps rows (rolled_back _) = Unit

schedule_matching-Keeps :
    (keys : Keys) (w : AccessWorld) (s : SubscriptionRow) (n : NodeRow) (lead : GrantRow)
    (rest : List GrantRow) (m : Matching) (store : Store)
    → Keeps store.subscriptions (schedule_matching keys w s n lead rest m store)
schedule_matching-Keeps keys w s n lead rest absent store = refl
schedule_matching-Keeps keys w s n lead rest matching store = refl
schedule_matching-Keeps keys w s n lead rest inconsistent store = tt

schedule_grants-Keeps :
    (keys : Keys) (w : AccessWorld) (s : SubscriptionRow) (n : NodeRow) (found : List GrantRow)
    (store : Store)
    → Keeps store.subscriptions (schedule_grants keys w s n found store)
schedule_grants-Keeps keys w s n [] store = refl
schedule_grants-Keeps keys w s n (lead ∷ rest) store =
    schedule_matching-Keeps keys w s n lead rest _ store

schedule_locked-Keeps :
    (keys : Keys) (w : AccessWorld) (os : Option SubscriptionRow) (on : Option NodeRow)
    (store : Store)
    → Keeps store.subscriptions (schedule_locked keys w os on store)
schedule_locked-Keeps keys w none on store = refl
schedule_locked-Keeps keys w (some s) none store = refl
schedule_locked-Keeps keys w (some s) (some n) store =
    elim (Bool-cases (after s.expires_at w.now)) [
      | inl y ↦ rw y refl
      | inr past ↦
          rw past (schedule_grants-Keeps keys w s n (expiring_grants s.user_id n.id store) store)
    ]

unless_failed-Keeps :
    (rows : List SubscriptionRow) (failed : Bool) (tx : Tx Bool)
    → Keeps rows tx
    → Keeps rows (unless_failed failed tx)
unless_failed-Keeps rows true tx h = tt
unless_failed-Keeps rows false tx h = h

after_schedule-same :
    (tx : Tx Bool) (run : CandidateRun)
    → Keeps run.store.subscriptions tx
    → (after_schedule tx run).store.subscriptions ≡ run.store.subscriptions
after_schedule-same (committed _ next) run h = h
after_schedule-same (rolled_back _) run h = refl

schedule_on_nodes-same :
    (keys : Keys) (w : MaintenanceWorld) (subscription : ℕ) (nodes : List ℕ) (run : CandidateRun)
    → (schedule_on_nodes keys w subscription nodes run).store.subscriptions
      ≡ run.store.subscriptions
unfolding schedule_expired_subscription_on_node
schedule_on_nodes-same keys w subscription [] run = refl
schedule_on_nodes-same keys w subscription (node ∷ nodes) run =
    let failed = w.scheduling_throws subscription node in
    let tx =
      schedule_expired_subscription_on_node keys (w.on_node subscription node) subscription node
        run.store in
    schedule_on_nodes-same keys w subscription nodes (after_schedule (unless_failed failed tx) run)
    ∙ after_schedule-same (unless_failed failed tx) run (
        unless_failed-Keeps run.store.subscriptions failed tx (
          schedule_locked-Keeps keys (w.on_node subscription node)
            (dated_subscription subscription run.store) (deliverable_node node run.store)
            run.store))

-- No row of the id is ACTIVE with a date.
abbrev pub Settled : ℕ → List SubscriptionRow → Type 0
Settled id rows = All (λ s. is_dated_active id s ≡ false) rows

-- The dates of the rows of the id that are ACTIVE have passed at the time.
abbrev Past : ℕ → ℕ → List SubscriptionRow → Type 0
Past id now rows = All (λ s. is_dated_active id s && after s.expires_at now ≡ false) rows

-- Storing an expiry keeps a predicate that `mark_expired` keeps.
materialize_locked-All :
    (P : SubscriptionRow → Type 0) (now : ℕ) (o : Option SubscriptionRow) (store : Store)
    → ((s : SubscriptionRow) → P s → P (mark_expired s))
    → All P store.subscriptions
    → All P (materialize_locked now o store).1.subscriptions
materialize_locked-All P now none store keep h = h
materialize_locked-All P now (some s) store keep h = elim (Bool-cases (after s.expires_at now)) [
  | inl y ↦ rw y h
  | inr past ↦ rw past (
      update_where-All P (λ (r : SubscriptionRow). r.id == s.id) mark_expired store.subscriptions
        (λ r i y. keep r (In-All P r store.subscriptions h i))
        (λ r i n. In-All P r store.subscriptions h i))
]

materialize_locked-Settled :
    (id now : ℕ) (o : Option SubscriptionRow) (store : Store)
    → dated_active_subscription id store ≡ o
    → Past id now store.subscriptions
    → Settled id (materialize_locked now o store).1.subscriptions
materialize_locked-Settled id now none store found past =
    All-tabulate _ store.subscriptions
      (λ s i. find-none (is_dated_active id) s store.subscriptions found i)
materialize_locked-Settled id now (some s) store found past =
    let (there, dated) = find-In (is_dated_active id) s store.subscriptions found in
    let over : after s.expires_at now ≡ false = ground (
      arith,
      dated,
      In-All (λ (r : SubscriptionRow). is_dated_active id r && after r.expires_at now ≡ false) s
          store.subscriptions past there,
    ) in
    rw over (
      update_where-All (λ (r : SubscriptionRow). is_dated_active id r ≡ false)
        (λ (r : SubscriptionRow). r.id == s.id) mark_expired store.subscriptions
        (λ r i y. ground arith) (λ r i n. ground (arith, dated)))

-- The query of the nodes or the transaction on the status throws.
abbrev pub candidate_throws : MaintenanceWorld → ℕ → Bool
candidate_throws w id = w.listing_throws id || w.storing_throws id

-- The candidate is settled, or its own query or transaction threw and is counted.
abbrev pub SettledOrCounted : MaintenanceWorld → ℕ → BatchRun → Type 0
SettledOrCounted w id run =
    Settled id run.store.subscriptions ⊎ ((candidate_throws w id ≡ true) × (1 ≤ run.result.failed))

module _ (keys : Keys) (w : MaintenanceWorld) where
  schedule_candidate-same :
      (subscription : ℕ) (store : Store)
      → (schedule_candidate keys w subscription store).store.subscriptions ≡ store.subscriptions
  schedule_candidate-same subscription store =
      schedule_on_nodes-same keys w subscription
        (find_pending_expiry_nodes keys (w.nodes_at subscription) subscription store)
        (record { changed = false; failed = 0; store = store })

  candidate-All :
      (P : SubscriptionRow → Type 0) (subscription : ℕ) (run : BatchRun)
      → ((s : SubscriptionRow) → P s → P (mark_expired s))
      → All P run.store.subscriptions
      → All P (materialize_candidate keys w subscription run).store.subscriptions
  unfolding materialize_expired_subscription_status
  candidate-All P subscription run keep h =
      let scheduled = schedule_candidate keys w subscription run.store in
      let same = schedule_candidate-same subscription run.store in
      let kept : All P scheduled.store.subscriptions = subst (All P) (sym same) h in
      let Q = λ (r : BatchRun). All P r.store.subscriptions in
      if_intro Q (w.listing_throws subscription) _ _ (λ y. h)
        (λ n.
          if_intro Q (w.storing_throws subscription) _ _ (λ y. kept)
            (λ m.
              materialize_locked-All P (w.stored_at subscription)
                (dated_active_subscription subscription scheduled.store) scheduled.store keep kept))

  candidate-SettledOrCounted :
      (id : ℕ) (run : BatchRun)
      → Past id (w.stored_at id) run.store.subscriptions
      → SettledOrCounted w id (materialize_candidate keys w id run)
  unfolding materialize_expired_subscription_status
  candidate-SettledOrCounted id run past =
      let scheduled = schedule_candidate keys w id run.store in
      let same = schedule_candidate-same id run.store in
      let Q = SettledOrCounted w id in
      if_intro Q (w.listing_throws id) _ _ (λ y. inr (ground (arith, y), omega arith))
        (λ n.
          if_intro Q (w.storing_throws id) _ _ (λ y. inr (ground (arith, y), omega arith))
            (λ m. inl (
              materialize_locked-Settled id (w.stored_at id)
                (dated_active_subscription id scheduled.store) scheduled.store refl
                (subst (Past id (w.stored_at id)) (sym same) past))))

  candidate-failed :
      (id : ℕ) (run : BatchRun)
      → run.result.failed ≤ (materialize_candidate keys w id run).result.failed
  candidate-failed id run =
      let Q = λ (r : BatchRun). run.result.failed ≤ r.result.failed in
      if_intro Q (w.listing_throws id) _ _ (λ y. omega arith)
        (λ n. if_intro Q (w.storing_throws id) _ _ (λ y. omega arith) (λ m. omega arith))

  -- What is settled or counted stays so.
  candidate-keeps :
      (k id : ℕ) (run : BatchRun)
      → SettledOrCounted w k run
      → SettledOrCounted w k (materialize_candidate keys w id run)
  candidate-keeps k id run (inl settled) =
      inl (candidate-All (λ s. is_dated_active k s ≡ false) id run (λ s h. ground arith) settled)
  candidate-keeps k id run (inr (threw, counted)) =
      inr (threw, omega (arith, counted, candidate-failed id run))

  materialize_each-keeps :
      (k : ℕ) (ids : List ℕ) (run : BatchRun)
      → SettledOrCounted w k run
      → SettledOrCounted w k (materialize_each keys w ids run)
  materialize_each-keeps k [] run h = h
  materialize_each-keeps k (id ∷ ids) run h =
      materialize_each-keeps k ids (materialize_candidate keys w id run)
        (candidate-keeps k id run h)

  materialize_each-SettledOrCounted :
      (ids : List ℕ) (run : BatchRun)
      → All (λ id. Past id (w.stored_at id) run.store.subscriptions) ids
      → All (λ id. SettledOrCounted w id (materialize_each keys w ids run)) ids
  materialize_each-SettledOrCounted [] run past = tt
  materialize_each-SettledOrCounted (id ∷ ids) run past =
      let next = materialize_candidate keys w id run in
      (
        materialize_each-keeps id ids next (candidate-SettledOrCounted id run past.0),
        materialize_each-SettledOrCounted ids next (
            All-map (λ k. Past k (w.stored_at k) run.store.subscriptions) _ ids
              (λ k h.
                candidate-All
                  (λ s. is_dated_active k s && after s.expires_at (w.stored_at k) ≡ false) id run
                  (λ s old. ground arith) h)
              past.1),
      )

-- A candidate's row, where ids differ, has a date that has passed.
candidate-Past :
    (keys : Keys) (listed stored id : ℕ) (store : Store)
    → Nodup (map subscription_id store.subscriptions)
    → listed ≤ stored
    → In id (expired_candidates keys listed store)
    → Past id stored store.subscriptions
unfolding expired_candidates
candidate-Past keys listed stored id store uniq order i =
    let p = is_expired_candidate keys listed store in
    let (r, j, named) =
      map-In subscription_id id (filter p store.subscriptions)
        ((In-sort_by ltb id (map subscription_id (filter p store.subscriptions))).0 i) in
    let (there, fits) = In-filter p r store.subscriptions j in
    All-tabulate _ store.subscriptions (λ s k. elim (Bool-cases (is_dated_active id s)) [
      | inr n ↦ rw n refl
      | inl y ↦
          let one : s ≡ r =
            In-unique subscription_id s r store.subscriptions uniq k there (ground arith) in
          let over : after r.expires_at stored ≡ false = ground (arith, fits) in
          rw y (subst (λ x. after x.expires_at stored ≡ false) (sym one) over)
    ])

-- A batch, where subscriptions have different ids and each transaction comes after the query, and
-- whichever of the queries and transactions in its loops throw: of each subscription in the batch's
-- page, no ACTIVE row with a date is left, unless the query of that subscription's nodes or the
-- transaction on its status threw, and then the batch counts a failure.
pub batch-SettledOrCounted :
    (keys : Keys) (w : MaintenanceWorld) (limit : ℕ) (cursor : Option ℕ) (store : Store)
    → Nodup (map subscription_id store.subscriptions)
    → ((id : ℕ) → w.listed_at ≤ w.stored_at id)
    → All
        (λ id.
          SettledOrCounted w id (materialize_expired_subscriptions keys w limit cursor store).0)
        (find_candidates limit cursor (expired_candidates keys w.listed_at store)).0
unfolding materialize_expired_subscriptions
batch-SettledOrCounted keys w limit cursor store uniq order =
    let ids = expired_candidates keys w.listed_at store in
    let page = (find_candidates limit cursor ids).0 in
    materialize_each-SettledOrCounted keys w page (no_work store) (
      All-tabulate _ page (λ id i.
        candidate-Past keys w.listed_at (w.stored_at id) id store uniq (order id)
          (find_candidates-In limit cursor ids id i)))
