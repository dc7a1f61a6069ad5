-- ===== src/Orchestration/Subscriptions/Expiring.antt =====
-- What the expiry of a subscription does to the grants of a node, and what its stored status shows.
use vpnplatform.Base.{
  ℕ, ◌≤◌, ◌≡◌, refl, ◌⊎◌, inl, inr, Bool, true, false, ◌&&◌, some, List, [], ◌∷◌, arith, ltb, All,
  In, All-tabulate, map, filter, subst, sym, Bool-cases, In-filter, filter-In, if◌then◌else◌,
  get_or,
}
use vpnplatform.Base.Sort.{In-sort_by, sort_by, sort_by-head-Least}
use vpnplatform.Orchestration.Database.{NodeRow}
use vpnplatform.Orchestration.Outbox.{after}
use vpnplatform.Orchestration.Subscriptions.{
  SubscriptionRow, Store, Keys, AccessWorld, Tx, committed, rolled_back, id_of, NodeSyncOperation,
  operation_job, operation_event, next_version,
}
use vpnplatform.Orchestration.Subscriptions.Expiry.{
  dated_subscription, deliverable_node, gives_entitlement, expires_later, first_expiry,
  find_effective_expiry, is_live_on, set_expiry,
}

-- The user's entitled subscription that expires last.
pub record Replacement (user now expiry : ℕ) (store : Store) : Type 0 where
  pub row : SubscriptionRow
  pub there : In row store.subscriptions
  pub gives : gives_entitlement user now row ≡ true
  pub date : row.expires_at ≡ some expiry
  pub longest :
      All
        (λ s. gives_entitlement user now s && ltb expiry (get_or s.expires_at 0) ≡ false)
        store.subscriptions

abbrev entitled_rows : ℕ → ℕ → Store → List SubscriptionRow
entitled_rows user now store =
    sort_by expires_later (filter (gives_entitlement user now) store.subscriptions)

first_expiry-Replacement :
    (user now expiry : ℕ) (store : Store) (rows : List SubscriptionRow)
    → entitled_rows user now store ≡ rows
    → first_expiry rows ≡ some expiry
    → Replacement user now expiry store
first_expiry-Replacement user now expiry store [] e h = cc
first_expiry-Replacement user now expiry store (s ∷ rest) e h =
    let p = gives_entitlement user now in
    let least =
      sort_by-head-Least expires_later (λ a. ground arith) (λ a b c x y. ground arith)
        (λ a b x. ground arith) s rest (filter p store.subscriptions) e in
    let (i, y) = In-filter p s store.subscriptions (
      (In-sort_by expires_later s (filter p store.subscriptions)).0
        (subst (In s) (sym e) (inl refl))) in
    record {
      row = s;
      there = i;
      gives = y;
      date = h;
      longest = All-tabulate _ store.subscriptions (λ r j. elim (Bool-cases (p r)) [
        | inl fits ↦
            let first = least r (filter-In p r store.subscriptions j fits) in rw fits (ground arith)
        | inr n ↦ rw n refl
      ]);
    }

pub effective_expiry-Replacement :
    (user now expiry : ℕ) (store : Store)
    → find_effective_expiry user now store ≡ some expiry
    → Replacement user now expiry store
effective_expiry-Replacement user now expiry store h =
    first_expiry-Replacement user now expiry store (entitled_rows user now store) refl h

-- No subscription of the user gives an entitlement.
abbrev pub NoEntitlement : ℕ → ℕ → Store → Type 0
NoEntitlement user now store = All (λ r. gives_entitlement user now r ≡ false) store.subscriptions

-- The date of the subscription has passed.
abbrev Over : ℕ → SubscriptionRow → Type 0
Over now s = (at : ℕ) × (s.expires_at ≡ some at) × (at ≤ now)

-- The new date of the grants: the end of the longest entitlement that the user still has, or else,
-- where no entitlement is left, the date of the subscription, which has passed.
abbrev pub Justified : ℕ → SubscriptionRow → ℕ → Store → Type 0
Justified now s expiry store =
    Replacement s.user_id now expiry store
    ⊎ (NoEntitlement s.user_id now store × (s.expires_at ≡ some expiry) × (expiry ≤ now))

-- The store after an expiry was scheduled on a node.
pub record Rescheduled (keys : Keys) (w : AccessWorld) (s : SubscriptionRow) (n : NodeRow)
    (store next : Store) : Type 0 where
  pub expiry : ℕ
  pub justified : Justified w.now s expiry store
  pub grants_kept :
      All
        (λ g.
          In
            (if is_live_on s.user_id n.id store g then set_expiry expiry (next_version n) g else g)
            next.grants)
        store.grants
  pub same_ids : map id_of next.grants ≡ map id_of store.grants
  pub input : NodeSyncOperation
  pub for_node : (input.node_id ≡ n.id) × (input.target_version ≡ next_version n)
  pub job : In (operation_job w input) next.jobs
  pub event : In (operation_event w input) next.events

abbrev IsRescheduled : Keys → AccessWorld → SubscriptionRow → NodeRow → Store → Tx Bool → Type 0
IsRescheduled keys w s n store (rolled_back _) = Unit
IsRescheduled keys w s n store (committed false next) = next ≡ store
IsRescheduled keys w s n store (committed true next) = Rescheduled keys w s n store next

-- What a call to schedule an expiry leaves behind.
abbrev ScheduleEnds : Keys → AccessWorld → ℕ → ℕ → Store → Tx Bool → Type 0
ScheduleEnds keys w subscription node store (rolled_back _) = Unit
ScheduleEnds keys w subscription node store (committed false next) = next ≡ store
ScheduleEnds keys w subscription node store (committed true next) =
    (s : SubscriptionRow) × (n : NodeRow) × (dated_subscription subscription store ≡ some s)
    × (deliverable_node node store ≡ some n)
    × (after s.expires_at w.now ≡ false)
    × Rescheduled keys w s n store next
