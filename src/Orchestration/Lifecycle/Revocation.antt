-- ===== src/Orchestration/Lifecycle/Revocation.antt =====
-- What a quarantine does to the grants of its node, and the job that it leaves for the worker.
use vpnplatform.Base.{
  ℕ, ◌+◌, ◌≡◌, refl, ◌⊎◌, inl, inr, true, false, some, List, [], ◌∷◌, arith, ◌==◌, All, In, In-All,
  All-tabulate, subst, sym, ◌∙◌, Bool-cases, if◌then◌else◌, elem, map, Nodup,
}
use vpnplatform.Access.{quarantined}
use vpnplatform.Orchestration.Table.{
  update_where, In-update_where_hit, In-update_where_miss, update_where-All, elem-selected,
}
use vpnplatform.Orchestration.Database.{NodeRow, GrantRow}
use vpnplatform.Orchestration.Lifecycle.Quarantine.{find-update, KeysFree}
use vpnplatform.Orchestration.Lifecycle.{Store, Tx, committed, node_by_id, with_status}
use vpnplatform.Orchestration.Lifecycle.Isolation.{
  QuarantineNodeInput, QuarantineNodeResult, QuarantineWorld, is_quarantined,
  is_node_eligible_for_emergency_quarantine, is_revoked, is_live_grant_of, live_grants, revoke,
  revoke_each, isolate, revoke_all, quarantine, grant_before,
}

abbrev pub grant_id : GrantRow → ℕ
grant_id grant = grant.id

-- A grant of the node is revoked already, or its turn in the loop is still to come.
abbrev Covered : ℕ → List GrantRow → GrantRow → Type 0
Covered node todo grant =
    grant.node_id ≡ node
    → (is_revoked grant.status ≡ true) ⊎ (elem grant.id (map grant_id todo) ≡ true)

revoke_each-Covered :
    (now version node : ℕ) (todo grants : List GrantRow)
    → All (Covered node todo) grants
    → All
        (λ (g : GrantRow). g.node_id ≡ node → is_revoked g.status ≡ true)
        (revoke_each now version todo grants)
revoke_each-Covered now version node [] grants h =
    All-tabulate _ grants
      λ g i same. elim (In-All (Covered node []) g grants h i same) [ inl r ↦ r | inr gone ↦ cc ]
revoke_each-Covered now version node (t ∷ todo) grants h =
    revoke_each-Covered now version node todo
      (update_where (λ (g : GrantRow). g.id == t.id) (revoke now version) grants)
      (update_where-All (Covered node todo) (λ (g : GrantRow). g.id == t.id) (revoke now version)
        grants (λ g i y same. inl refl)
        (λ g i n same. elim (In-All (Covered node (t ∷ todo)) g grants h i same) [
          | inl r ↦ inl r
          | inr e ↦ inr (ground arith)
        ]))

-- Each grant stands in the result, revoked if the loop comes to its id.
pub revoke_each-In :
    (now version : ℕ) (g : GrantRow) (todo grants : List GrantRow)
    → In g grants
    → In
        (if elem g.id (map grant_id todo) then revoke now version g else g)
        (revoke_each now version todo grants)
revoke_each-In now version g [] grants i = i
revoke_each-In now version g (t ∷ todo) grants i =
    let p = λ (x : GrantRow). x.id == t.id in
    let step = update_where p (revoke now version) grants in
    elim (Bool-cases (g.id == t.id)) [
      | inl y ↦
          let rest =
            revoke_each-In now version (revoke now version g) todo step
              (In-update_where_hit p (revoke now version) g grants i y) in
          rw y (elim (Bool-cases (elem g.id (map grant_id todo))) [
            | inl e ↦
                subst
                  (λ b.
                    In (if b then revoke now version g else revoke now version g)
                      (revoke_each now version todo step))
                  e rest
            | inr e ↦
                subst
                  (λ b.
                    In (if b then revoke now version g else revoke now version g)
                      (revoke_each now version todo step))
                  e rest
          ])
      | inr n ↦ rw n (
          revoke_each-In now version g todo step
            (In-update_where_miss p (revoke now version) g grants i n))
    ]

-- Where the grants have different ids, the loop comes to the live grants of the node alone.
pub elem-live_grants :
    (node : ℕ) (g : GrantRow) (store : Store)
    → Nodup (map grant_id store.grants)
    → In g store.grants
    → elem g.id (map grant_id (live_grants node store)) ≡ is_live_grant_of node g
elem-live_grants node g store uniq i =
    elem-selected grant_id grant_before (is_live_grant_of node) g store.grants uniq i

-- The store after a quarantine: the node is QUARANTINED, none of its grants is live, and each
-- grant of before is there, revoked at the time with the node's new version if it was live.
pub record Isolated (input : QuarantineNodeInput) (w : QuarantineWorld) (node : NodeRow)
    (store next : Store) : Type 0 where
  pub row : NodeRow
  pub found : node_by_id input.node_id next ≡ some row
  pub moved : row.status ≡ quarantined
  pub none_live : All (λ g. is_live_grant_of input.node_id g ≡ false) next.grants
  pub grants_kept :
      All
        (λ g.
          In
            (if is_live_grant_of input.node_id g
              then revoke w.now (node.desired_config_version + 1) g
              else g)
            next.grants)
        store.grants

abbrev IsIsolated :
    QuarantineNodeInput → QuarantineWorld → NodeRow → Store → Tx QuarantineNodeResult → Type 0
IsIsolated input w node store tx =
    (result : QuarantineNodeResult) × (next : Store) × (tx ≡ committed result next)
    × Isolated input w node store next

not_live :
    (node : ℕ) (g : GrantRow)
    → (g.node_id ≡ node → is_revoked g.status ≡ true)
    → is_live_grant_of node g ≡ false
not_live node g h = elim (Bool-cases (g.node_id == node)) [
  | inl y ↦ let r = h (ground arith) in ground arith
  | inr n ↦ ground arith
]

live_of :
    (node : ℕ) (g : GrantRow)
    → g.node_id ≡ node
    → is_revoked g.status ≡ false
    → is_live_grant_of node g ≡ true
live_of node g same u = ground arith

revoke_all-Isolated :
    (input : QuarantineNodeInput) (w : QuarantineWorld) (node : NodeRow) (store : Store)
    (found : List GrantRow)
    → node_by_id input.node_id store ≡ some node
    → ((g : GrantRow)
        → In g store.grants
        → elem g.id (map grant_id found) ≡ is_live_grant_of input.node_id g)
    → IsIsolated input w node store (revoke_all input w node found store)
revoke_all-Isolated input w node store [] n live = (
  _,
  _,
  refl,
  record {
    row = with_status quarantined node;
    found = find-update input.node_id (with_status quarantined) node store.nodes (λ a. refl) n;
    moved = refl;
    none_live = All-tabulate _ store.grants λ g i. sym (live g i);
    grants_kept = All-tabulate _ store.grants λ g i. rw (sym (live g i)) i;
  },
)
revoke_all-Isolated input w node store (lead ∷ rest) n live =
    let version = node.desired_config_version + 1 in
    let after = revoke_each w.now version (lead ∷ rest) store.grants in
    (
      _,
      _,
      refl,
      record {
        row = isolate node;
        found = find-update input.node_id isolate node store.nodes (λ a. refl) n;
        moved = refl;
        none_live = All-tabulate _ after λ g i. not_live input.node_id g (
            In-All (λ (x : GrantRow). x.node_id ≡ input.node_id → is_revoked x.status ≡ true) g
              after
              (revoke_each-Covered w.now version input.node_id (lead ∷ rest) store.grants (
                All-tabulate _ store.grants λ x j same. elim (Bool-cases (is_revoked x.status)) [
                  | inl r ↦ inl r
                  | inr u ↦ inr (live x j ∙ live_of input.node_id x same u)
                ]))
              i);
        grants_kept = All-tabulate _ store.grants λ g i.
            rw (sym (live g i)) (revoke_each-In w.now version g (lead ∷ rest) store.grants i);
      },
    )

-- A quarantine of a node that may be quarantined, under two unused keys: it commits, the node is
-- QUARANTINED, none of the node's grants is live, and each grant of before is kept, unchanged
-- unless it was a live grant of the node, and then revoked at the clock's time with the node's
-- next version. The grants have different ids.
pub quarantine_revokes_all :
    (input : QuarantineNodeInput) (w : QuarantineWorld) (node : NodeRow) (store : Store)
    → KeysFree input store
    → Nodup (map grant_id store.grants)
    → node_by_id input.node_id store ≡ some node
    → is_node_eligible_for_emergency_quarantine node.status ≡ true
    → (result : QuarantineNodeResult) × (next : Store) × (quarantine input w store
        ≡ committed result next)
      × Isolated input w node store next
unfolding quarantine
quarantine_revokes_all input w node store (j, e) uniq n fit =
    let open_ : is_quarantined node.status ≡ false = ground arith in
    rw (j, e, n)
      (rw (open_, fit)
        (revoke_all-Isolated input w node store (live_grants input.node_id store) n
          (λ g i. elem-live_grants input.node_id g store uniq i)))
