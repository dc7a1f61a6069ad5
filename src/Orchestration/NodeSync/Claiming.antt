-- ===== src/Orchestration/NodeSync/Claiming.antt =====
-- What a claim of a node-sync job guarantees.
use vpnplatform.Base.{
  ℕ, ◌≡◌, refl, inl, inr, Bool, true, false, ◌&&◌, leb, Option, none, some, List, [], ◌∷◌, arith,
  ◌==◌, All, In, Bool-cases, any, find,
}
use vpnplatform.Orchestration.Table.{In-update_where_hit}
use vpnplatform.Orchestration.Outbox.{NodeSyncCommand, grant_command, route_command}
use vpnplatform.Orchestration.Database.{NodeSyncJob, Config}
use vpnplatform.Orchestration.NodeSync.{
  SyncConfig, ClaimResult, claimed_job, command_job_id, claimable, claimed, closable, claim_rest,
  claim, after_stale, matches, joined, node_ready, existing_result,
}

abbrev pub IsClaimed : ClaimResult → Type 0
IsClaimed (claimed_job _ _) = Unit
IsClaimed _ = ⊥

pub any-In :
    (p : NodeSyncJob → Bool) (jobs : List NodeSyncJob)
    → any p jobs ≡ true
    → (job : NodeSyncJob) × In job jobs × (p job ≡ true)
any-In p [] h = cc
any-In p (j ∷ jobs) h = elim (Bool-cases (p j)) [
  | inl y ↦ (j, inl refl, y)
  | inr n ↦ let (a, i, e) = any-In p jobs (ground arith) in (a, inr i, e)
]

pub none-any :
    (p : NodeSyncJob → Bool) (jobs : List NodeSyncJob)
    → All (λ job. p job ≡ false) jobs
    → any p jobs ≡ false
none-any p [] h = refl
none-any p (j ∷ jobs) h = ground (arith, none-any p jobs h.1, h.0)

pub existing_result-IsClaimed :
    (command : NodeSyncCommand) (found : Option NodeSyncJob)
    → ¬ IsClaimed (existing_result command found)
existing_result-IsClaimed command none h = h
existing_result-IsClaimed command (some job) h = ground arith

-- The job that was claimed: the command's own, waiting and due, its joins satisfied, now leased.
pub record Taken (cfg : SyncConfig) (db : Config) (now : ℕ) (command : NodeSyncCommand)
    (owner token : ℕ) (before next : List NodeSyncJob) : Type 0 where
  pub job : NodeSyncJob
  pub there : In job before
  pub fits : claimable cfg db now command job ≡ true
  pub named : job.id ≡ command_job_id command
  pub version_desired : any (node_ready job) db.nodes ≡ true
  pub leased : In (claimed cfg now owner token job) next

any_weaken {ℓ} :
    {A : Type ℓ} (p q : A → Bool) (xs : List A)
    → ((x : A) → p x ≡ true → q x ≡ true)
    → any p xs ≡ true
    → any q xs ≡ true
any_weaken p q [] imp h = h
any_weaken p q (x ∷ xs) imp h = elim (Bool-cases (p x)) [
  | inl y ↦ ground (arith, imp x y)
  | inr n ↦ ground (arith, any_weaken p q xs imp)
]

any_const {ℓ} :
    {A : Type ℓ} (p : A → Bool) (b : Bool) (xs : List A)
    → ((x : A) → p x ≡ true → b ≡ true)
    → any p xs ≡ true
    → b ≡ true
any_const p b [] imp h = cc
any_const p b (x ∷ xs) imp h = elim (Bool-cases (p x)) [
  | inl y ↦ imp x y
  | inr n ↦ any_const p b xs imp (ground arith)
]

-- Both joins ask for the job's node, with the job's version among its desired ones.
joined-node_ready :
    (db : Config) (command : NodeSyncCommand) (job : NodeSyncJob)
    → joined db command job ≡ true
    → any (node_ready job) db.nodes ≡ true
joined-node_ready db (grant_command g id v) job h =
    any_const _ (any (node_ready job) db.nodes) db.grants
      (λ grant fits.
        any_weaken (λ n. node_ready job n && leb grant.desired_version n.desired_config_version)
          (node_ready job) db.nodes (λ n both. ground arith) (ground arith))
      h
joined-node_ready db (route_command e p id v) job h = ground arith

pub claimable-parts :
    (cfg : SyncConfig) (db : Config) (now : ℕ) (command : NodeSyncCommand) (job : NodeSyncJob)
    → claimable cfg db now command job ≡ true
    → (job.id ≡ command_job_id command) × (joined db command job ≡ true)
claimable-parts cfg db now (grant_command g id v) job h = ground arith
claimable-parts cfg db now (route_command e p id v) job h = ground arith

pub matches-id :
    (command : NodeSyncCommand) (job : NodeSyncJob)
    → matches command job ≡ true
    → job.id ≡ command_job_id command
matches-id (grant_command g id v) job h = ground arith
matches-id (route_command e p id v) job h = ground arith

pub claim_rest-Taken :
    (cfg : SyncConfig) (db : Config) (now : ℕ) (command : NodeSyncCommand) (owner token : ℕ)
    (jobs : List NodeSyncJob)
    → IsClaimed (claim_rest cfg db now command owner token jobs).0
    → (any (claimable cfg db now command) jobs ≡ true)
      × Taken cfg db now command owner token jobs (claim_rest cfg db now command owner token jobs).1
claim_rest-Taken cfg db now command owner token jobs h =
    let p = claimable cfg db now command in
    elim (Bool-cases (any p jobs)) [
      | inl y ↦
          let (job, i, fits) = any-In p jobs y in
          let (named, join) = claimable-parts cfg db now command job fits in
          (
            y,
            record {
              job = job;
              there = i;
              fits = fits;
              named = named;
              version_desired = joined-node_ready db command job join;
              leased = rw y (In-update_where_hit p (claimed cfg now owner token) job jobs i fits);
            },
          )
      | inr n ↦ absurd (elim (Bool-cases (any (closable db now command) jobs)) [
        | inl y ↦ ground (arith, h)
        | inr m ↦
            existing_result-IsClaimed command (find (λ job. job.id == command_job_id command) jobs)
              (ground (arith, h))
      ])
    ]

-- A claim succeeds only by taking the job that the command names, as it stands after the
-- claim's first statement: pending, due and below the attempts limit, its resource and version
-- those of the command, its joins satisfied, and its node there with a desired version that is
-- not below the job's. That job is then leased to the owner under the token for the lease's
-- duration.
pub claim-Taken :
    (cfg : SyncConfig) (db : Config) (now : ℕ) (command : NodeSyncCommand) (owner token : ℕ)
    (jobs : List NodeSyncJob)
    → IsClaimed (claim cfg db now command owner token jobs).0
    → Taken cfg db now command owner token
        (after_stale cfg now command jobs)
        (claim cfg db now command owner token jobs).1
unfolding claim
claim-Taken cfg db now command owner token jobs h =
    (claim_rest-Taken cfg db now command owner token (after_stale cfg now command jobs) h).1

-- Of a claim that succeeds, with its own token.
pub claim_named :
    (cfg : SyncConfig) (db : Config) (now : ℕ) (command : NodeSyncCommand) (owner token : ℕ)
    (jobs : List NodeSyncJob)
    → IsClaimed (claim cfg db now command owner token jobs).0
    → (claim cfg db now command owner token jobs).0 ≡ claimed_job (command_job_id command) token
unfolding claim
claim_named cfg db now command owner token jobs h =
    rw (claim_rest-Taken cfg db now command owner token (after_stale cfg now command jobs) h).0 refl
