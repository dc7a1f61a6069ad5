-- ===== src/Orchestration/NodeSync/Exclusion.antt =====
-- A leased job is not claimed again.
use vpnplatform.Base.{
  ℕ, ◌+◌, ◌<◌, ◌≡◌, refl, inl, inr, true, false, List, arith, ◌==◌, All, In-All, All-tabulate,
  subst, sym, ◌∙◌, Bool-cases, any, find,
}
use vpnplatform.Orchestration.Table.{In-unique, update_where-All, update_where-none}
use vpnplatform.Orchestration.Outbox.{NodeSyncCommand, after}
use vpnplatform.Orchestration.Database.{NodeSyncJob, Config}
use vpnplatform.Orchestration.NodeSync.{
  SyncConfig, is_processing, stale, command_job_id, claimable, claimed, closable, claim_rest, claim,
  after_stale, matches, reclaimed,
}
use vpnplatform.Orchestration.NodeSync.Jobs.{JobsOk, after_stale-JobsOk}
use vpnplatform.Orchestration.NodeSync.Claiming.{
  IsClaimed, claim_rest-Taken, claimable-parts, any-In, existing_result-IsClaimed, matches-id,
  none-any,
}

-- The job of the id is leased at the time.
abbrev pub LeasedAt : ℕ → ℕ → NodeSyncJob → Type 0
LeasedAt id now job =
    job.id ≡ id → (is_processing job.status ≡ true) × (after job.lease_expires_at now ≡ true)

LeasedAt-stale :
    (id now : ℕ) (command : NodeSyncCommand) (job : NodeSyncJob)
    → command_job_id command ≡ id
    → LeasedAt id now job
    → stale now command job ≡ false
LeasedAt-stale id now command job same h = elim (Bool-cases (matches command job)) [
  | inl y ↦ let (working, held) = h (matches-id command job y ∙ same) in ground arith
  | inr n ↦ ground arith
]

LeasedAt-claimable :
    (cfg : SyncConfig) (db : Config) (id now : ℕ) (command : NodeSyncCommand) (job : NodeSyncJob)
    → command_job_id command ≡ id
    → LeasedAt id now job
    → claimable cfg db now command job ≡ false
LeasedAt-claimable cfg db id now command job same h = elim (Bool-cases (matches command job)) [
  | inl y ↦ let (working, held) = h (matches-id command job y ∙ same) in ground arith
  | inr n ↦ ground arith
]

LeasedAt-closable :
    (db : Config) (id now : ℕ) (command : NodeSyncCommand) (job : NodeSyncJob)
    → command_job_id command ≡ id
    → LeasedAt id now job
    → closable db now command job ≡ false
LeasedAt-closable db id now command job same h = elim (Bool-cases (matches command job)) [
  | inl y ↦ let (working, held) = h (matches-id command job y ∙ same) in ground arith
  | inr n ↦ ground arith
]

-- With the job leased, a claim of it takes nothing and changes nothing.
leased_refused :
    (cfg : SyncConfig) (db : Config) (id now : ℕ) (command : NodeSyncCommand) (owner token : ℕ)
    (jobs : List NodeSyncJob)
    → command_job_id command ≡ id
    → All (LeasedAt id now) jobs
    → (¬ IsClaimed (claim cfg db now command owner token jobs).0)
      × ((claim cfg db now command owner token jobs).1 ≡ jobs)
unfolding claim
leased_refused cfg db id now command owner token jobs same h =
    let every = In-All (LeasedAt id now) in
    let fresh =
      (update_where-none (stale now command) (reclaimed cfg now) jobs
        (All-tabulate _ jobs λ j i. LeasedAt-stale id now command j same (every j jobs h i))).0 in
    let shut = none-any (claimable cfg db now command) jobs (
      All-tabulate _ jobs
        λ j i. LeasedAt-claimable cfg db id now command j same (every j jobs h i)) in
    let open_ =
      none-any (closable db now command) jobs (
        All-tabulate _ jobs λ j i. LeasedAt-closable db id now command j same (every j jobs h i)) in
    rw fresh (
      rw shut (
        rw open_ (
          existing_result-IsClaimed command (find (λ job. job.id == command_job_id command) jobs),
          refl,
        )))

id_of : NodeSyncJob → ℕ
id_of job = job.id

claim_rest-LeasedAt :
    (cfg : SyncConfig) (db : Config) (now later : ℕ) (command : NodeSyncCommand) (owner token : ℕ)
    (jobs : List NodeSyncJob)
    → JobsOk cfg jobs
    → later < now + cfg.lease_duration_ms
    → any (claimable cfg db now command) jobs ≡ true
    → All
        (LeasedAt (command_job_id command) later)
        (claim_rest cfg db now command owner token jobs).1
claim_rest-LeasedAt cfg db now later command owner token jobs ok soon y =
    let p = claimable cfg db now command in
    let (job, i, fits) = any-In p jobs y in
    let (named, _) = claimable-parts cfg db now command job fits in
    rw y (
      update_where-All (LeasedAt (command_job_id command) later) p (claimed cfg now owner token)
        jobs (λ j _ _ _. (refl, ground arith))
        (λ j k n same.
          let one =
            In-unique (λ (a : NodeSyncJob). a.id) j job jobs ok.ids_unique k i (same ∙ sym named) in
          absurd (ground (arith, subst (λ x. p x ≡ false) one n))))

-- Two workers never hold one job at a time: in a valid table, once a claim has taken a job, a
-- claim by any command for that job, by any worker and with any tables, is refused and changes
-- nothing until the lease's duration is over.
pub claim_exclusive :
    (cfg : SyncConfig) (db db2 : Config) (now later : ℕ) (command command2 : NodeSyncCommand)
    (owner owner2 token token2 : ℕ) (jobs : List NodeSyncJob)
    → JobsOk cfg jobs
    → IsClaimed (claim cfg db now command owner token jobs).0
    → command_job_id command2 ≡ command_job_id command
    → later < now + cfg.lease_duration_ms
    → let next = (claim cfg db now command owner token jobs).1 in
      (¬ IsClaimed (claim cfg db2 later command2 owner2 token2 next).0)
      × ((claim cfg db2 later command2 owner2 token2 next).1 ≡ next)
unfolding claim
claim_exclusive cfg db db2 now later command command2 owner owner2 token token2 jobs ok h same
      soon =
    let before = after_stale cfg now command jobs in
    leased_refused cfg db2 (command_job_id command) later command2 owner2 token2
      (claim_rest cfg db now command owner token before).1 same
      (claim_rest-LeasedAt cfg db now later command owner token before
        (after_stale-JobsOk cfg now command jobs ok) soon
        (claim_rest-Taken cfg db now command owner token before h).0)
