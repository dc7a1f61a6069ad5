-- ===== src/Orchestration/NodeSync/Processor.antt =====
-- `NodeSyncProcessor.process` of apps/worker/src/node-sync-processor.ts. A job's data is what it
-- parses to, if it does; what other workers do to the jobs between the claim and the completion
-- is a function on the table. The statements of the store do not throw.
use vpnplatform.Base.{
  ℕ, ◌+◌, ◌<◌, ◌≡◌, refl, inl, inr, true, false, Option, none, some, List, arith, if◌then◌else◌,
  ◌==◌, In, In-All, All-tabulate, Bool-cases, find, find-In, find-none, Option-cases, subst, sym,
  ◌∙◌,
}
use vpnplatform.Orchestration.Table.{
  affected_unique, In-update_where_hit, update_where-none, In-unique,
}
use vpnplatform.Orchestration.Outbox.{NodeSyncCommand, Topic, node_sync_requested, other_topic}
use vpnplatform.Orchestration.Database.{NodeSyncJob, Config, node_sync_processing_failed}
use vpnplatform.Orchestration.NodeSync.{
  SyncConfig, ClaimResult, claimed_job, already_completed, terminal, unavailable, claim, complete,
  retry, claimed, completed, holds_lease, command_job_id, after_stale, stale, claimable, closable,
  existing_result, reclaimed, matches,
}
use vpnplatform.Orchestration.NodeSync.Jobs.{JobsOk, JobStep-JobsOk, take, is_final}
use vpnplatform.Orchestration.NodeSync.Claiming.{
  IsClaimed, claim-Taken, matches-id, none-any, claim_named,
}

-- The errors that `process` throws.
pub data ProcessError : Type 0 where
  unsupported_job invalid_payload temporarily_unavailable completion_fenced : ProcessError

-- The times of the store's statements, the UUID of the lease, and the other workers.
pub record ProcessWorld : Type 0 where
  pub claim_at : ℕ
  pub complete_at : ℕ
  pub retry_at : ℕ
  pub token : ℕ
  pub others : List NodeSyncJob → List NodeSyncJob

-- `none` where the call returns.
abbrev pub finish_claimed :
    SyncConfig
    → ProcessWorld
    → ℕ
    → ClaimResult
    → List NodeSyncJob
    → Option ProcessError × List NodeSyncJob
finish_claimed cfg w owner already_completed jobs = (none, jobs)
finish_claimed cfg w owner terminal jobs = (none, jobs)
finish_claimed cfg w owner unavailable jobs = (some temporarily_unavailable, jobs)
finish_claimed cfg w owner (claimed_job id token) jobs =
    let done = complete w.complete_at id owner token (w.others jobs) in
    let back = retry cfg w.retry_at id owner token node_sync_processing_failed done.1 in
    if done.0 then (none, done.1) else (some completion_fenced, back.1)

abbrev pub process_command :
    SyncConfig
    → Config
    → ProcessWorld
    → ℕ
    → NodeSyncCommand
    → List NodeSyncJob
    → Option ProcessError × List NodeSyncJob
process_command cfg db w owner command jobs =
    let result = claim cfg db w.claim_at command owner w.token jobs in
    finish_claimed cfg w owner result.0 result.1

unfoldable pub process :
    SyncConfig
    → Config
    → ProcessWorld
    → ℕ
    → Topic
    → Option NodeSyncCommand
    → List NodeSyncJob
    → Option ProcessError × List NodeSyncJob
process cfg db w owner (other_topic _) data_ jobs = (some unsupported_job, jobs)
process cfg db w owner node_sync_requested none jobs = (some invalid_payload, jobs)
process cfg db w owner node_sync_requested (some command) jobs =
    process_command cfg db w owner command jobs

completed_by_holder :
    (cfg : SyncConfig) (jobs : List NodeSyncJob) (job : NodeSyncJob) (now owner token : ℕ)
    → JobsOk cfg jobs
    → In job jobs
    → holds_lease now job.id owner token job ≡ true
    → ((complete now job.id owner token jobs).0 ≡ true)
      × In (completed now job) (complete now job.id owner token jobs).1
unfolding complete
completed_by_holder cfg jobs job now owner token ok i h =
    let p = holds_lease now job.id owner token in
    elim (affected_unique (λ (j : NodeSyncJob). j.id) p job.id jobs (λ r q. ground arith)
      ok.ids_unique) [
        | inl (one, _) ↦ (ground arith, In-update_where_hit p (completed now) job jobs i h)
        | inr (_, nobody) ↦ absurd (ground (arith, In-All (λ r. p r ≡ false) job jobs nobody i))
      ]

-- On a valid table a command whose claim succeeds is carried out, if no other worker acts in
-- between and the completion comes before the lease expires: the call returns, and a job that
-- the command could claim is SUCCEEDED.
pub process_completes :
    (cfg : SyncConfig) (db : Config) (w : ProcessWorld) (owner : ℕ) (command : NodeSyncCommand)
    (jobs : List NodeSyncJob)
    → JobsOk cfg jobs
    → IsClaimed (claim cfg db w.claim_at command owner w.token jobs).0
    → w.others ≡ (λ t. t)
    → w.complete_at < w.claim_at + cfg.lease_duration_ms
    → let (error, next) = process cfg db w owner node_sync_requested (some command) jobs in
      let ready = after_stale cfg w.claim_at command jobs in
      (error ≡ none)
      × ((job : NodeSyncJob) × In job ready
          × (claimable cfg db w.claim_at command job ≡ true)
          × In (completed w.complete_at (claimed cfg w.claim_at owner w.token job)) next)
unfolding process
process_completes cfg db w owner command jobs ok got alone quick =
    let taken = claim-Taken cfg db w.claim_at command owner w.token jobs got in
    let result = claim cfg db w.claim_at command owner w.token jobs in
    let next_ok = JobStep-JobsOk cfg jobs result.1 (take db w.claim_at command owner w.token) ok in
    let (done, there) =
      completed_by_holder cfg result.1 (claimed cfg w.claim_at owner w.token taken.job)
        w.complete_at owner w.token next_ok taken.leased (ground arith) in
    rw (claim_named cfg db w.claim_at command owner w.token jobs got, sym taken.named, alone)
      (rw done (refl, (taken.job, taken.there, taken.fits, there)))

existing_result-final :
    (cfg : SyncConfig) (w : ProcessWorld) (owner : ℕ) (command : NodeSyncCommand)
    (job : NodeSyncJob) (jobs : List NodeSyncJob)
    → is_final job.status ≡ true
    → finish_claimed cfg w owner (existing_result command (some job)) jobs ≡ (none, jobs)
existing_result-final cfg w owner command job jobs f = ground arith

-- A job that the command names is the one of its id.
named_final :
    (cfg : SyncConfig) (command : NodeSyncCommand) (jobs : List NodeSyncJob) (job j : NodeSyncJob)
    → JobsOk cfg jobs
    → In job jobs
    → job.id ≡ command_job_id command
    → is_final job.status ≡ true
    → In j jobs
    → j.id ≡ command_job_id command
    → is_final j.status ≡ true
named_final cfg command jobs job j ok i named f k same =
    subst (λ x. is_final x.status ≡ true)
      (In-unique (λ (a : NodeSyncJob). a.id) job j jobs ok.ids_unique i k (named ∙ sym same)) f

not_open :
    (cfg : SyncConfig) (db : Config) (now : ℕ) (command : NodeSyncCommand) (j : NodeSyncJob)
    → (j.id ≡ command_job_id command → is_final j.status ≡ true)
    → (stale now command j ≡ false)
      × (claimable cfg db now command j ≡ false)
      × (closable db now command j ≡ false)
not_open cfg db now command j h = elim (Bool-cases (matches command j)) [
  | inl y ↦ let f = h (matches-id command j y) in (ground arith, ground arith, ground arith)
  | inr n ↦ (ground arith, ground arith, ground arith)
]

find-final :
    (cfg : SyncConfig) (w : ProcessWorld) (owner : ℕ) (command : NodeSyncCommand)
    (jobs : List NodeSyncJob) (job : NodeSyncJob)
    → In job jobs
    → job.id ≡ command_job_id command
    → ((j : NodeSyncJob) → In j jobs → j.id ≡ command_job_id command → is_final j.status ≡ true)
    → finish_claimed cfg w owner
        (existing_result command (find (λ j. j.id == command_job_id command) jobs))
        jobs
      ≡ (none, jobs)
find-final cfg w owner command jobs job i named every =
    let p = λ (j : NodeSyncJob). j.id == command_job_id command in
    elim (Option-cases (find p jobs)) [
      | inl missing ↦ absurd (ground (arith, find-none p job jobs missing i))
      | inr (j, found) ↦
          let (k, same) = find-In p j jobs found in
          rw found (existing_result-final cfg w owner command j jobs (every j k (ground arith)))
    ]

-- A redelivered command is harmless: where, in a valid table, the job of its id has SUCCEEDED
-- or FAILED, the call returns without an error and changes nothing, at any time and with any
-- tables.
pub redelivery_harmless :
    (cfg : SyncConfig) (db : Config) (w : ProcessWorld) (owner : ℕ) (command : NodeSyncCommand)
    (jobs : List NodeSyncJob) (job : NodeSyncJob)
    → JobsOk cfg jobs
    → In job jobs
    → job.id ≡ command_job_id command
    → is_final job.status ≡ true
    → process cfg db w owner node_sync_requested (some command) jobs ≡ (none, jobs)
unfolding process claim
redelivery_harmless cfg db w owner command jobs job ok i named f =
    let every =
      λ (j : NodeSyncJob) (k : In j jobs). named_final cfg command jobs job j ok i named f k in
    let shut =
      λ (j : NodeSyncJob) (k : In j jobs). not_open cfg db w.claim_at command j (every j k) in
    let fresh =
      (update_where-none (stale w.claim_at command) (reclaimed cfg w.claim_at) jobs
        (All-tabulate _ jobs λ j k. (shut j k).0)).0 in
    rw fresh (
      rw
        (
          none-any (claimable cfg db w.claim_at command) jobs
              (All-tabulate _ jobs λ j k. (shut j k).1),
          none-any (closable db w.claim_at command) jobs (All-tabulate _ jobs λ j k. (shut j k).2),
        )
        (find-final cfg w owner command jobs job i named every))
