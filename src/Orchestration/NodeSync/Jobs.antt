-- ===== src/Orchestration/NodeSync/Jobs.antt =====
-- The node-sync jobs that the store's statements reach.
use vpnplatform.Base.{
  ℕ, ◌≤◌, ◌<◌, ◌≡◌, refl, inl, inr, Bool, true, false, Option, none, some, List, [], ◌∷◌, arith,
  All, In, is_some, map, Nodup, elem, subst, sym, Bool-cases, any,
}
use vpnplatform.Orchestration.Table.{
  update_where, All-update_where, map-update_where, In-update_where_miss,
}
use vpnplatform.Orchestration.Outbox.{NodeSyncCommand}
use vpnplatform.Orchestration.Database.{
  SyncStatus, pending, succeeded, failed, SyncErrorCode, NodeSyncJob, Config,
}
use vpnplatform.Orchestration.NodeSync.{
  SyncConfig, is_pending, is_processing, released, reclaimed, reclaimable, reclaim_expired_leases,
  stale, claimable, claimed, closable, closed, claim_rest, claim, holds_lease, completed, complete,
  retry, after_stale, expired_code,
}

abbrev pub is_final : SyncStatus → Bool
is_final succeeded = true
is_final failed = true
is_final _ = false

-- A job between two statements: its attempts stay within the limit, it is leased exactly while it
-- is PROCESSING, and it has an end exactly when it is SUCCEEDED or FAILED.
pub record JobOk (cfg : SyncConfig) (job : NodeSyncJob) : Type 0 where
  pub bounded : job.attempts ≤ cfg.max_attempts
  pub owner_leased : is_some job.lease_owner ≡ is_processing job.status
  pub token_leased : is_some job.lease_token ≡ is_processing job.status
  pub expiry_leased : is_some job.lease_expires_at ≡ is_processing job.status
  pub ended : is_some job.completed_at ≡ is_final job.status

abbrev pub job_ids : List NodeSyncJob → List ℕ
job_ids = map λ job. job.id

pub record JobsOk (cfg : SyncConfig) (jobs : List NodeSyncJob) : Type 0 where
  pub rows : All (JobOk cfg) jobs
  pub ids_unique : Nodup (job_ids jobs)

released-JobOk :
    (cfg : SyncConfig) (now delay : ℕ) (code : Option SyncErrorCode) (job : NodeSyncJob)
    → JobOk cfg job
    → JobOk cfg (released cfg now delay code job)
released-JobOk cfg now delay code job h = ground arith

completed-JobOk :
    (cfg : SyncConfig) (now : ℕ) (job : NodeSyncJob) → JobOk cfg job → JobOk cfg (completed now job)
completed-JobOk cfg now job h = ground arith

closed-JobOk :
    (cfg : SyncConfig) (now : ℕ) (job : NodeSyncJob) → JobOk cfg job → JobOk cfg (closed now job)
closed-JobOk cfg now job h = ground arith

-- Of a claimable job.
claimable-room :
    (cfg : SyncConfig) (db : Config) (now : ℕ) (command : NodeSyncCommand) (job : NodeSyncJob)
    → claimable cfg db now command job ≡ true
    → (job.attempts < cfg.max_attempts) × (is_pending job.status ≡ true)
claimable-room cfg db now command job h = ground arith

claimed-JobOk :
    (cfg : SyncConfig) (now owner token : ℕ) (job : NodeSyncJob)
    → (job.attempts < cfg.max_attempts) × (is_pending job.status ≡ true)
    → JobOk cfg job
    → JobOk cfg (claimed cfg now owner token job)
claimed-JobOk cfg now owner token job room h = ground arith

update_where-JobsOk :
    (cfg : SyncConfig) (p : NodeSyncJob → Bool) (f : NodeSyncJob → NodeSyncJob)
    (jobs : List NodeSyncJob)
    → ((job : NodeSyncJob) → (f job).id ≡ job.id)
    → ((job : NodeSyncJob) → p job ≡ true → JobOk cfg job → JobOk cfg (f job))
    → JobsOk cfg jobs
    → JobsOk cfg (update_where p f jobs)
update_where-JobsOk cfg p f jobs same keep h = record {
  rows = All-update_where (JobOk cfg) p f jobs (λ job _. keep job) h.rows;
  ids_unique =
      subst Nodup (sym (map-update_where (λ (job : NodeSyncJob). job.id) p f jobs same))
        h.ids_unique;
}

pub after_stale-JobsOk :
    (cfg : SyncConfig) (now : ℕ) (command : NodeSyncCommand) (jobs : List NodeSyncJob)
    → JobsOk cfg jobs
    → JobsOk cfg (after_stale cfg now command jobs)
after_stale-JobsOk cfg now command jobs h =
    update_where-JobsOk cfg _ (reclaimed cfg now) jobs (λ job. refl)
      (λ job _ ok. released-JobOk cfg now 0 (expired_code cfg job) job ok) h

claim_rest-JobsOk :
    (cfg : SyncConfig) (db : Config) (now : ℕ) (command : NodeSyncCommand) (owner token : ℕ)
    (jobs : List NodeSyncJob)
    → JobsOk cfg jobs
    → JobsOk cfg (claim_rest cfg db now command owner token jobs).1
claim_rest-JobsOk cfg db now command owner token jobs h =
    elim (Bool-cases (any (claimable cfg db now command) jobs)) [
      | inl y ↦ rw y (
          update_where-JobsOk cfg (claimable cfg db now command) (claimed cfg now owner token) jobs
            (λ job. refl)
            (λ job fits ok.
              claimed-JobOk cfg now owner token job (claimable-room cfg db now command job fits) ok)
            h)
      | inr n ↦ elim (Bool-cases (any (closable db now command) jobs)) [
        | inl y ↦ rw n (
            rw y (
              update_where-JobsOk cfg (closable db now command) (closed now) jobs (λ job. refl)
                (λ job _ ok. closed-JobOk cfg now job ok) h))
        | inr m ↦ rw n (rw m h)
      ]
    ]

-- One statement of the store, or the insertion of a new job by the transaction that causes it.
pub data JobStep (cfg : SyncConfig) (jobs : List NodeSyncJob) : List NodeSyncJob → Type 0 where
  reclaim : (now : ℕ) → JobStep cfg jobs (reclaim_expired_leases cfg now jobs).1
  take :
      (db : Config) (now : ℕ) (command : NodeSyncCommand) (owner token : ℕ)
      → JobStep cfg jobs (claim cfg db now command owner token jobs).1
  finish : (now id owner token : ℕ) → JobStep cfg jobs (complete now id owner token jobs).1
  give_back :
      (now id owner token : ℕ) (code : SyncErrorCode)
      → JobStep cfg jobs (retry cfg now id owner token code jobs).1
  insert :
      (job : NodeSyncJob)
      → job.status ≡ pending
      → job.attempts ≡ 0
      → job.lease_owner ≡ none
      → job.lease_token ≡ none
      → job.lease_expires_at ≡ none
      → job.completed_at ≡ none
      → elem job.id (job_ids jobs) ≡ false
      → JobStep cfg jobs (job ∷ jobs)

-- Every statement, with any time, command, owner and token, keeps the jobs valid.
pub JobStep-JobsOk :
    (cfg : SyncConfig) (jobs next : List NodeSyncJob)
    → JobStep cfg jobs next
    → JobsOk cfg jobs
    → JobsOk cfg next
unfolding reclaim_expired_leases claim complete retry
JobStep-JobsOk cfg jobs next (reclaim now) h =
    update_where-JobsOk cfg _ (reclaimed cfg now) jobs (λ job. refl)
      (λ job _ ok. released-JobOk cfg now 0 (expired_code cfg job) job ok) h
JobStep-JobsOk cfg jobs next (take db now command owner token) h =
    claim_rest-JobsOk cfg db now command owner token (after_stale cfg now command jobs)
      (after_stale-JobsOk cfg now command jobs h)
JobStep-JobsOk cfg jobs next (finish now id owner token) h =
    update_where-JobsOk cfg _ _ jobs (λ job. refl) (λ job _ ok. completed-JobOk cfg now job ok) h
JobStep-JobsOk cfg jobs next (give_back now id owner token code) h =
    update_where-JobsOk cfg _ _ jobs (λ job. refl)
      (λ job _ ok. released-JobOk cfg now cfg.retry_delay_ms (some code) job ok) h
JobStep-JobsOk cfg jobs next (insert job st at o t x c fresh) h = record {
  rows = (ground arith, h.rows);
  ids_unique = (fresh, h.ids_unique);
}

pub data JobsReach (cfg : SyncConfig) : List NodeSyncJob → Type 0 where
  start : JobsReach cfg []
  then : {s t : List NodeSyncJob} → JobsReach cfg s → JobStep cfg s t → JobsReach cfg t

-- From no jobs, any sequence of statements and insertions of new jobs leads to valid ones: ids
-- differ, attempts stay within the limit, a job has a lease exactly while it is PROCESSING, and
-- an end exactly when it is SUCCEEDED or FAILED.
pub JobsReach-JobsOk :
    (cfg : SyncConfig) (jobs : List NodeSyncJob) → JobsReach cfg jobs → JobsOk cfg jobs
JobsReach-JobsOk cfg _ start = record { rows = tt; ids_unique = tt }
JobsReach-JobsOk cfg _ (then {s = s} {t = t} r step) =
    JobStep-JobsOk cfg s t step (JobsReach-JobsOk cfg s r)

claim_rest-final :
    (cfg : SyncConfig) (db : Config) (now : ℕ) (command : NodeSyncCommand) (owner token : ℕ)
    (jobs : List NodeSyncJob) (job : NodeSyncJob)
    → In job jobs
    → is_final job.status ≡ true
    → In job (claim_rest cfg db now command owner token jobs).1
claim_rest-final cfg db now command owner token jobs job i f =
    elim (Bool-cases (any (claimable cfg db now command) jobs)) [
      | inl y ↦ rw y (
          In-update_where_miss (claimable cfg db now command) (claimed cfg now owner token) job jobs
            i (ground arith))
      | inr n ↦ elim (Bool-cases (any (closable db now command) jobs)) [
        | inl y ↦ rw n (
            rw y (
              In-update_where_miss (closable db now command) (closed now) job jobs i
                (ground arith)))
        | inr m ↦ rw n (rw m i)
      ]
    ]

-- A job that has SUCCEEDED or FAILED is never changed again, by any statement.
pub JobStep-final :
    (cfg : SyncConfig) (jobs next : List NodeSyncJob) (job : NodeSyncJob)
    → JobStep cfg jobs next
    → In job jobs
    → is_final job.status ≡ true
    → In job next
unfolding reclaim_expired_leases claim complete retry
JobStep-final cfg jobs next job (reclaim now) i f =
    In-update_where_miss (reclaimable cfg now) (reclaimed cfg now) job jobs i (ground arith)
JobStep-final cfg jobs next job (take db now command owner token) i f =
    claim_rest-final cfg db now command owner token (after_stale cfg now command jobs) job
      (In-update_where_miss (stale now command) (reclaimed cfg now) job jobs i (ground arith)) f
JobStep-final cfg jobs next job (finish now id owner token) i f =
    In-update_where_miss (holds_lease now id owner token) (completed now) job jobs i (ground arith)
JobStep-final cfg jobs next job (give_back now id owner token code) i f =
    In-update_where_miss (holds_lease now id owner token)
      (released cfg now cfg.retry_delay_ms (some code)) job jobs i (ground arith)
JobStep-final cfg jobs next job (insert _ _ _ _ _ _ _ _) i f = inr i
