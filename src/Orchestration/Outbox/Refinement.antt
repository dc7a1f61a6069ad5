-- ===== src/Orchestration/Outbox/Refinement.antt =====
-- The abstract life of one outbox event, and how the statements of the store follow it.
use vpnplatform.Base.{
  ℕ, suc, ◌-◌, ◌≤◌, ◌<◌, ◌≡◌, refl, inl, inr, Bool, true, List, [], ◌∷◌, arith, ◌==◌, All, In,
  In-All, All-tabulate, subst, Bool-cases, get_or, if◌then◌else◌, some,
}
use vpnplatform.Orchestration.Table.{update_where, In-update_where, In-unique}
use vpnplatform.Orchestration.Outbox.{
  OutboxStatus, pending, processing, published, failed, ErrorCode, OutboxEvent, OutboxConfig,
  reclaimable, reclaimed, released, claimable, claimed, holds_lease, published_by, candidates,
  claim_candidate, reclaim_expired_leases, claim_next, mark_published, retry,
}
use vpnplatform.Orchestration.Outbox.Leases.{
  RowOk, TableOk, Step, reclaim, claim, publish, give_back, insert, candidates-head,
}

-- An event waits, with a number of attempts left; or is held under a lease, with the attempts that
-- remain should it fail; or is done; or is dead.
pub data Life : Type 0 where
  waiting : (left : ℕ) → Life
  held : (owner token until left : ℕ) → Life
  done dead : Life

-- The moves of that life at a time: a lease takes an attempt, ends in `done` before it expires
-- only, and without success leads back only while attempts are left.
abbrev pub Move : ℕ → Life → Life → Type 0
Move now (waiting k) (waiting j) = k ≡ j
Move now (waiting k) (held _ _ until j) = (k ≡ suc j) × (now ≤ until)
Move now (waiting k) done = ⊥
Move now (waiting k) dead = k ≡ 0
Move now (held o t u k) (held o2 t2 u2 j) = (o ≡ o2) × (t ≡ t2) × (u ≡ u2) × (k ≡ j)
Move now (held _ _ _ k) (waiting j) = (k ≡ j) × (0 < k)
Move now (held _ _ until _) done = now < until
Move now (held _ _ _ k) dead = k ≡ 0
Move now done done = Unit
Move now done _ = ⊥
Move now dead dead = Unit
Move now dead _ = ⊥

abbrev life_by : OutboxStatus → ℕ → OutboxEvent → Life
life_by pending left e = waiting left
life_by processing left e =
    held (get_or e.lease_owner 0) (get_or e.lease_token 0) (get_or e.lease_expires_at 0) left
life_by published left e = done
life_by failed left e = dead

-- The abstract view of a row.
abbrev pub life : OutboxConfig → OutboxEvent → Life
life cfg e = life_by e.status (cfg.max_attempts - e.attempts) e

Move-refl : (now : ℕ) (l : Life) → Move now l l
Move-refl now (waiting k) = refl
Move-refl now (held o t u k) = (refl, refl, refl, refl)
Move-refl now done = tt
Move-refl now dead = tt

reclaimed-Move :
    (cfg : OutboxConfig) (now : ℕ) (e : OutboxEvent)
    → reclaimable cfg now e ≡ true
    → RowOk cfg e
    → Move now (life cfg e) (life cfg (reclaimed cfg now e))
reclaimed-Move cfg now e h ok = ground arith

claimed-Move :
    (cfg : OutboxConfig) (now owner token : ℕ) (e : OutboxEvent)
    → claimable cfg now e ≡ true
    → Move now (life cfg e) (life cfg (claimed cfg now owner token e))
claimed-Move cfg now owner token e h = ground arith

published_by-Move :
    (cfg : OutboxConfig) (now id owner token : ℕ) (e : OutboxEvent)
    → holds_lease now id owner token e ≡ true
    → Move now (life cfg e) (life cfg (published_by now e))
published_by-Move cfg now id owner token e h = ground arith

released-Move :
    (cfg : OutboxConfig) (now id owner token : ℕ) (code : ErrorCode) (e : OutboxEvent)
    → holds_lease now id owner token e ≡ true
    → RowOk cfg e
    → Move now (life cfg e) (life cfg (released cfg now cfg.retry_delay_ms (some code) e))
released-Move cfg now id owner token code e h ok = ground arith

-- The row of the same id has moved, or stayed.
abbrev pub Moved : OutboxConfig → ℕ → List OutboxEvent → OutboxEvent → Type 0
Moved cfg now next e =
    (row : OutboxEvent) × In row next × (row.id ≡ e.id) × Move now (life cfg e) (life cfg row)

update_where-Moved :
    (cfg : OutboxConfig) (now : ℕ) (p : OutboxEvent → Bool) (f : OutboxEvent → OutboxEvent)
    (events : List OutboxEvent)
    → ((e : OutboxEvent) → (f e).id ≡ e.id)
    → ((e : OutboxEvent) → In e events → p e ≡ true → Move now (life cfg e) (life cfg (f e)))
    → All (Moved cfg now (update_where p f events)) events
update_where-Moved cfg now p f events same move = All-tabulate _ events (λ e i.
    let there = In-update_where p f e events i in
    elim (Bool-cases (p e)) [
      | inl y ↦ (
        f e,
        subst (λ b. In (if b then f e else e) (update_where p f events)) y there,
        same e,
        move e i y,
      )
      | inr n ↦ (
        e,
        subst (λ b. In (if b then f e else e) (update_where p f events)) n there,
        refl,
        Move-refl now (life cfg e),
      )
    ])

stay-All :
    (cfg : OutboxConfig) (now : ℕ) (events next : List OutboxEvent)
    → ((e : OutboxEvent) → In e events → In e next)
    → All (Moved cfg now next) events
stay-All cfg now events next there =
    All-tabulate _ events (λ e i. (e, there e i, refl, Move-refl now (life cfg e)))

claim_candidate-Moved :
    (cfg : OutboxConfig) (now owner token : ℕ) (events found : List OutboxEvent)
    → candidates cfg now events ≡ found
    → TableOk cfg events
    → All (Moved cfg now (claim_candidate cfg now owner token events found).1) events
claim_candidate-Moved cfg now owner token events [] e h = stay-All cfg now events events (λ a i. i)
claim_candidate-Moved cfg now owner token events (c ∷ rest) e h =
    let (i, fits) = candidates-head cfg now events rest c e in
    update_where-Moved cfg now (λ r. r.id == c.id) (claimed cfg now owner token) events (λ r. refl)
      (λ r j y. claimed-Move cfg now owner token r (
        subst (λ x. claimable cfg now x ≡ true)
          (In-unique (λ (x : OutboxEvent). x.id) c r events h.ids_unique i j (ground arith)) fits))

-- The time of a statement.
abbrev pub time_of :
    {cfg : OutboxConfig} {events next : List OutboxEvent} → Step cfg events next → ℕ
time_of (reclaim now) = now
time_of (claim now _ _) = now
time_of (publish now _ _ _) = now
time_of (give_back now _ _ _ _) = now
time_of (insert _ _ _ _ _ _ _) = 0

-- Refinement: every statement of the store on a valid table takes each event of it along a move of
-- the abstract life, at the statement's time, or leaves it as it is: an attempt is used up by a
-- lease only, an event is done only before its lease expires, it is dead only without attempts
-- left, and what is done or dead stays so. No statement loses an event.
pub Step-Moved :
    (cfg : OutboxConfig) (events next : List OutboxEvent) (step : Step cfg events next)
    → TableOk cfg events
    → All (Moved cfg (time_of step) next) events
unfolding reclaim_expired_leases claim_next mark_published retry
Step-Moved cfg events next (reclaim now) h =
    update_where-Moved cfg now (reclaimable cfg now) (reclaimed cfg now) events (λ e. refl)
      (λ e i y. reclaimed-Move cfg now e y (In-All (RowOk cfg) e events h.rows i))
Step-Moved cfg events next (claim now owner token) h =
    claim_candidate-Moved cfg now owner token events _ refl h
Step-Moved cfg events next (publish now id owner token) h =
    update_where-Moved cfg now (holds_lease now id owner token) (published_by now) events
      (λ e. refl) (λ e i y. published_by-Move cfg now id owner token e y)
Step-Moved cfg events next (give_back now id owner token code) h =
    update_where-Moved cfg now (holds_lease now id owner token)
      (released cfg now cfg.retry_delay_ms (some code)) events (λ e. refl)
      (λ e i y.
        released-Move cfg now id owner token code e y (In-All (RowOk cfg) e events h.rows i))
Step-Moved cfg events next (insert e _ _ _ _ _ _) h =
    stay-All cfg 0 events (e ∷ events) (λ a i. inr i)
