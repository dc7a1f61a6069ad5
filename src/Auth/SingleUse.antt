-- ===== src/Auth/SingleUse.antt =====
-- A pending login gives one session, and its challenge no other.
use vpnplatform.Base.{
  ℕ, ◌≡◌, refl, inl, inr, true, false, ◌&&◌, not, Option-cases, Option, none, some, List, [], ◌∷◌,
  arith, ◌==◌, find-In, is_some, subst, sym, Bool-cases, All, In-All, All-tabulate, ltb, ==→eq,
}
use vpnplatform.Orchestration.Table.{update_where-All}
use vpnplatform.Auth.PendingLogin.{
  ChallengeRow, PendingRow, Store, Hashing, Outcome, answered, refused, challenge_by_id, BeginWorld,
  BegunPendingLogin, begin_login,
}
use vpnplatform.Auth.Completion.{
  CompleteWorld, AuthenticatedSession, ConfirmWorld, pending_by_hash, consume, may_complete,
  challenge_usable, complete_found, complete_login, use_challenge, with_challenge_id, new_session,
  session_taken, confirm_found, confirm_candidates, confirm_login,
}
use vpnplatform.Auth.Calls.{
  LoginCall, begin_call, confirm_call, complete_call, store_after, run_call, run_calls,
}
use vpnplatform.Auth.Begun.{BeginEnds, begin_login-Ends}

-- The challenge of the id is used, if it is there.
abbrev pub Used : ℕ → Store → Type 0
Used challenge store =
    All (λ c. (c.id == challenge) && not (is_some c.consumed_at) ≡ false) store.challenges

usable-Used :
    (challenge now : ℕ) (store : Store)
    → Used challenge store
    → challenge_usable now (challenge_by_id challenge store) ≡ false
usable-Used challenge now store h = elim (Option-cases (challenge_by_id challenge store)) [
  | inl e ↦ rw e refl
  | inr (c, e) ↦
      let (i, y) = find-In (λ (x : ChallengeRow). x.id == challenge) c store.challenges e in
      rw e (
        ground (
          arith,
          y,
          In-All (λ (x : ChallengeRow). (x.id == challenge) && not (is_some x.consumed_at) ≡ false)
              c store.challenges h i,
        ))
]

-- What a store keeps of a challenge: once used, it stays so.
abbrev KeepsUsed : {A : Type 0} → ℕ → Outcome A → Type 0
KeepsUsed challenge (answered _ next) = Used challenge next
KeepsUsed challenge (refused _) = Unit

begin-KeepsUsed :
    (h : Hashing) (w : BeginWorld) (challenge : ℕ) (store : Store) (o : Outcome BegunPendingLogin)
    → BeginEnds h w store o
    → Used challenge store
    → KeepsUsed challenge o
begin-KeepsUsed h w challenge store (answered begun next) ends used = rw ends.inserted used
begin-KeepsUsed h w challenge store (refused error) ends used = tt

confirm_found-KeepsUsed :
    (w : ConfirmWorld) (challenge : ℕ) (found : List PendingRow) (store : Store)
    → Used challenge store
    → KeepsUsed challenge (confirm_found w found store)
confirm_found-KeepsUsed w challenge [] store used = tt
confirm_found-KeepsUsed w challenge (p ∷ q ∷ rest) store used = tt
confirm_found-KeepsUsed w challenge (p ∷ []) store used =
    elim (Bool-cases (
      (p.telegram_user_id == w.telegram_user_id)
      && ltb w.now p.expires_at
      && challenge_usable w.now (challenge_by_id p.challenge_id store))) [
        | inl y ↦ rw y used
        | inr n ↦ rw n tt
      ]

consume-Used :
    (h : Hashing) (w : CompleteWorld) (p : PendingRow) (challenge : ℕ) (store : Store)
    → Used challenge store
    → Used challenge (consume h w p store)
consume-Used h w p challenge store used =
    update_where-All _ (with_challenge_id p.challenge_id) (use_challenge h w) store.challenges
      (λ c i y. ground arith)
      (λ c i n.
        In-All (λ (x : ChallengeRow). (x.id == challenge) && not (is_some x.consumed_at) ≡ false) c
          store.challenges used i)

consume-uses :
    (h : Hashing) (w : CompleteWorld) (p : PendingRow) (store : Store)
    → Used p.challenge_id (consume h w p store)
consume-uses h w p store =
    update_where-All _ (with_challenge_id p.challenge_id) (use_challenge h w) store.challenges
      (λ c i y. ground arith) (λ c i n. ground arith)

complete_found-KeepsUsed :
    (h : Hashing) (w : CompleteWorld) (challenge : ℕ) (o : Option PendingRow) (store : Store)
    → Used challenge store
    → KeepsUsed challenge (complete_found h w o store)
complete_found-KeepsUsed h w challenge none store used = tt
complete_found-KeepsUsed h w challenge (some p) store used =
    elim (Bool-cases (may_complete w.now p store)) [
      | inr n ↦ rw n tt
      | inl y ↦ rw y (elim (Bool-cases (session_taken (new_session h w p) store)) [
        | inl t ↦ rw t tt
        | inr f ↦ rw f (consume-Used h w p challenge store used)
      ])
    ]

after-Used :
    {A : Type 0} (challenge : ℕ) (o : Outcome A) (store : Store)
    → Used challenge store
    → KeepsUsed challenge o
    → Used challenge (store_after o store)
after-Used challenge (answered _ next) store used keeps = keeps
after-Used challenge (refused _) store used keeps = used

run_call-Used :
    (h : Hashing) (c : LoginCall) (challenge : ℕ) (store : Store)
    → Used challenge store
    → Used challenge (run_call h c store)
unfolding run_call confirm_login complete_login
run_call-Used h (begin_call w) challenge store used =
    after-Used challenge (begin_login h w store) store used (
      begin-KeepsUsed h w challenge store (begin_login h w store) (begin_login-Ends h w store) used)
run_call-Used h (confirm_call w code) challenge store used = elim (Bool-cases w.allowed) [
  | inr n ↦ rw n used
  | inl y ↦ rw y (
      after-Used challenge _ store used (
        confirm_found-KeepsUsed w challenge
          (confirm_candidates w.telegram_user_id (h.hash_confirmation_code w.telegram_user_id code)
            store)
          store used))
]
run_call-Used h (complete_call w secret) challenge store used = after-Used challenge _ store used (
    complete_found-KeepsUsed h w challenge (pending_by_hash (h.hash_pending_secret secret) store)
      store used)

run_calls-Used :
    (h : Hashing) (calls : List LoginCall) (challenge : ℕ) (store : Store)
    → Used challenge store
    → Used challenge (run_calls h calls store)
unfolding run_calls
run_calls-Used h [] challenge store used = used
run_calls-Used h (c ∷ calls) challenge store used =
    run_calls-Used h calls challenge (run_call h c store) (run_call-Used h c challenge store used)

-- The pending login that a session was given for.
pub record Completed (h : Hashing) (w : CompleteWorld) (secret : ℕ) (store next : Store)
    (session : AuthenticatedSession) : Type 0 where
  pub row : PendingRow
  pub found : pending_by_hash (h.hash_pending_secret secret) store ≡ some row
  pub allowed : may_complete w.now row store ≡ true
  pub for_user : session.user_id ≡ row.user_id
  pub consumed_row : next ≡ consume h w row store

abbrev CompleteEnds : Hashing → CompleteWorld → ℕ → Store → Outcome AuthenticatedSession → Type 0
CompleteEnds h w secret store (answered session next) = Completed h w secret store next session
CompleteEnds h w secret store (refused error) = Unit

complete_found-Ends :
    (h : Hashing) (w : CompleteWorld) (secret : ℕ) (o : Option PendingRow) (store : Store)
    → pending_by_hash (h.hash_pending_secret secret) store ≡ o
    → CompleteEnds h w secret store (complete_found h w o store)
complete_found-Ends h w secret none store e = tt
complete_found-Ends h w secret (some p) store e = elim (Bool-cases (may_complete w.now p store)) [
  | inr n ↦ rw n tt
  | inl y ↦ rw y (elim (Bool-cases (session_taken (new_session h w p) store)) [
    | inl t ↦ rw t tt
    | inr f ↦
        rw f (record { row = p; found = e; allowed = y; for_user = refl; consumed_row = refl })
  ])
]

pub complete_answer :
    (h : Hashing) (w : CompleteWorld) (secret : ℕ) (store next : Store)
    (session : AuthenticatedSession)
    → complete_login h w secret store ≡ answered session next
    → Completed h w secret store next session
unfolding complete_login
complete_answer h w secret store next session e = subst (CompleteEnds h w secret store) e (
    complete_found-Ends h w secret (pending_by_hash (h.hash_pending_secret secret) store) store
      refl)

-- A challenge gives one session. A call of `complete` that answers has found the pending login of
-- its secret confirmed, in time, on an unused challenge, and gives the session to its user; and
-- after it, whatever calls follow, no pending login of that challenge meets the conditions of
-- `complete` at any time.
pub challenge_completes_once :
    (h : Hashing) (w : CompleteWorld) (secret later : ℕ) (store next : Store)
    (session : AuthenticatedSession) (calls : List LoginCall)
    → complete_login h w secret store ≡ answered session next
    → (p : PendingRow) × (pending_by_hash (h.hash_pending_secret secret) store ≡ some p)
      × (may_complete w.now p store ≡ true)
      × (session.user_id ≡ p.user_id)
      × All
          (λ q.
            (q.challenge_id == p.challenge_id) && may_complete later q (run_calls h calls next)
            ≡ false)
          (run_calls h calls next).pendings
challenge_completes_once h w secret later store next session calls e =
    let c = complete_answer h w secret store next session e in
    let p = c.row in
    let final = run_calls h calls next in
    let used : Used p.challenge_id final =
      run_calls-Used h calls p.challenge_id next (rw c.consumed_row (consume-uses h w p store)) in
    (
      p,
      c.found,
      c.allowed,
      c.for_user,
      All-tabulate _ final.pendings (λ q i. elim (Bool-cases (q.challenge_id == p.challenge_id)) [
        | inr n ↦ rw n refl
        | inl y ↦
            let shut =
              usable-Used q.challenge_id later final
                (subst (λ k. Used k final) (sym (==→eq q.challenge_id p.challenge_id y)) used) in
            rw y (ground (arith, shut))
      ]),
    )
