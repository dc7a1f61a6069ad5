-- ===== src/Auth/Confirmed.antt =====
-- No session without the bot: what a confirmed pending login owes to the calls before it.
use vpnplatform.Base.{
  ℕ, ◌≡◌, refl, ◌⊎◌, inl, inr, true, false, ◌&&◌, Option, none, some, List, [], ◌∷◌, arith, ltb,
  ◌==◌, filter, find-In, In, In-filter, All, In-All, All-tabulate, subst, sym, Bool-cases, ==→eq,
  Nodup, elem, map, any, ◌||◌,
}
use vpnplatform.Base.Sort.{In-sort_by}
use vpnplatform.Orchestration.Table.{update_where, update_where-All, map-update_where, In-unique}
use vpnplatform.Auth.PendingLogin.{
  PendingRow, Store, Hashing, Outcome, answered, refused, challenge_by_id, BeginWorld,
  BegunPendingLogin, begin_login,
}
use vpnplatform.Auth.Completion.{
  ConfirmWorld, CompleteWorld, AuthenticatedSession, is_confirmed, is_confirm_candidate,
  created_later, confirm_candidates, confirm_found, confirm_login, challenge_usable, mark_confirmed,
  mark_consumed, with_pending_id, pending_by_hash, may_complete, new_session, session_taken,
  complete_found, complete_login,
}
use vpnplatform.Auth.Calls.{
  LoginCall, begin_call, confirm_call, complete_call, store_after, run_call, run_calls,
}
use vpnplatform.Auth.Begun.{BeginEnds, begin_login-Ends}
use vpnplatform.Auth.SingleUse.{complete_answer}

-- Among the calls, the bot confirmed the pending login's code for its Telegram user.
abbrev pub Vouched : Hashing → List LoginCall → PendingRow → Type 0
Vouched h calls p =
    (w : ConfirmWorld) × (code : ℕ) × In (confirm_call w code) calls
    × (w.telegram_user_id ≡ p.telegram_user_id)
    × (h.hash_confirmation_code p.telegram_user_id code ≡ p.confirmation_code_hash)

-- If it is confirmed at all.
abbrev Owed : Hashing → List LoginCall → PendingRow → Type 0
Owed h calls p = (is_confirmed p.status ≡ false) ⊎ Vouched h calls p

abbrev pub pending_id_of : PendingRow → ℕ
pending_id_of p = p.id

-- The pending logins have different ids, and each that is confirmed is vouched for.
abbrev AllOwed : Hashing → List LoginCall → List PendingRow → Type 0
AllOwed h calls rows = All (Owed h calls) rows × Nodup (map pending_id_of rows)

abbrev OwedAfter : {A : Type 0} → Hashing → List LoginCall → Outcome A → Type 0
OwedAfter h calls (answered _ next) = AllOwed h calls next.pendings
OwedAfter h calls (refused _) = Unit

fresh_id :
    (p : PendingRow) (rows : List PendingRow) (store : Store)
    → store.pendings ≡ rows
    → any
        (λ (q : PendingRow).
          (q.id == p.id)
          || (q.pending_token_hash == p.pending_token_hash)
          || ((q.telegram_user_id == p.telegram_user_id)
              && (q.confirmation_code_hash == p.confirmation_code_hash)))
        rows
      ≡ false
    → elem p.id (map pending_id_of rows) ≡ false
fresh_id p [] store e h = refl
fresh_id p (q ∷ rows) store e h =
    ground (arith, fresh_id p rows (record store { pendings = rows }) refl)

module _ (h : Hashing) (calls : List LoginCall) where
  after-Owed :
      {A : Type 0} (o : Outcome A) (store : Store)
      → AllOwed h calls store.pendings
      → OwedAfter h calls o
      → AllOwed h calls (store_after o store).pendings
  after-Owed (answered _ next) store all_owed keeps = keeps
  after-Owed (refused _) store all_owed keeps = all_owed

  begin-Owed :
      (w : BeginWorld) (store : Store) (o : Outcome BegunPendingLogin)
      → BeginEnds h w store o
      → AllOwed h calls store.pendings
      → OwedAfter h calls o
  begin-Owed w store (refused error) ends all_owed = tt
  begin-Owed w store (answered begun next) ends (owed, uniq) =
      subst (λ (s : Store). AllOwed h calls s.pendings) (sym ends.inserted)
        (
          (inl (ground (arith, ends.awaiting)), owed),
          (fresh_id ends.row store.pendings store refl ends.fresh, uniq),
        )

  -- A statement on one row, by its id, that owes nothing new.
  update-Owed :
      (id : ℕ) (f : PendingRow → PendingRow) (rows : List PendingRow)
      → ((r : PendingRow) → (f r).id ≡ r.id)
      → ((r : PendingRow) → In r rows → (r.id == id) ≡ true → Owed h calls (f r))
      → AllOwed h calls rows
      → AllOwed h calls (update_where (with_pending_id id) f rows)
  update-Owed id f rows same hit (owed, uniq) = (
    update_where-All (Owed h calls) (with_pending_id id) f rows hit
        (λ r i other. In-All (Owed h calls) r rows owed i),
    subst Nodup (sym (map-update_where pending_id_of (with_pending_id id) f rows same)) uniq,
  )

  -- The candidate of a confirmation has the code and the user of the call.
  confirm_found-Owed :
      (w : ConfirmWorld) (code : ℕ) (found : List PendingRow) (store : Store)
      → In (confirm_call w code) calls
      → ((p : PendingRow)
          → In p found
          → In p store.pendings
            × (is_confirm_candidate w.telegram_user_id
                  (h.hash_confirmation_code w.telegram_user_id code)
                  p
                ≡ true))
      → AllOwed h calls store.pendings
      → OwedAfter h calls (confirm_found w found store)
  confirm_found-Owed w code [] store called fits all_owed = tt
  confirm_found-Owed w code (p ∷ q ∷ rest) store called fits all_owed = tt
  confirm_found-Owed w code (p ∷ []) store called fits all_owed =
      let (there, fit) = fits p (inl refl) in
      let telegram : w.telegram_user_id ≡ p.telegram_user_id = ground arith in
      let hashed : h.hash_confirmation_code w.telegram_user_id code ≡ p.confirmation_code_hash =
        ground arith in
      let vouched : Vouched h calls p = (
        w,
        code,
        called,
        telegram,
        subst (λ t. h.hash_confirmation_code t code ≡ p.confirmation_code_hash) telegram hashed,
      ) in
      elim (Bool-cases (
        (p.telegram_user_id == w.telegram_user_id)
        && ltb w.now p.expires_at
        && challenge_usable w.now (challenge_by_id p.challenge_id store))) [
          | inr n ↦ rw n tt
          | inl y ↦ rw y (
              update-Owed p.id (mark_confirmed w.now) store.pendings (λ r. refl)
                (λ r i same.
                  let one =
                    In-unique pending_id_of p r store.pendings all_owed.1 there i
                      (sym (==→eq r.id p.id same)) in
                  inr (subst (Vouched h calls) one vouched))
                all_owed)
        ]

  complete_found-Owed :
      (w : CompleteWorld) (o : Option PendingRow) (store : Store)
      → AllOwed h calls store.pendings
      → OwedAfter h calls (complete_found h w o store)
  complete_found-Owed w none store all_owed = tt
  complete_found-Owed w (some p) store all_owed = elim (Bool-cases (may_complete w.now p store)) [
    | inr n ↦ rw n tt
    | inl y ↦ rw y (elim (Bool-cases (session_taken (new_session h w p) store)) [
      | inl t ↦ rw t tt
      | inr f ↦ rw f (
          update-Owed p.id (mark_consumed w.now) store.pendings (λ r. refl) (λ r i same. inl refl)
            all_owed)
    ])
  ]

  run_call-Owed :
      (c : LoginCall) (store : Store)
      → In c calls
      → AllOwed h calls store.pendings
      → AllOwed h calls (run_call h c store).pendings
  unfolding run_call confirm_login complete_login
  run_call-Owed (begin_call w) store called owed =
      after-Owed (begin_login h w store) store owed
        (begin-Owed w store (begin_login h w store) (begin_login-Ends h w store) owed)
  run_call-Owed (confirm_call w code) store called owed =
      let hash = h.hash_confirmation_code w.telegram_user_id code in
      let p = is_confirm_candidate w.telegram_user_id hash in
      elim (Bool-cases w.allowed) [
        | inr n ↦ rw n owed
        | inl y ↦ rw y (
            after-Owed _ store owed (
              confirm_found-Owed w code (confirm_candidates w.telegram_user_id hash store) store
                called
                (λ r i.
                  In-filter p r store.pendings
                    ((In-sort_by created_later r (filter p store.pendings)).0 i))
                owed))
      ]
  run_call-Owed (complete_call w secret) store called owed =
      after-Owed _ store owed
        (complete_found-Owed w (pending_by_hash (h.hash_pending_secret secret) store) store owed)

  run_calls-Owed :
      (todo : List LoginCall) (store : Store)
      → All (λ c. In c calls) todo
      → AllOwed h calls store.pendings
      → AllOwed h calls (run_calls h todo store).pendings
  unfolding run_calls
  run_calls-Owed [] store within owed = owed
  run_calls-Owed (c ∷ todo) store within owed =
      run_calls-Owed todo (run_call h c store) within.1 (run_call-Owed c store within.0 owed)

-- No session without the bot. Where a store without pending logins has seen some calls, a call of
-- `complete` that answers has found, by its secret, a pending login of the session's user, and
-- among those calls is a confirmation by the bot for the Telegram user of that login, with a code
-- that has the login's hash.
pub session_needs_bot :
    (h : Hashing) (w : CompleteWorld) (secret : ℕ) (start next : Store)
    (session : AuthenticatedSession) (calls : List LoginCall)
    → start.pendings ≡ []
    → complete_login h w secret (run_calls h calls start) ≡ answered session next
    → (p : PendingRow) × (p.pending_token_hash ≡ h.hash_pending_secret secret)
      × (session.user_id ≡ p.user_id)
      × Vouched h calls p
session_needs_bot h w secret start next session calls clean e =
    let seen = run_calls h calls start in
    let c = complete_answer h w secret seen next session e in
    let named = λ (q : PendingRow). q.pending_token_hash == h.hash_pending_secret secret in
    let (there, y) = find-In named c.row seen.pendings c.found in
    let (owed, _) =
      run_calls-Owed h calls calls start (All-tabulate _ calls (λ k i. i))
        (subst (AllOwed h calls) (sym clean) (tt, tt)) in
    (
      c.row,
      ==→eq c.row.pending_token_hash (h.hash_pending_secret secret) y,
      c.for_user,
      elim (In-All (Owed h calls) c.row seen.pendings owed there) [
        | inl never ↦ absurd (ground (arith, never, c.allowed))
        | inr vouched ↦ vouched
      ],
    )
