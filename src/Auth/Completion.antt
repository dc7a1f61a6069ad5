-- ===== src/Auth/Completion.antt =====
-- `confirm` and `complete` of apps/api/src/auth/pending-login.service.ts.
use vpnplatform.Base.{
  ℕ, ◌+◌, ◌*◌, Bool, true, false, ◌&&◌, ◌||◌, not, Option, none, some, List, [], ◌∷◌, ltb, ◌==◌,
  is_some, filter, find, any, if◌then◌else◌,
}
use vpnplatform.Base.Sort.{sort_by}
use vpnplatform.Orchestration.Table.{update_where}
use vpnplatform.Auth.PendingLogin.{
  PendingStatus, awaiting_bot_confirm, bot_confirmed, consumed, ChallengeRow, PendingRow,
  SessionRow, Store, Hashing, invalid_login, rate_limited, unique_violation, Outcome, answered,
  refused, challenge_by_id, is_user,
}

-- The bot's request, authenticated, with the verdict of the limiter and the database's clock.
pub record ConfirmWorld : Type 0 where
  pub telegram_user_id : ℕ
  pub allowed : Bool
  pub now : ℕ

abbrev pub is_awaiting : PendingStatus → Bool
is_awaiting awaiting_bot_confirm = true
is_awaiting _ = false

abbrev pub is_confirmed : PendingStatus → Bool
is_confirmed bot_confirmed = true
is_confirmed _ = false

abbrev pub is_confirm_candidate : ℕ → ℕ → PendingRow → Bool
is_confirm_candidate telegram hash p =
    (p.telegram_user_id == telegram) && (p.confirmation_code_hash == hash) && is_awaiting p.status

abbrev pub created_later : PendingRow → PendingRow → Bool
created_later left right = ltb right.created_at left.created_at

abbrev pub confirm_candidates : ℕ → ℕ → Store → List PendingRow
confirm_candidates telegram hash store =
    sort_by created_later (filter (is_confirm_candidate telegram hash) store.pendings)

-- The challenge has neither expired nor been used.
abbrev pub challenge_usable : ℕ → Option ChallengeRow → Bool
challenge_usable now none = false
challenge_usable now (some c) = ltb now c.expires_at && not (is_some c.consumed_at)

abbrev pub mark_confirmed : ℕ → PendingRow → PendingRow
mark_confirmed now p = record p { status = bot_confirmed; confirmed_at = some now }

abbrev pub with_pending_id : ℕ → PendingRow → Bool
with_pending_id id p = p.id == id

-- The case of exactly one candidate.
abbrev pub confirm_found : ConfirmWorld → List PendingRow → Store → Outcome PendingStatus
confirm_found w [] store = refused invalid_login
confirm_found w (p ∷ q ∷ rest) store = refused invalid_login
confirm_found w (p ∷ []) store =
    if (p.telegram_user_id == w.telegram_user_id)
      && ltb w.now p.expires_at
      && challenge_usable w.now (challenge_by_id p.challenge_id store)
    then answered bot_confirmed (record store {
      pendings = update_where (with_pending_id p.id) (mark_confirmed w.now) store.pendings;
    })
    else refused invalid_login

unfoldable pub confirm_login : Hashing → ConfirmWorld → (code : ℕ) → Store → Outcome PendingStatus
unfolding sort_by
confirm_login h w code store =
    if w.allowed
    then confirm_found w
        (confirm_candidates w.telegram_user_id (h.hash_confirmation_code w.telegram_user_id code)
          store)
        store
    else refused rate_limited

-- The database's clock, the new session's secret and id, and the lifetime of sessions.
pub record CompleteWorld : Type 0 where
  pub now : ℕ
  pub session_secret : ℕ
  pub session_id : ℕ
  pub auth_session_ttl_seconds : ℕ

pub record AuthenticatedSession : Type 0 where
  pub user_id : ℕ
  pub expires_at : ℕ

abbrev pub pending_by_hash : ℕ → Store → Option PendingRow
pending_by_hash hash store = find (λ (p : PendingRow). p.pending_token_hash == hash) store.pendings

abbrev pub new_session : Hashing → CompleteWorld → PendingRow → SessionRow
new_session h w p = record {
  id = w.session_id;
  user_id = p.user_id;
  token_hash = h.hash_session_secret w.session_secret;
  telegram_replay_hash = h.hash_challenge p.challenge_id;
  expires_at = w.now + w.auth_session_ttl_seconds * 1000;
}

abbrev pub session_taken : SessionRow → Store → Bool
session_taken s store =
    any
      (λ (t : SessionRow).
        (t.token_hash == s.token_hash) || (t.telegram_replay_hash == s.telegram_replay_hash))
      store.sessions

abbrev pub mark_consumed : ℕ → PendingRow → PendingRow
mark_consumed now p = record p { status = consumed; consumed_at = some now }

abbrev pub use_challenge : Hashing → CompleteWorld → ChallengeRow → ChallengeRow
use_challenge h w c = record c {
  telegram_replay_hash = some (h.hash_challenge c.id);
  session_id = some w.session_id;
  consumed_at = some w.now;
}

abbrev pub with_challenge_id : ℕ → ChallengeRow → Bool
with_challenge_id id c = c.id == id

abbrev pub consume : Hashing → CompleteWorld → PendingRow → Store → Store
consume h w p store = record store {
  sessions = new_session h w p ∷ store.sessions;
  pendings = update_where (with_pending_id p.id) (mark_consumed w.now) store.pendings;
  challenges = update_where (with_challenge_id p.challenge_id) (use_challenge h w) store.challenges;
}

-- The conditions on the pending login.
abbrev pub may_complete : ℕ → PendingRow → Store → Bool
may_complete now p store =
    is_confirmed p.status
    && ltb now p.expires_at
    && challenge_usable now (challenge_by_id p.challenge_id store)
    && any (is_user p.user_id p.telegram_user_id) store.users

abbrev pub complete_found :
    Hashing → CompleteWorld → Option PendingRow → Store → Outcome AuthenticatedSession
complete_found h w none store = refused invalid_login
complete_found h w (some p) store =
    if may_complete w.now p store
    then if session_taken (new_session h w p) store
      then refused unique_violation
      else answered
          (record { user_id = p.user_id; expires_at = w.now + w.auth_session_ttl_seconds * 1000 })
          (consume h w p store)
    else refused invalid_login

unfoldable pub complete_login :
    Hashing → CompleteWorld → (secret : ℕ) → Store → Outcome AuthenticatedSession
complete_login h w secret store =
    complete_found h w (pending_by_hash (h.hash_pending_secret secret) store) store
