-- ===== src/Auth/PendingLogin.antt =====
-- `PendingLoginService` of apps/api/src/auth/pending-login.service.ts. Texts are numbers; the HMAC
-- of node:crypto, the check of the signed launch data and the rate limiter are parameters. A
-- transaction that throws is rolled back; the execution of the bot request around
-- `confirm` is modelled apart, in Execution, and replies are not checked against their schemas.
use Prim.Native.Nat.{zero, suc}
use vpnplatform.Base.{
  ℕ, ◌+◌, min, Bool, true, false, ◌&&◌, ◌||◌, not, Option, none, some, List, ◌∷◌, ltb, ◌==◌,
  is_some, find, any, if◌then◌else◌,
}

abbrev pub pending_login_ttl_ms : ℕ
pending_login_ttl_ms = 120000

abbrev pub pending_material_generation_attempts : ℕ
pending_material_generation_attempts = 5

pub data PendingStatus : Type 0 where
  awaiting_bot_confirm bot_confirmed consumed : PendingStatus

pub record UserRow : Type 0 where
  pub id : ℕ
  pub telegram_user_id : ℕ

pub record ChallengeRow : Type 0 where
  pub id : ℕ
  pub launch_id : ℕ
  pub user_id : Option ℕ
  pub session_id : Option ℕ
  pub telegram_replay_hash : Option ℕ
  pub expires_at : ℕ
  pub consumed_at : Option ℕ

pub record PendingRow : Type 0 where
  pub id : ℕ
  pub challenge_id : ℕ
  pub user_id : ℕ
  pub telegram_user_id : ℕ
  pub pending_token_hash : ℕ
  pub confirmation_code_hash : ℕ
  pub status : PendingStatus
  pub expires_at : ℕ
  pub confirmed_at : Option ℕ
  pub consumed_at : Option ℕ
  pub created_at : ℕ

pub record SessionRow : Type 0 where
  pub id : ℕ
  pub user_id : ℕ
  pub token_hash : ℕ
  pub telegram_replay_hash : ℕ
  pub expires_at : ℕ

pub record Store : Type 0 where
  pub users : List UserRow
  pub challenges : List ChallengeRow
  pub pendings : List PendingRow
  pub sessions : List SessionRow

-- The hashes under the pepper of the environment.
pub record Hashing : Type 0 where
  pub hash_pending_secret : (secret : ℕ) → ℕ
  pub hash_confirmation_code : (telegram_user_id code : ℕ) → ℕ
  pub hash_session_secret : (secret : ℕ) → ℕ
  pub hash_challenge : (challenge : ℕ) → ℕ

pub data LoginError : Type 0 where
  login_unavailable invalid_init_data rate_limited invalid_login unique_violation : LoginError

-- The end of a call: its answer and the store, or the error it throws.
pub data Outcome (A : Type 0) : Type 0 where
  answered : A → Store → Outcome A
  refused : LoginError → Outcome A

pub record Proof : Type 0 where
  pub id : ℕ
  pub replay_key : ℕ
  pub start_param : ℕ

-- What `begin` meets: the check of its launch data at a time, the limiter, the process's and the
-- database's clocks, and the material of each attempt, by the number of attempts after it.
pub record BeginWorld : Type 0 where
  pub verify : ℕ → Option Proof
  pub allowed : Bool
  pub process_now : ℕ
  pub now : ℕ → ℕ
  pub secret : ℕ → ℕ
  pub code : ℕ → ℕ
  pub pending_id : ℕ → ℕ

pub record BegunPendingLogin : Type 0 where
  pub confirmation_code : ℕ
  pub expires_at : ℕ
  pub secret : ℕ

abbrev pub challenge_by_launch : ℕ → Store → Option ChallengeRow
challenge_by_launch launch store =
    find (λ (c : ChallengeRow). c.launch_id == launch) store.challenges

abbrev pub challenge_by_id : ℕ → Store → Option ChallengeRow
challenge_by_id id store = find (λ (c : ChallengeRow). c.id == id) store.challenges

abbrev pub is_user : ℕ → ℕ → UserRow → Bool
is_user id telegram u = (u.id == id) && (u.telegram_user_id == telegram)

abbrev pub same_proof : Proof → Proof → Bool
same_proof a b =
    (a.id == b.id) && (a.replay_key == b.replay_key) && (a.start_param == b.start_param)

-- The challenge is bound to the user of the proof, unused, and has not expired.
abbrev pub challenge_open : Proof → ℕ → ChallengeRow → Option ℕ → Store → Bool
challenge_open proof now c none store = false
challenge_open proof now c (some user) store =
    any (is_user user proof.id) store.users && not (is_some c.consumed_at) && ltb now c.expires_at

abbrev pub new_pending : Hashing → BeginWorld → ℕ → ℕ → Proof → ChallengeRow → PendingRow
new_pending h w attempt user proof c = record {
  id = w.pending_id attempt;
  challenge_id = c.id;
  user_id = user;
  telegram_user_id = proof.id;
  pending_token_hash = h.hash_pending_secret (w.secret attempt);
  confirmation_code_hash = h.hash_confirmation_code proof.id (w.code attempt);
  status = awaiting_bot_confirm;
  expires_at = min c.expires_at (w.now attempt + pending_login_ttl_ms);
  confirmed_at = none;
  consumed_at = none;
  created_at = w.now attempt;
}

-- A unique constraint of the table, or its primary key, refuses the row.
abbrev pub pending_taken : PendingRow → Store → Bool
pending_taken p store =
    any
      (λ (q : PendingRow).
        (q.id == p.id)
        || (q.pending_token_hash == p.pending_token_hash)
        || ((q.telegram_user_id == p.telegram_user_id)
            && (q.confirmation_code_hash == p.confirmation_code_hash)))
      store.pendings

abbrev pub insert_pending : BeginWorld → ℕ → PendingRow → Store → Outcome BegunPendingLogin
insert_pending w attempt p store =
    if pending_taken p store
    then refused unique_violation
    else answered
        (record {
          confirmation_code = w.code attempt;
          expires_at = p.expires_at;
          secret = w.secret attempt;
        })
        (record store { pendings = p ∷ store.pendings })

abbrev pub begin_checked :
    Hashing → BeginWorld → ℕ → Proof → ChallengeRow → Option ℕ → Store → Outcome BegunPendingLogin
begin_checked h w attempt proof c none store = refused invalid_init_data
begin_checked h w attempt proof c (some user) store =
    if challenge_open proof (w.now attempt) c (some user) store
    then insert_pending w attempt (new_pending h w attempt user proof c) store
    else refused invalid_init_data

-- One transaction, on the challenge and on the proof at the time of the database.
abbrev pub begin_attempt :
    Hashing
    → BeginWorld
    → ℕ
    → Proof
    → Option ChallengeRow
    → Option Proof
    → Store
    → Outcome BegunPendingLogin
begin_attempt h w attempt proof none again store = refused invalid_init_data
begin_attempt h w attempt proof (some c) none store = refused invalid_init_data
begin_attempt h w attempt proof (some c) (some again) store =
    if same_proof again proof
    then begin_checked h w attempt again c c.user_id store
    else refused invalid_init_data

abbrev pub is_unique_violation : LoginError → Bool
is_unique_violation unique_violation = true
is_unique_violation _ = false

-- A violated constraint leads to the next attempt, if one is left.
abbrev pub or_retry :
    Outcome BegunPendingLogin → Outcome BegunPendingLogin → Outcome BegunPendingLogin
or_retry (answered begun next) rest = answered begun next
or_retry (refused error) rest = if is_unique_violation error then rest else refused error

abbrev pub begin_attempts :
    Hashing → BeginWorld → (left : ℕ) → Proof → Store → Outcome BegunPendingLogin
begin_attempts h w zero proof store = refused login_unavailable
begin_attempts h w (suc left) proof store =
    or_retry
      (begin_attempt h w left proof (challenge_by_launch proof.start_param store)
        (w.verify (w.now left)) store)
      (begin_attempts h w left proof store)

abbrev pub begin_proved : Hashing → BeginWorld → Option Proof → Store → Outcome BegunPendingLogin
begin_proved h w none store = refused invalid_init_data
begin_proved h w (some proof) store =
    if w.allowed
    then begin_attempts h w pending_material_generation_attempts proof store
    else refused rate_limited

unfoldable pub begin_login : Hashing → BeginWorld → Store → Outcome BegunPendingLogin
begin_login h w store = begin_proved h w (w.verify w.process_now) store
