-- ===== src/Auth/Begun.antt =====
-- What a call of `begin` may do to the store.
use Prim.Native.Nat.{zero, suc}
use vpnplatform.Base.{
  ℕ, ◌+◌, ◌≤◌, ◌≡◌, refl, ◌⊎◌, inl, inr, Bool, true, false, Option, none, some, ◌∷◌, arith,
  Bool-cases, if◌then◌else◌, find-In, In, ◌==◌, ==→eq, subst,
}
use vpnplatform.Auth.PendingLogin.{
  awaiting_bot_confirm, ChallengeRow, PendingRow, Store, Hashing, rate_limited, Outcome, answered,
  refused, Proof, BeginWorld, BegunPendingLogin, challenge_by_launch, same_proof, challenge_open,
  new_pending, begin_checked, begin_attempt, or_retry, begin_attempts, begin_proved, begin_login,
  pending_login_ttl_ms, is_unique_violation, pending_taken,
}

-- The launch data of the call pass the check, and the limiter lets the call through.
abbrev pub Admitted : BeginWorld → Proof → Type 0
Admitted w first = (w.verify w.process_now ≡ some first) × (w.allowed ≡ true)

-- The pending login that a call answers with: awaiting the bot, for the launch's user, no longer than
-- the challenge, and with the hashes of the secret and of the code of the answer.
pub record Begun (h : Hashing) (w : BeginWorld) (store next : Store) (begun : BegunPendingLogin)
    : Type 0 where
  pub row : PendingRow
  pub challenge : ChallengeRow
  pub there : In challenge store.challenges
  pub attempt : ℕ
  pub first : Proof
  pub proof : Proof
  pub admitted : Admitted w first
  pub same : same_proof proof first ≡ true
  pub verified : w.verify (w.now attempt) ≡ some proof
  pub open_ : challenge_open proof (w.now attempt) challenge challenge.user_id store ≡ true
  pub fresh : pending_taken row store ≡ false
  pub inserted : next ≡ record store { pendings = row ∷ store.pendings }
  pub awaiting : row.status ≡ awaiting_bot_confirm
  pub telegram : row.telegram_user_id ≡ proof.id
  pub of_challenge : row.challenge_id ≡ challenge.id
  pub of_launch : challenge.launch_id ≡ first.start_param
  pub of_user : challenge.user_id ≡ some row.user_id
  pub named : row.id ≡ w.pending_id attempt
  pub material : (begun.secret ≡ w.secret attempt) × (begun.confirmation_code ≡ w.code attempt)
  pub secret_hashed : row.pending_token_hash ≡ h.hash_pending_secret begun.secret
  pub code_hashed :
      row.confirmation_code_hash
      ≡ h.hash_confirmation_code row.telegram_user_id begun.confirmation_code
  pub unused : (row.confirmed_at ≡ none) × (row.consumed_at ≡ none)
  pub created : row.created_at ≡ w.now attempt
  pub bounded :
      (row.expires_at ≤ challenge.expires_at)
      × (row.expires_at ≤ w.now attempt + pending_login_ttl_ms)
  pub ends :
      (row.expires_at ≡ challenge.expires_at)
      ⊎ (row.expires_at ≡ w.now attempt + pending_login_ttl_ms)
  pub told : begun.expires_at ≡ row.expires_at

abbrev pub BeginEnds : Hashing → BeginWorld → Store → Outcome BegunPendingLogin → Type 0
BeginEnds h w store (answered begun next) = Begun h w store next begun
BeginEnds h w store (refused error) = Unit

begin_checked-Ends :
    (h : Hashing) (w : BeginWorld) (attempt : ℕ) (first proof : Proof) (c : ChallengeRow)
    (user : Option ℕ) (store : Store)
    → Admitted w first
    → same_proof proof first ≡ true
    → In c store.challenges
    → c.launch_id ≡ first.start_param
    → c.user_id ≡ user
    → w.verify (w.now attempt) ≡ some proof
    → BeginEnds h w store (begin_checked h w attempt proof c user store)
begin_checked-Ends h w attempt first proof c none store vf same i launched bound v = tt
begin_checked-Ends h w attempt first proof c (some user) store vf same i launched bound v =
    let row = new_pending h w attempt user proof c in
    elim (Bool-cases (challenge_open proof (w.now attempt) c (some user) store)) [
      | inr n ↦ rw n tt
      | inl y ↦ rw y (elim (Bool-cases (pending_taken row store)) [
        | inl t ↦ rw t tt
        | inr f ↦ rw f (record {
          row = row;
          challenge = c;
          there = i;
          attempt = attempt;
          first = first;
          proof = proof;
          admitted = vf;
          same = same;
          verified = v;
          open_ = rw bound y;
          fresh = f;
          inserted = refl;
          awaiting = refl;
          telegram = refl;
          of_challenge = refl;
          of_launch = launched;
          of_user = bound;
          named = refl;
          material = (refl, refl);
          secret_hashed = refl;
          code_hashed = refl;
          unused = (refl, refl);
          created = refl;
          bounded = omega arith;
          ends = ground arith;
          told = refl;
        })
      ])
    ]

begin_attempt-Ends :
    (h : Hashing) (w : BeginWorld) (attempt : ℕ) (proof : Proof) (oc : Option ChallengeRow)
    (again : Option Proof) (store : Store)
    → Admitted w proof
    → challenge_by_launch proof.start_param store ≡ oc
    → w.verify (w.now attempt) ≡ again
    → BeginEnds h w store (begin_attempt h w attempt proof oc again store)
begin_attempt-Ends h w attempt proof none again store vf e v = tt
begin_attempt-Ends h w attempt proof (some c) none store vf e v = tt
begin_attempt-Ends h w attempt proof (some c) (some again) store vf e v =
    let launched = λ (x : ChallengeRow). x.launch_id == proof.start_param in
    elim (Bool-cases (same_proof again proof)) [
      | inr n ↦ rw n tt
      | inl y ↦ rw y (
          let (i, named) = find-In launched c store.challenges e in
          begin_checked-Ends h w attempt proof again c c.user_id store vf y i
            (==→eq c.launch_id proof.start_param named) refl v)
    ]

or_retry-Ends :
    (h : Hashing) (w : BeginWorld) (store : Store) (first rest : Outcome BegunPendingLogin)
    → BeginEnds h w store first
    → BeginEnds h w store rest
    → BeginEnds h w store (or_retry first rest)
or_retry-Ends h w store (answered begun next) rest a b = a
or_retry-Ends h w store (refused error) rest a b = elim (Bool-cases (is_unique_violation error)) [
  | inl y ↦ rw y b
  | inr n ↦ rw n tt
]

begin_attempts-Ends :
    (h : Hashing) (w : BeginWorld) (left : ℕ) (proof : Proof) (store : Store)
    → Admitted w proof
    → BeginEnds h w store (begin_attempts h w left proof store)
begin_attempts-Ends h w zero proof store vf = tt
begin_attempts-Ends h w (suc left) proof store vf =
    or_retry-Ends h w store _ (begin_attempts h w left proof store)
      (begin_attempt-Ends h w left proof (challenge_by_launch proof.start_param store)
        (w.verify (w.now left)) store vf refl refl)
      (begin_attempts-Ends h w left proof store vf)

limited-Ends :
    (h : Hashing) (w : BeginWorld) (store : Store) (allowed : Bool) (o : Outcome BegunPendingLogin)
    → (allowed ≡ true → BeginEnds h w store o)
    → BeginEnds h w store (if allowed then o else refused rate_limited)
limited-Ends h w store true o ends = ends refl
limited-Ends h w store false o ends = tt

begin_proved-Ends :
    (h : Hashing) (w : BeginWorld) (proof : Option Proof) (store : Store)
    → w.verify w.process_now ≡ proof
    → BeginEnds h w store (begin_proved h w proof store)
begin_proved-Ends h w none store vf = tt
begin_proved-Ends h w (some proof) store vf =
    limited-Ends h w store w.allowed _ (λ y. begin_attempts-Ends h w 5 proof store (vf, y))

pub begin_login-Ends :
    (h : Hashing) (w : BeginWorld) (store : Store) → BeginEnds h w store (begin_login h w store)
unfolding begin_login
begin_login-Ends h w store = begin_proved-Ends h w (w.verify w.process_now) store refl

-- A call of `begin` that answers was let through by the limiter, and has put one new pending login
-- into the store and changed nothing else. The login awaits the bot, for the Telegram user of the
-- launch data, which were checked at the process's time and again, with the same result, at the
-- database's. It is on the challenge of that launch, which is unused and has not expired, and for the
-- challenge's user, who has that Telegram id. It ends with the challenge or two minutes later,
-- whichever is first, as the answer says. It holds the hashes of the secret and of the code of the
-- answer, which are the material of one attempt; and no pending login had its id, its secret's hash,
-- or its code's hash for the Telegram user.
pub begin_answer :
    (h : Hashing) (w : BeginWorld) (store next : Store) (begun : BegunPendingLogin)
    → begin_login h w store ≡ answered begun next
    → Begun h w store next begun
begin_answer h w store next begun e = subst (BeginEnds h w store) e (begin_login-Ends h w store)
