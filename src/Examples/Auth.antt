-- ===== src/Examples/Auth.antt =====
-- A login at concrete inputs: the user 1 with Telegram id 7, and the launch 30 of challenge 20.
use vpnplatform.Base.{
  ℕ, ◌+◌, ◌*◌, ◌≡◌, refl, false, true, ◌&&◌, none, some, List, [], ◌∷◌, ◌==◌, All,
}
use vpnplatform.Auth.Execution.{
  BotRequest, ExecutionRow, ExecutionStore, BotExecutionResult, Operated, responds, ExecutionWorld,
  executed, execute,
}
use vpnplatform.Auth.Replay.{change_tables, run_bot_calls, replay_answer, execute_once}
use vpnplatform.Auth.PendingLogin.{
  PendingRow, Store, Hashing, answered, BeginWorld, BegunPendingLogin, begin_login,
}
use vpnplatform.Auth.Completion.{
  ConfirmWorld, CompleteWorld, AuthenticatedSession, pending_by_hash, may_complete, confirm_login,
  complete_login,
}
use vpnplatform.Auth.Calls.{LoginCall, begin_call, confirm_call, run_call, run_calls, store_after}
use vpnplatform.Auth.Begun.{Begun, begin_answer}
use vpnplatform.Auth.SingleUse.{challenge_completes_once}
use vpnplatform.Auth.Confirmed.{Vouched, session_needs_bot}

abbrev hashing : Hashing
hashing = record {
  hash_pending_secret = λ secret. secret + 1;
  hash_confirmation_code = λ telegram code. 100 * telegram + code;
  hash_session_secret = λ secret. secret + 2;
  hash_challenge = λ challenge. challenge + 3;
}

abbrev start : Store
start = record {
  users = record { id = 1; telegram_user_id = 7 } ∷ [];
  challenges =
      record {
        id = 20;
        launch_id = 30;
        user_id = some 1;
        session_id = none;
        telegram_replay_hash = none;
        expires_at = 900_000;
        consumed_at = none;
      }
      ∷ [];
  pendings = [];
  sessions = [];
}

abbrev begin_world : BeginWorld
begin_world = record {
  verify = λ now. some (record { id = 7; replay_key = 8; start_param = 30 });
  allowed = true;
  process_now = 10;
  now = λ attempt. 11;
  secret = λ attempt. 50 + attempt;
  code = λ attempt. 60 + attempt;
  pending_id = λ attempt. 70 + attempt;
}

abbrev begun : BegunPendingLogin
begun = record { confirmation_code = 64; expires_at = 120_011; secret = 54 }

abbrev pending_store : Store
pending_store = store_after (begin_login hashing begin_world start) start

begins : begin_login hashing begin_world start ≡ answered begun pending_store
unfolding begin_login
begins = refl

begin_answer_example : Begun hashing begin_world start pending_store begun
begin_answer_example = begin_answer hashing begin_world start pending_store begun begins

abbrev confirm_world : ConfirmWorld
confirm_world = record { telegram_user_id = 7; allowed = true; now = 20 }

abbrev complete_world : CompleteWorld
complete_world = record {
  now = 30;
  session_secret = 80;
  session_id = 90;
  auth_session_ttl_seconds = 60;
}

abbrev calls : List LoginCall
calls = begin_call begin_world ∷ confirm_call confirm_world 64 ∷ []

abbrev confirmed_store : Store
confirmed_store = run_calls hashing calls start

abbrev session : AuthenticatedSession
session = record { user_id = 1; expires_at = 60_030 }

abbrev completed_store : Store
completed_store =
    store_after (complete_login hashing complete_world 54 confirmed_store) confirmed_store

completes :
    complete_login hashing complete_world 54 confirmed_store ≡ answered session completed_store
unfolding complete_login run_calls run_call confirm_login begin_login
completes = refl

challenge_completes_once_example :
    (p : PendingRow) × (pending_by_hash 55 confirmed_store ≡ some p)
    × (may_complete 30 p confirmed_store ≡ true)
    × (1 ≡ p.user_id)
    × All
        (λ q.
          (q.challenge_id == p.challenge_id)
            && may_complete 40 q (run_calls hashing calls completed_store)
          ≡ false)
        (run_calls hashing calls completed_store).pendings
challenge_completes_once_example =
    challenge_completes_once hashing complete_world 54 40 confirmed_store completed_store session
      calls completes

session_needs_bot_example :
    (p : PendingRow) × (p.pending_token_hash ≡ 55) × (1 ≡ p.user_id) × Vouched hashing calls p
session_needs_bot_example =
    session_needs_bot hashing complete_world 54 start completed_store session calls refl completes

abbrev request : BotRequest
request = record {
  credential_id = 4;
  scope = record {
    principal_id = 3;
    method = 1;
    path = 2;
    telegram_user_id = 50;
    idempotency_key = 8;
  };
  request_hash = 77;
}

-- The tables are a number that the operation increments.
abbrev count_up : ℕ → Operated ℕ ℕ
count_up n = responds (record { status_code = some 200; body = n }) (n + 1)

abbrev execution_store : ExecutionStore ℕ ℕ
execution_store = record {
  credentials = record { id = 4; principal_id = 3; revoked_at = none } ∷ [];
  executions = [];
  tables = 5;
}

abbrev execution_world : ExecutionWorld
execution_world = record { new_id = 12; now = 30 }

abbrev later_world : ExecutionWorld
later_world = record { new_id = 13; now = 90 }

abbrev executed_row : ExecutionRow ℕ
executed_row = record {
  id = 12;
  scope = request.scope;
  request_hash = 77;
  response_status = some 200;
  response_body = some 5;
  completed_at = some 30;
}

abbrev executed_store : ExecutionStore ℕ ℕ
executed_store = record execution_store { executions = executed_row ∷ []; tables = 6 }

abbrev first_result : BotExecutionResult ℕ
first_result = record { status_code = 200; body = 5; replayed = false }

runs_once :
    execute execution_world request count_up execution_store ≡ executed first_result executed_store
unfolding execute
runs_once = refl

replays_it :
    execute later_world request count_up (record executed_store { tables = 9 })
    ≡ executed (record first_result { replayed = true }) (record executed_store { tables = 9 })
unfolding execute
replays_it = refl

execute_once_example :
    execute later_world request count_up (run_bot_calls (change_tables 9 ∷ []) executed_store)
    ≡ replay_answer request 77 first_result (run_bot_calls (change_tables 9 ∷ []) executed_store)
execute_once_example =
    execute_once execution_world later_world request request count_up count_up execution_store
      executed_store first_result (change_tables 9 ∷ []) runs_once refl
