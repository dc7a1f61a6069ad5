-- ===== src/Auth/Execution.antt =====
-- `BotRequestExecutionService` of apps/api/src/auth/bot-request-execution.service.ts. The operation
-- works on the tables `Data`, apart from those of credentials and executions; its responses are of
-- a type `Body`. The lock on the scope has no effect where transactions run one after another.
use vpnplatform.Base.{
  ℕ, Bool, true, false, ◌&&◌, Option, none, some, List, ◌∷◌, leb, ◌==◌, is_some, not, filter,
  length, find, any, if◌then◌else◌,
}
use vpnplatform.Orchestration.Table.{update_where}

-- What `idempotencyScope` selects; a method, a path and a key are numbers.
pub record Scope : Type 0 where
  pub principal_id : ℕ
  pub method : ℕ
  pub path : ℕ
  pub telegram_user_id : ℕ
  pub idempotency_key : ℕ

pub record BotRequest : Type 0 where
  pub credential_id : ℕ
  pub scope : Scope
  pub request_hash : ℕ

pub record CredentialRow : Type 0 where
  pub id : ℕ
  pub principal_id : ℕ
  pub revoked_at : Option ℕ

pub record ExecutionRow (Body : Type 0) : Type 0 where
  pub id : ℕ
  pub scope : Scope
  pub request_hash : ℕ
  pub response_status : Option ℕ
  pub response_body : Option Body
  pub completed_at : Option ℕ

pub record ExecutionStore (Body Data : Type 0) : Type 0 where
  pub credentials : List CredentialRow
  pub executions : List (ExecutionRow Body)
  pub tables : Data

-- `status_code` is none for a number that is not a natural one.
pub record BotOperationResponse (Body : Type 0) : Type 0 where
  pub status_code : Option ℕ
  pub body : Body

pub record BotExecutionResult (Body : Type 0) : Type 0 where
  pub status_code : ℕ
  pub body : Body
  pub replayed : Bool

-- The end of an operation: its response and its tables, or none where it throws.
pub data Operated (Body Data : Type 0) : Type 0 where
  responds : BotOperationResponse Body → Data → Operated Body Data
  throws : Operated Body Data

pub data ExecutionError : Type 0 where
  unauthorized conflict unavailable unique_violation invalid_status operation_error : ExecutionError

pub data Executed (Body Data : Type 0) : Type 0 where
  executed : BotExecutionResult Body → ExecutionStore Body Data → Executed Body Data
  failed : ExecutionError → Executed Body Data

pub record ExecutionWorld : Type 0 where
  pub new_id : ℕ
  pub now : ℕ

abbrev pub same_scope : Scope → Scope → Bool
same_scope a b =
    (a.principal_id == b.principal_id)
    && (a.method == b.method)
    && (a.path == b.path)
    && (a.telegram_user_id == b.telegram_user_id)
    && (a.idempotency_key == b.idempotency_key)

abbrev pub is_credential_of : BotRequest → CredentialRow → Bool
is_credential_of request c =
    (c.id == request.credential_id)
    && (c.principal_id == request.scope.principal_id)
    && not (is_some c.revoked_at)

abbrev pub is_authorized : BotRequest → List CredentialRow → Bool
is_authorized request rows = length (filter (is_credential_of request) rows) == 1

abbrev pub in_scope : {Body : Type 0} → Scope → ExecutionRow Body → Bool
in_scope s row = same_scope row.scope s

abbrev pub with_execution_id : {Body : Type 0} → ℕ → ExecutionRow Body → Bool
with_execution_id id row = row.id == id

abbrev pub new_execution : {Body : Type 0} → ExecutionWorld → BotRequest → ExecutionRow Body
new_execution w request = record {
  id = w.new_id;
  scope = request.scope;
  request_hash = request.request_hash;
  response_status = none;
  response_body = none;
  completed_at = none;
}

abbrev pub complete_execution :
    {Body : Type 0} → ExecutionWorld → ℕ → Body → ExecutionRow Body → ExecutionRow Body
complete_execution w status body row = record row {
  response_status = some status;
  response_body = some body;
  completed_at = some w.now;
}

-- The answer of a row that is complete.
abbrev pub stored_result :
    {Body Data : Type 0}
    → Option ℕ
    → Option Body
    → Option ℕ
    → ExecutionStore Body Data
    → Executed Body Data
stored_result (some status) (some body) (some at) store =
    executed (record { status_code = status; body = body; replayed = true }) store
stored_result none _ _ store = failed unavailable
stored_result (some status) none _ store = failed unavailable
stored_result (some status) (some body) none store = failed unavailable

abbrev pub is_http_status : ℕ → Bool
is_http_status status = leb 100 status && leb status 599

abbrev pub store_response :
    {Body Data : Type 0}
    → ExecutionWorld
    → BotRequest
    → Option ℕ
    → Body
    → Data
    → ExecutionStore Body Data
    → Executed Body Data
store_response w request none body tables store = failed invalid_status
store_response w request (some status) body tables store =
    if is_http_status status
    then executed (record { status_code = status; body = body; replayed = false })
        (record store {
          executions =
              update_where (with_execution_id w.new_id) (complete_execution w status body)
                (new_execution w request ∷ store.executions);
          tables = tables;
        })
    else failed invalid_status

abbrev pub after_operation :
    {Body Data : Type 0}
    → ExecutionWorld
    → BotRequest
    → Operated Body Data
    → ExecutionStore Body Data
    → Executed Body Data
after_operation w request throws store = failed operation_error
after_operation w request (responds response tables) store =
    store_response w request response.status_code response.body tables store

-- The primary key of the table refuses an id that is taken.
abbrev pub execute_found :
    {Body Data : Type 0}
    → ExecutionWorld
    → BotRequest
    → (Data → Operated Body Data)
    → Option (ExecutionRow Body)
    → ExecutionStore Body Data
    → Executed Body Data
execute_found w request operation (some row) store =
    if row.request_hash == request.request_hash
    then stored_result row.response_status row.response_body row.completed_at store
    else failed conflict
execute_found w request operation none store =
    if any (with_execution_id w.new_id) store.executions
    then failed unique_violation
    else after_operation w request (operation store.tables) store

unfoldable pub execute :
    {Body Data : Type 0}
    → ExecutionWorld
    → BotRequest
    → (Data → Operated Body Data)
    → ExecutionStore Body Data
    → Executed Body Data
execute w request operation store =
    if is_authorized request store.credentials
    then execute_found w request operation (find (in_scope request.scope) store.executions) store
    else failed unauthorized
