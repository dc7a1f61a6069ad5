-- ===== src/Auth/Replay.antt =====
-- The replay of bot requests.
use vpnplatform.Base.{
  ℕ, ◌≡◌, refl, sym, subst, inl, inr, true, List, [], ◌∷◌, ◌==◌, find, Bool-cases, if◌then◌else◌,
}
use vpnplatform.Auth.Execution.{
  Scope, BotRequest, CredentialRow, ExecutionStore, BotExecutionResult, Operated, ExecutionWorld,
  Executed, executed, failed, conflict, unauthorized, execute, execute_found, in_scope,
  is_authorized,
}
use vpnplatform.Auth.Recorded.{Kept, ExecuteEnds, execute-Ends, Grown-Kept}

-- What happens to the store: an execution, or any other change to the credentials or the tables.
pub data BotCall (Body Data : Type 0) : Type 0 where
  execute_call : ExecutionWorld → BotRequest → (Data → Operated Body Data) → BotCall Body Data
  change_credentials : List CredentialRow → BotCall Body Data
  change_tables : Data → BotCall Body Data

module _ {Body Data : Type 0} where
  abbrev pub store_after_execution :
      Executed Body Data → ExecutionStore Body Data → ExecutionStore Body Data
  store_after_execution (executed _ next) store = next
  store_after_execution (failed _) store = store

  unfoldable pub run_bot_call :
      BotCall Body Data → ExecutionStore Body Data → ExecutionStore Body Data
  run_bot_call (execute_call w request operation) store =
      store_after_execution (execute w request operation store) store
  run_bot_call (change_credentials rows) store = record store { credentials = rows }
  run_bot_call (change_tables tables) store = record store { tables = tables }

  unfoldable pub run_bot_calls :
      List (BotCall Body Data) → ExecutionStore Body Data → ExecutionStore Body Data
  run_bot_calls [] store = store
  run_bot_calls (c ∷ calls) store = run_bot_calls calls (run_bot_call c store)

  after_execution-Kept :
      (s : Scope) (hash : ℕ) (result : BotExecutionResult Body) (r : BotRequest)
      (o : Executed Body Data) (store : ExecutionStore Body Data)
      → ExecuteEnds r store.executions o
      → Kept s hash result store.executions
      → Kept s hash result (store_after_execution o store).executions
  unfolding ExecuteEnds
  after_execution-Kept s hash result r (failed e) store ends kept = kept
  after_execution-Kept s hash result r (executed res next) store ends kept =
      Grown-Kept s hash result store.executions next.executions ends.1 kept

  run_bot_call-Kept :
      (s : Scope) (hash : ℕ) (result : BotExecutionResult Body) (c : BotCall Body Data)
      (store : ExecutionStore Body Data)
      → Kept s hash result store.executions
      → Kept s hash result (run_bot_call c store).executions
  unfolding run_bot_call
  run_bot_call-Kept s hash result (execute_call w r operation) store kept =
      after_execution-Kept s hash result r (execute w r operation store) store
        (execute-Ends w r operation store) kept
  run_bot_call-Kept s hash result (change_credentials rows) store kept = kept
  run_bot_call-Kept s hash result (change_tables tables) store kept = kept

  run_bot_calls-Kept :
      (s : Scope) (hash : ℕ) (result : BotExecutionResult Body) (calls : List (BotCall Body Data))
      (store : ExecutionStore Body Data)
      → Kept s hash result store.executions
      → Kept s hash result (run_bot_calls calls store).executions
  unfolding run_bot_calls
  run_bot_calls-Kept s hash result [] store kept = kept
  run_bot_calls-Kept s hash result (c ∷ calls) store kept =
      run_bot_calls-Kept s hash result calls (run_bot_call c store)
        (run_bot_call-Kept s hash result c store kept)

  -- The answer to a request whose scope has a complete row with this hash and result.
  abbrev pub replay_answer :
      BotRequest
      → (hash : ℕ) → BotExecutionResult Body
      → ExecutionStore Body Data
      → Executed Body Data
  replay_answer r hash result store =
      if is_authorized r store.credentials
      then if hash == r.request_hash
        then executed (record result { replayed = true }) store
        else failed conflict
      else failed unauthorized

  found-Kept :
      (w : ExecutionWorld) (r : BotRequest) (operation : Data → Operated Body Data) (hash : ℕ)
      (result : BotExecutionResult Body) (store : ExecutionStore Body Data)
      → Kept r.scope hash result store.executions
      → execute_found w r operation (find (in_scope r.scope) store.executions) store ≡ (
          if hash == r.request_hash
          then executed (record result { replayed = true }) store
          else failed conflict)
  found-Kept w r operation hash result store (row, at, found, same, status, body, done) =
      rw (found, same, status, body, done) refl

  execute-Kept :
      (w : ExecutionWorld) (r : BotRequest) (operation : Data → Operated Body Data) (hash : ℕ)
      (result : BotExecutionResult Body) (store : ExecutionStore Body Data)
      → Kept r.scope hash result store.executions
      → execute w r operation store ≡ replay_answer r hash result store
  unfolding execute
  execute-Kept w r operation hash result store kept =
      elim (Bool-cases (is_authorized r store.credentials)) [
        | inl y ↦ rw y (found-Kept w r operation hash result store kept)
        | inr n ↦ rw n refl
      ]

  -- A request of the bot is executed once. Once a request has been answered, whatever executions
  -- and other changes follow, every later request of its scope leaves the store as it is: it gets
  -- the same answer, marked as replayed, if its hash is the same, and a conflict if not; without an
  -- active credential it is refused.
  pub execute_once :
      (w w2 : ExecutionWorld) (r r2 : BotRequest) (operation operation2 : Data → Operated Body Data)
      (store next : ExecutionStore Body Data) (result : BotExecutionResult Body)
      (calls : List (BotCall Body Data))
      → execute w r operation store ≡ executed result next
      → r2.scope ≡ r.scope
      → let last = run_bot_calls calls next in
        execute w2 r2 operation2 last ≡ replay_answer r2 r.request_hash result last
  unfolding ExecuteEnds
  execute_once w w2 r r2 operation operation2 store next result calls h same =
      let ends = subst (ExecuteEnds r store.executions) h (execute-Ends w r operation store) in
      let last = run_bot_calls calls next in
      execute-Kept w2 r2 operation2 r.request_hash result last (
        subst (λ s. Kept s r.request_hash result last.executions) (sym same)
          (run_bot_calls-Kept r.scope r.request_hash result calls next ends.0))
