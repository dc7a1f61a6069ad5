-- ===== src/Auth/Recorded.antt =====
-- What an execution leaves in the table of executions.
use vpnplatform.Base.{
  ℕ, ◌≡◌, refl, sym, ap, ◌∙◌, subst, ◌⊎◌, inl, inr, true, false, Option, none, some, List, [], ◌∷◌,
  arith, ◌==◌, find, any, find-In, find-none, find-head, find-tail, Bool-cases, ==_refl,
}
use vpnplatform.Orchestration.Table.{update_where}
use vpnplatform.Auth.Execution.{
  Scope, BotRequest, ExecutionRow, ExecutionStore, BotExecutionResult, Operated, responds, throws,
  ExecutionWorld, Executed, executed, failed, execute, execute_found, after_operation,
  store_response, stored_result, same_scope, in_scope, with_execution_id, new_execution,
  complete_execution, is_authorized, is_http_status,
}

same_scope_refl : (s : Scope) → same_scope s s ≡ true
same_scope_refl s = ground arith

module _ {Body : Type 0} where
  -- The row of the scope is complete and has this result.
  abbrev pub Kept : Scope → ℕ → BotExecutionResult Body → List (ExecutionRow Body) → Type 0
  Kept s hash result rows =
      (row : ExecutionRow Body) × (at : ℕ) × (find (in_scope s) rows ≡ some row)
      × (row.request_hash ≡ hash)
      × (row.response_status ≡ some result.status_code)
      × (row.response_body ≡ some result.body)
      × (row.completed_at ≡ some at)

  -- The table has at most one new row, of a scope that had none.
  abbrev pub Grown : List (ExecutionRow Body) → List (ExecutionRow Body) → Type 0
  Grown rows next =
      (next ≡ rows)
      ⊎ ((row : ExecutionRow Body) × (next ≡ row ∷ rows) × (find (in_scope row.scope) rows ≡ none))

  no_update :
      (id : ℕ) (f : ExecutionRow Body → ExecutionRow Body) (rows : List (ExecutionRow Body))
      → any (with_execution_id id) rows ≡ false
      → update_where (with_execution_id id) f rows ≡ rows
  no_update id f [] h = refl
  no_update id f (row ∷ rows) h = ground (arith, no_update id f rows)

  stored_rows :
      (w : ExecutionWorld) (r : BotRequest) (status : ℕ) (body : Body)
      (rows : List (ExecutionRow Body))
      → any (with_execution_id w.new_id) rows ≡ false
      → update_where
          (with_execution_id w.new_id)
          (complete_execution w status body)
          (new_execution w r ∷ rows)
        ≡ complete_execution w status body (new_execution w r) ∷ rows
  stored_rows w r status body rows free =
      rw (==_refl w.new_id)
        (rw (no_update w.new_id (complete_execution w status body) rows free) refl)

  -- A new row of another scope does not hide the row of this one.
  other_scope :
      (s : Scope) (kept row : ExecutionRow Body) (rows : List (ExecutionRow Body))
      → find (in_scope s) rows ≡ some kept
      → find (in_scope row.scope) rows ≡ none
      → in_scope s row ≡ false
  other_scope s kept row rows found new =
      let (i, held) = find-In (in_scope s) kept rows found in
      let apart = find-none (in_scope row.scope) kept rows new i in ground arith

  pub Grown-Kept :
      (s : Scope) (hash : ℕ) (result : BotExecutionResult Body)
      (rows next : List (ExecutionRow Body))
      → Grown rows next
      → Kept s hash result rows
      → Kept s hash result next
  Grown-Kept s hash result rows next (inl e) kept = subst (Kept s hash result) (sym e) kept
  Grown-Kept s hash result rows next (inr (row, e, new)) (old, at, found, a, b, c, d) = (
    old,
    at,
    ap (find (in_scope s)) e
        ∙ find-tail (in_scope s) row rows (other_scope s old row rows found new)
        ∙ found,
    a,
    b,
    c,
    d,
  )

module _ {Body Data : Type 0} where
  unfoldable pub ExecuteEnds : BotRequest → List (ExecutionRow Body) → Executed Body Data → Type 0
  ExecuteEnds r rows (failed e) = Unit
  ExecuteEnds r rows (executed result next) =
      Kept r.scope r.request_hash result next.executions × Grown rows next.executions

  store_response-Ends :
      (w : ExecutionWorld) (r : BotRequest) (status : Option ℕ) (body : Body) (tables : Data)
      (store : ExecutionStore Body Data)
      → find (in_scope r.scope) store.executions ≡ none
      → any (with_execution_id w.new_id) store.executions ≡ false
      → ExecuteEnds r store.executions (store_response w r status body tables store)
  unfolding ExecuteEnds
  store_response-Ends w r none body tables store new free = tt
  store_response-Ends w r (some status) body tables store new free =
      elim (Bool-cases (is_http_status status)) [
        | inl y ↦ rw y (
            let row : ExecutionRow Body = complete_execution w status body (new_execution w r) in
            let rows = stored_rows w r status body store.executions free in
            (
              (
                row,
                w.now,
                ap (find (in_scope r.scope)) rows
                    ∙ find-head (in_scope r.scope) row store.executions (same_scope_refl r.scope),
                refl,
                refl,
                refl,
                refl,
              ),
              inr (row, rows, new),
            ))
        | inr n ↦ rw n tt
      ]

  after_operation-Ends :
      (w : ExecutionWorld) (r : BotRequest) (o : Operated Body Data)
      (store : ExecutionStore Body Data)
      → find (in_scope r.scope) store.executions ≡ none
      → any (with_execution_id w.new_id) store.executions ≡ false
      → ExecuteEnds r store.executions (after_operation w r o store)
  unfolding ExecuteEnds
  after_operation-Ends w r throws store new free = tt
  after_operation-Ends w r (responds response tables) store new free =
      store_response-Ends w r response.status_code response.body tables store new free

  stored_result-Ends :
      (r : BotRequest) (row : ExecutionRow Body) (store : ExecutionStore Body Data)
      (status : Option ℕ) (body : Option Body) (at : Option ℕ)
      → find (in_scope r.scope) store.executions ≡ some row
      → row.request_hash ≡ r.request_hash
      → row.response_status ≡ status
      → row.response_body ≡ body
      → row.completed_at ≡ at
      → ExecuteEnds r store.executions (stored_result status body at store)
  unfolding ExecuteEnds
  stored_result-Ends r row store none _ _ found hash a b c = tt
  stored_result-Ends r row store (some status) none _ found hash a b c = tt
  stored_result-Ends r row store (some status) (some body) none found hash a b c = tt
  stored_result-Ends r row store (some status) (some body) (some at) found hash a b c =
      ((row, at, found, hash, a, b, c), inl refl)

  execute_found-Ends :
      (w : ExecutionWorld) (r : BotRequest) (operation : Data → Operated Body Data)
      (o : Option (ExecutionRow Body)) (store : ExecutionStore Body Data)
      → find (in_scope r.scope) store.executions ≡ o
      → ExecuteEnds r store.executions (execute_found w r operation o store)
  unfolding ExecuteEnds
  execute_found-Ends w r operation (some row) store found =
      elim (Bool-cases (row.request_hash == r.request_hash)) [
        | inl y ↦ rw y (
            stored_result-Ends r row store row.response_status row.response_body row.completed_at
              found (ground arith) refl refl refl)
        | inr n ↦ rw n tt
      ]
  execute_found-Ends w r operation none store found =
      elim (Bool-cases (any (with_execution_id w.new_id) store.executions)) [
        | inl y ↦ rw y tt
        | inr n ↦ rw n (after_operation-Ends w r (operation store.tables) store found n)
      ]

  pub execute-Ends :
      (w : ExecutionWorld) (r : BotRequest) (operation : Data → Operated Body Data)
      (store : ExecutionStore Body Data)
      → ExecuteEnds r store.executions (execute w r operation store)
  unfolding execute ExecuteEnds
  execute-Ends w r operation store = elim (Bool-cases (is_authorized r store.credentials)) [
    | inl y ↦
        rw y
          (execute_found-Ends w r operation (find (in_scope r.scope) store.executions) store refl)
    | inr n ↦ rw n tt
  ]
