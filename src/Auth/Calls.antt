-- ===== src/Auth/Calls.antt =====
-- Sequences of calls to the service. A call that throws leaves the store as it is.
use vpnplatform.Base.{ℕ, List, [], ◌∷◌}
use vpnplatform.Auth.PendingLogin.{
  Store, Hashing, BeginWorld, Outcome, answered, refused, begin_login,
}
use vpnplatform.Auth.Completion.{ConfirmWorld, CompleteWorld, confirm_login, complete_login}

pub data LoginCall : Type 0 where
  begin_call : BeginWorld → LoginCall
  confirm_call : ConfirmWorld → (code : ℕ) → LoginCall
  complete_call : CompleteWorld → (secret : ℕ) → LoginCall

abbrev pub store_after : {A : Type 0} → Outcome A → Store → Store
store_after (answered _ next) store = next
store_after (refused _) store = store

unfoldable pub run_call : Hashing → LoginCall → Store → Store
run_call h (begin_call w) store = store_after (begin_login h w store) store
run_call h (confirm_call w code) store = store_after (confirm_login h w code store) store
run_call h (complete_call w secret) store = store_after (complete_login h w secret store) store

unfoldable pub run_calls : Hashing → List LoginCall → Store → Store
run_calls h [] store = store
run_calls h (c ∷ calls) store = run_calls h calls (run_call h c store)
