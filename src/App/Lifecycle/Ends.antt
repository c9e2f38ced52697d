-- ===== src/App/Lifecycle/Ends.antt =====
-- internal/app/lifecycle.go, `Run`: the exit code, and that the supervisors end.
use sakura_nexus.Base.{ℕ, ◌≡◌, Bool, true, false, any, List, if◌then◌else◌}
use sakura_nexus.App.Lifecycle.{
  run_returns, fatal, woken, timer, App, Event, moves, restart, parent,
}

abbrev pub is_fatal : Event → Bool
is_fatal (moves i fatal) = true
is_fatal (moves i run_returns) = false
is_fatal (moves i woken) = false
is_fatal (moves i (timer elapsed)) = false
is_fatal restart = false
is_fatal parent = false

abbrev pub is_restart : Event → Bool
is_restart restart = true
is_restart parent = false
is_restart (moves i m) = false

-- The exit code by what happened: 1 if a core service failed, otherwise 75 if a restart was requested.
abbrev pub expected_status : List Event → ℕ
expected_status es = if any is_fatal es then 1 else if any is_restart es then 75 else 0

-- The flags and the code after some events.
pub record IsTold (was_fatal was_restart : Bool) (a : App) : Type 0 where
  pub of_fatal : a.fatal_done ≡ was_fatal
  pub of_code : a.exit_code ≡ (if was_fatal then 1 else 0)
  pub of_restart : a.restart_req ≡ was_restart
