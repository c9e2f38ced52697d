-- ===== src/App/Lifecycle.antt =====
-- internal/app/lifecycle.go: the supervisors of the services, the exit code and the closing. The
-- goroutines' steps are events in some order: between two of them nothing else happens. Durations are
-- nanoseconds. The readiness barrier, log lines and error texts are left out.
pub mod Moves
pub mod Backoff
pub mod Ends
pub mod Stops
pub mod Closing
use sakura_nexus.Base.{
  ℕ, zero, suc, ◌+◌, ◌*◌, Bool, true, false, Option, none, some, List, [], ◌∷◌, map, if◌then◌else◌,
  ◌==◌, leb, length,
}
use sakura_nexus.Base.Int.{ℤ, pos, leb_ℤ, pos_part}

pub data Criticality : Type 0 where
  core degradable : Criticality

pub record Options : Type 0 where
  pub shutdown_timeout : ℤ
  pub restart_backoff : ℤ
  pub restart_backoff_max : ℤ
  pub stable_run : ℤ

-- What the options are once they are filled in.
pub record Filled : Type 0 where
  pub shutdown_timeout : ℕ
  pub restart_backoff : ℕ
  pub restart_backoff_max : ℕ
  pub stable_run : ℕ

abbrev pub or_default : ℤ → ℕ → ℕ
or_default n def = if leb_ℤ n (pos 0) then def else pos_part n

unfoldable pub fill : Options → Filled
fill o = record {
  shutdown_timeout = or_default o.shutdown_timeout 30000000000;
  restart_backoff = or_default o.restart_backoff 100000000;
  restart_backoff_max = or_default o.restart_backoff_max 30000000000;
  stable_run = or_default o.stable_run 60000000000;
}

-- Where a supervisor is in its loop: in `Run`, before `coreFatal`, in the wait, or out of it. The number
-- is `backoff`.
pub data Supervisor : Type 0 where
  running waiting : ℕ → Supervisor
  failing returned : Supervisor

-- `Run` returns or panics; `coreFatal` is called; the wait is over, some time after the start of `Run`;
-- the wait is ended by the context.
pub data Move : Type 0 where
  run_returns fatal woken : Move
  timer : ℕ → Move

unfoldable pub next_backoff : Filled → ℕ → ℕ → ℕ
next_backoff o elapsed backoff =
    if leb o.stable_run elapsed
    then o.restart_backoff
    else if leb (backoff * 2) o.restart_backoff_max
    then backoff * 2
    else o.restart_backoff_max

-- A move of one supervisor, if it is at a point where it can make it.
unfoldable pub supervise : Filled → Supervisor → Move → Bool → Criticality → Option Supervisor
unfolding next_backoff
supervise o (running b) run_returns true crit = some returned
supervise o (running b) run_returns false core = some failing
supervise o (running b) run_returns false degradable = some (waiting b)
supervise o (running b) fatal cancelled crit = none
supervise o (running b) woken cancelled crit = none
supervise o (running b) (timer elapsed) cancelled crit = none
supervise o (waiting b) run_returns cancelled crit = none
supervise o (waiting b) fatal cancelled crit = none
supervise o (waiting b) woken true crit = some returned
supervise o (waiting b) woken false crit = none
supervise o (waiting b) (timer elapsed) cancelled crit = some (running (next_backoff o elapsed b))
supervise o failing run_returns cancelled crit = none
supervise o failing fatal cancelled crit = some returned
supervise o failing woken cancelled crit = none
supervise o failing (timer elapsed) cancelled crit = none
supervise o returned m cancelled crit = none

unfoldable pub move_at :
    Filled
    → Bool
    → Move
    → ℕ
    → List (Criticality × Supervisor)
    → Option (List (Criticality × Supervisor))
unfolding supervise
move_at o cancelled m i [] = none
move_at o cancelled m zero ((crit, s) ∷ sups) = elim (supervise o s m cancelled crit) [
  | none ↦ none
  | some s' ↦ some ((crit, s') ∷ sups)
]
move_at o cancelled m (suc i) (x ∷ sups) = elim (move_at o cancelled m i sups) [
  | none ↦ none
  | some sups' ↦ some (x ∷ sups')
]

pub record App : Type 0 where
  pub supervisors : List (Criticality × Supervisor)
  pub cancelled : Bool
  pub exit_code : ℕ
  pub fatal_done : Bool
  pub restart_req : Bool

-- `Run` at its start: every service is run, in its goroutine.
unfoldable pub start : Filled → List Criticality → App
start o crits = record {
  supervisors = map (λ crit. (crit, running o.restart_backoff)) crits;
  cancelled = false;
  exit_code = 0;
  fatal_done = false;
  restart_req = false;
}

-- The first of the fatal ends counts.
unfoldable pub core_fatal : App → App
core_fatal a = if a.fatal_done then a else record {
  supervisors = a.supervisors;
  cancelled = true;
  exit_code = 1;
  fatal_done = true;
  restart_req = a.restart_req;
}

unfoldable pub request_restart : App → App
request_restart a = record {
  supervisors = a.supervisors;
  cancelled = true;
  exit_code = a.exit_code;
  fatal_done = a.fatal_done;
  restart_req = true;
}

-- The context of the caller ends.
unfoldable pub parent_done : App → App
parent_done a = record {
  supervisors = a.supervisors;
  cancelled = true;
  exit_code = a.exit_code;
  fatal_done = a.fatal_done;
  restart_req = a.restart_req;
}

pub data Event : Type 0 where
  moves : ℕ → Move → Event
  restart parent : Event

abbrev pub with_supervisors : App → List (Criticality × Supervisor) → App
with_supervisors a sups = record {
  supervisors = sups;
  cancelled = a.cancelled;
  exit_code = a.exit_code;
  fatal_done = a.fatal_done;
  restart_req = a.restart_req;
}

unfoldable pub after_move : Move → App → App
unfolding core_fatal
after_move fatal a = core_fatal a
after_move run_returns a = a
after_move woken a = a
after_move (timer elapsed) a = a

unfoldable pub step : Filled → Event → App → Option App
unfolding move_at after_move request_restart parent_done
step o restart a = some (request_restart a)
step o parent a = some (parent_done a)
step o (moves i m) a = elim (move_at o a.cancelled m i a.supervisors) [
  | none ↦ none
  | some sups ↦ some (after_move m (with_supervisors a sups))
]

unfoldable pub run_events : Filled → List Event → App → Option App
unfolding step
run_events o [] a = some a
run_events o (e ∷ es) a = elim (step o e a) [ none ↦ none | some a' ↦ run_events o es a' ]

-- What `Run` returns in the end.
unfoldable pub exit_status : App → ℕ
exit_status a = if a.exit_code == 0 then (if a.restart_req then 75 else 0) else a.exit_code

module _ {W Service : Type 0} (shutdown : Service → W → Bool × W) where
  unfoldable pub get_elem? : List Service → ℕ → Option Service
  get_elem? [] i = none
  get_elem? (s ∷ ss) zero = some s
  get_elem? (s ∷ ss) (suc i) = get_elem? ss i

  -- The loop from the last service down; an error is logged.
  unfoldable pub close_down : List Service → ℕ → W → W
  unfolding get_elem?
  close_down regs zero w = w
  close_down regs (suc i) w = elim (get_elem? regs i) [
    | none ↦ w
    | some s ↦ close_down regs i (shutdown s w).1
  ]

  unfoldable pub close_all : List Service → W → W
  unfolding close_down
  close_all regs w = close_down regs (length regs) w
