-- ===== src/Examples/Services.antt =====
-- Runs of the settings, the environment and the supervision of the services.
use sakura_nexus.Base.{
  ℕ, suc, ◌+◌, ◌≤◌, ◌≡◌, ◌⊎◌, refl, Bool, true, false, Option, none, some, List, [], ◌∷◌, length,
  if◌then◌else◌,
}
use sakura_nexus.Base.Int.{ℤ, pos}
use sakura_nexus.Base.Text.{Text, text, text_eq}
use sakura_nexus.Config.Settings.Center.{SettingsLibrary, Center, new_center, no_keys}
use sakura_nexus.Config.Settings.Reads.{Use, by_update, by_subscribe, by_load}
use sakura_nexus.Config.Settings.{Scope, logging, ai, forwarding}
use sakura_nexus.Config.Env.{load_env}
use sakura_nexus.Config.Env.Complete.{Complete, load_env-Complete}
use sakura_nexus.App.Lifecycle.{
  core, degradable, Options, Filled, fill, or_default, running, waiting, Move, run_returns, fatal,
  woken, timer, App, start, Event, moves, restart, parent, run_events, step, close_all, move_at,
  supervise, next_backoff, after_move, core_fatal, with_supervisors, request_restart, parent_done,
  Criticality,
}
use sakura_nexus.App.Lifecycle.Backoff.{ArePaced, run_events-ArePaced}
use sakura_nexus.App.Lifecycle.Stops.{all_left, as_events, cancelled-stops}
use sakura_nexus.App.Lifecycle.Closing.{recorded, close_all-log}

-- A library that changes nothing when it reads, and a table with one row that takes every other.
abbrev idle_library : SettingsLibrary ℕ
idle_library = record {
  marshal = λ s. some (text "{}");
  unmarshal = λ raw s. some s;
  read = λ w. (some ((text "logging", text "{}") ∷ []), w);
  write = λ scope raw w. (true, suc w);
}

abbrev center : Center ℕ
center = new_center

abbrev count_call : Scope → ℕ → ℕ
count_call s w = w + 10

abbrev settings_uses : List (Use ℕ)
settings_uses =
    by_subscribe (text "logging") count_call
    ∷ by_update (text "logging") no_keys
    ∷ by_update (text "nothing") no_keys
    ∷ by_load (logging ∷ ai ∷ forwarding ∷ [])
    ∷ by_update (text "ai") no_keys
    ∷ []

-- Nothing is set but the password of the database.
abbrev few_variables : Text → Text
few_variables key = if text_eq key (text "MYSQL_PASSWORD") then text "pw" else []

abbrev no_numbers : Text → Option ℤ
no_numbers s = none

env_example : Complete few_variables no_numbers (load_env few_variables no_numbers)
env_example = load_env-Complete few_variables no_numbers

abbrev options : Options
options = record {
  shutdown_timeout = pos 0;
  restart_backoff = pos 100;
  restart_backoff_max = pos 150;
  stable_run = pos 1000;
}

abbrev two_services : List Criticality
two_services = degradable ∷ core ∷ []

-- The first service fails twice, then the second one, which ends all.
abbrev some_events : List Event
some_events =
    moves 0 run_returns
    ∷ moves 0 (timer 100)
    ∷ moves 0 run_returns
    ∷ moves 1 run_returns
    ∷ moves 1 fatal
    ∷ moves 0 woken
    ∷ []

abbrev app_after : App
app_after = record {
  supervisors =
      (degradable, sakura_nexus.App.Lifecycle.returned)
      ∷ (core, sakura_nexus.App.Lifecycle.returned)
      ∷ [];
  cancelled = true;
  exit_code = 1;
  fatal_done = true;
  restart_req = false;
}

app_runs :
    run_events (fill options) some_events (start (fill options) two_services) ≡ some app_after
unfolding run_events step start fill move_at supervise next_backoff after_move core_fatal
    request_restart parent_done
app_runs = refl

paced_example : ArePaced (fill options) app_after.supervisors
paced_example = run_events-ArePaced options two_services some_events app_after app_runs

abbrev cancelled_app : App
cancelled_app = record {
  supervisors = (degradable, waiting 100) ∷ (core, running 100) ∷ [];
  cancelled = true;
  exit_code = 0;
  fatal_done = false;
  restart_req = true;
}

abbrev last_moves : List (ℕ × Move)
last_moves = (0, timer 100) ∷ (1, run_returns) ∷ []

abbrev app_left : App
app_left = record {
  supervisors = (degradable, running 150) ∷ (core, sakura_nexus.App.Lifecycle.returned) ∷ [];
  cancelled = true;
  exit_code = 0;
  fatal_done = false;
  restart_req = true;
}

app_moves : run_events (fill options) (as_events last_moves) cancelled_app ≡ some app_left
unfolding run_events step fill move_at supervise next_backoff after_move
app_moves = refl

stops_example :
    (length last_moves + all_left app_left.supervisors ≤ all_left cancelled_app.supervisors)
    × ((all_left app_left.supervisors ≡ 0)
        ⊎ ((i : ℕ) × (m : Move) × (c : App) × (step (fill options) (moves i m) app_left ≡ some c)))
stops_example = cancelled-stops (fill options) last_moves cancelled_app app_left refl app_moves

abbrev shut : ℕ → ℕ → Bool × ℕ
shut service w = (false, w + service)

closing_example : (close_all (recorded shut) (1 ∷ 2 ∷ 3 ∷ []) (0, [])).1 ≡ 1 ∷ 2 ∷ 3 ∷ []
closing_example = close_all-log shut (1 ∷ 2 ∷ 3 ∷ []) 0
