-- ===== src/Examples/Engines.antt =====
-- Runs of the forwarding engine in a world where nothing fails.
use sakura_nexus.Base.{
  suc, length, ℕ, ◌+◌, ◌<◌, ◌≡◌, ◌⊎◌, refl, Bool, true, false, some, [], ◌∷◌, All, arith, contains,
  insert,
}
use sakura_nexus.Base.Assoc.{lookup, put}
use sakura_nexus.Base.Text.{text_eq, contains_text}
use sakura_nexus.Domain.{chat_ref_eq}
use sakura_nexus.Forwarding.Cursor.{new_cursor_tracker, observe}
use sakura_nexus.Forwarding.Filters.{
  build_filter_view, should_forward, check_keywords, check_patterns, check_blacklists, find_word,
  find_pattern, check_media_types,
}
use sakura_nexus.Forwarding.Album.{flush_all, add, new_album_aggregator}
use sakura_nexus.Forwarding.Engine.State.{
  Engine, SendTask, Failure, FailureKind, transient, Result, err, remote, new_engine, refresh_rules,
}
use sakura_nexus.Forwarding.Engine.Process.{
  tracker_for, set_tracker, observe_loop, observe_all, finish_terminals, process_rule, make_task,
  process_group, process_groups, process_rules, match_rule, any_exists, check_content,
  content_exists, filter_and_enqueue, enqueue, send_task, count_task,
}
use sakura_nexus.Forwarding.Engine.Process.Trackers.{HasValidTrackers, observe_all-HasValidTrackers}
use sakura_nexus.Forwarding.Engine.Process.Durable.{
  IsTracked, observe_all-tracks, finish_terminals_blocked,
}
use sakura_nexus.Forwarding.Engine.Process.Outcome.{Outcome, process_rule-Outcome}
use sakura_nexus.Forwarding.Engine.Retry.{send_with_retry}
use sakura_nexus.Forwarding.Engine.Retry.Bound.{
  counted_send, counted_sleep, Bounded, send_with_retry_bound,
}
use sakura_nexus.Forwarding.Engine.Execute.{
  execute, is_forward_mode, prepare, settle, send_prepared,
}
use sakura_nexus.Forwarding.Engine.Execute.Outcome.{Settled, is_awake, attempt, execute-Settled}
use sakura_nexus.Forwarding.Engine.Control.{handle_new, drain, flush_albums, consume, consume_task}
use sakura_nexus.Forwarding.Engine.Control.Reach.{
  IsSound, Reachable, start, by_refresh, by_send, by_receive, Reachable-IsSound,
}
use sakura_nexus.Forwarding.Engine.Control.Settles.{IsExact, drain-settles}
use sakura_nexus.Examples.Fixtures.{message, rule, world}

abbrev task : SendTask
task = make_task world rule (message 6 0) []

tracks_example :
    All
      (IsTracked (tracker_for (observe_all new_engine rule (message 6 3 ∷ message 7 3 ∷ [])) rule))
      (message 6 3 ∷ message 7 3 ∷ [])
tracks_example = observe_all-tracks new_engine rule (message 6 3 ∷ message 7 3 ∷ [])

outcome_example :
    Outcome world rule
      (message 6 0)
      []
      (observe_all new_engine rule (message 6 0 ∷ []))
      0
      (process_rule world new_engine rule (message 6 0) [] 0)
outcome_example = process_rule-Outcome world rule (message 6 0) [] new_engine 0

abbrev observed_six : Engine
observed_six = observe_all new_engine rule (message 6 0 ∷ [])

open_six : contains 6 (tracker_for observed_six rule).unresolved ≡ true
unfolding observe_all tracker_for set_tracker observe_loop observe new_engine lookup put
    new_cursor_tracker insert contains
open_six = refl

observed_six-HasValidTrackers : HasValidTrackers observed_six
observed_six-HasValidTrackers =
    observe_all-HasValidTrackers new_engine rule (message 6 0 ∷ [])
      (Reachable-IsSound world 0 0 new_engine start).trackers_valid

finish_example :
    (contains 6
        (tracker_for
          (finish_terminals world observed_six rule (message 7 0 ∷ []) 0).0
          rule).unresolved
      ≡ true)
    × ((tracker_for (finish_terminals world observed_six rule (message 7 0 ∷ []) 0).0 rule).cursor
        < 6)
finish_example =
    finish_terminals_blocked world observed_six rule (message 7 0 ∷ []) 0 6
      observed_six-HasValidTrackers open_six ((λ e. omega arith), tt)

execute_example :
    ((is_awake world new_engine task 0 ≡ true)
      × Settled world new_engine task.rule task.msgs
          (attempt world new_engine task 0).0
          (attempt world new_engine task 0).1
          (execute world new_engine task 0))
    ⊎ ((is_awake world new_engine task 0 ≡ false)
        × ((execute world new_engine task 0).0 ≡ new_engine))
execute_example = execute-Settled world new_engine task 0

-- Every attempt fails for now.
abbrev busy : ℕ → Result ℕ × ℕ
busy w = (err (remote w), w + 1)

abbrev always_transient : Failure → FailureKind
always_transient f = transient

abbrev no_wait : ℕ → ℕ → Bool × ℕ
no_wait n w = (true, w)

retry_example :
    Bounded always_transient 1 3
      (send_with_retry
        (counted_send busy)
        always_transient
        (counted_sleep no_wait)
        (1 ∷ 2 ∷ [])
        (0, 0)).1.1
      (send_with_retry
        (counted_send busy)
        always_transient
        (counted_sleep no_wait)
        (1 ∷ 2 ∷ [])
        (0, 0)).0
retry_example = send_with_retry_bound busy always_transient no_wait (1 ∷ 2 ∷ []) 0

-- The rules are loaded and a message has come in.
abbrev loaded : Engine
loaded = (refresh_rules world new_engine 0).1

abbrev busy_engine : Engine
busy_engine = (handle_new world loaded (message 6 0) 0).0

loaded-Reachable : Reachable world 0 0 loaded
loaded-Reachable = by_refresh 0 0 new_engine 0 start

-- The task is in the queue and not counted yet, and the consumer has it already.
abbrev overtaken : Engine
overtaken = record (send_task loaded task) { queue = [] }

task_sent : (send_task loaded task).queue ≡ task ∷ []
unfolding send_task refresh_rules new_engine
task_sent = refl

IsSound-example : IsSound 1 1 overtaken
IsSound-example = Reachable-IsSound world 1 1 overtaken (
    by_receive 1 0 (send_task loaded task) task [] task_sent
      (by_send 0 0 loaded task loaded-Reachable))

busy_engine-IsExact : IsExact busy_engine
unfolding drain flush_albums flush_all consume consume_task refresh_rules handle_new process_group
    process_groups process_rules match_rule process_rule any_exists check_content content_exists
    filter_and_enqueue should_forward enqueue send_task count_task execute new_engine add
    chat_ref_eq build_filter_view check_keywords contains_text check_patterns check_blacklists
    find_word find_pattern check_media_types new_album_aggregator settle send_prepared
    is_forward_mode text_eq prepare finish_terminals
busy_engine-IsExact = refl

settles_example :
    (drain world (suc (length (flush_albums world busy_engine 0).0.queue)) busy_engine 0).0
    ≡ some true
settles_example = drain-settles world busy_engine 0 (λ w. refl) busy_engine-IsExact
