-- ===== src/Forwarding/Engine/Process/Durable.antt =====
-- What the observing and the finishing of a group do to the cursor of a rule
-- (internal/forwarding/engine.go, `observeAll`, `finishTerminals`).
use sakura_nexus.Base.{
  ℕ, ◌<◌, ◌≤◌, ◌≡◌, ◌⊎◌, refl, ◌≢◌, Bool, true, false, List, [], ◌∷◌, if◌then◌else◌, ==-refl, arith,
  contains, contains-insert, All, All-contains,
}
use sakura_nexus.Domain.{ChannelMessage, ForwardRule}
use sakura_nexus.Forwarding.Cursor.{CursorTracker, observe, terminal}
use sakura_nexus.Forwarding.Cursor.Trace.{
  Call, finished, NotFinished, run, run_keeps_unresolved, run-IsValid,
}
use sakura_nexus.Forwarding.Cursor.Terminal.{IsValid}
use sakura_nexus.Forwarding.Engine.State.{Deps, Engine}
use sakura_nexus.Forwarding.Engine.Process.{
  tracker_for, observe_loop, observe_all, terminal_loop, finish_terminals,
}
use sakura_nexus.Forwarding.Engine.Process.Trackers.{
  HasValidTrackers, tracker_for-IsValid, tracker_for-set_tracker,
}

-- A message that is at or below the cursor, or unresolved.
abbrev pub IsTracked : CursorTracker → ChannelMessage → Type 0
IsTracked t m = (m.ref.message_id ≤ t.cursor) ⊎ (contains m.ref.message_id t.unresolved ≡ true)

observe-tracks : (t : CursorTracker) (m : ChannelMessage) → IsTracked (observe t m.ref.message_id) m
unfolding observe
observe-tracks t m = ground (
  arith,
  contains-insert m.ref.message_id m.ref.message_id t.unresolved,
  ==-refl m.ref.message_id,
)

observe_keeps :
    (t : CursorTracker) (id : ℕ) (m : ChannelMessage) → IsTracked t m → IsTracked (observe t id) m
unfolding observe
observe_keeps t id m h = ground (arith, contains-insert id m.ref.message_id t.unresolved)

observe_loop_keeps :
    (t : CursorTracker) (msgs : List ChannelMessage) (m : ChannelMessage)
    → IsTracked t m
    → IsTracked (observe_loop t msgs) m
unfolding observe_loop
observe_loop_keeps t [] m h = h
observe_loop_keeps t (x ∷ msgs) m h =
    observe_loop_keeps (observe t x.ref.message_id) msgs m (observe_keeps t x.ref.message_id m h)

observe_loop-tracks :
    (t : CursorTracker) (msgs : List ChannelMessage) → All (IsTracked (observe_loop t msgs)) msgs
unfolding observe_loop
observe_loop-tracks t [] = tt
observe_loop-tracks t (m ∷ msgs) = (
  observe_loop_keeps (observe t m.ref.message_id) msgs m (observe-tracks t m),
  observe_loop-tracks (observe t m.ref.message_id) msgs,
)

-- Once a rule has observed a group, each of its messages is unresolved or was at or below the cursor.
pub observe_all-tracks :
    (e : Engine) (rule : ForwardRule) (msgs : List ChannelMessage)
    → All (IsTracked (tracker_for (observe_all e rule msgs) rule)) msgs
unfolding observe_all
observe_all-tracks e rule msgs =
    rw (tracker_for-set_tracker e rule (observe_loop (tracker_for e rule) msgs))
      (observe_loop-tracks (tracker_for e rule) msgs)

abbrev all_finished : List ChannelMessage → List Call
all_finished [] = []
all_finished (m ∷ msgs) = finished m.ref.message_id ∷ all_finished msgs

terminal_loop-run :
    (t : CursorTracker) (moved : Bool) (msgs : List ChannelMessage)
    → (terminal_loop t moved msgs).0 ≡ run t (all_finished msgs)
unfolding terminal_loop
terminal_loop-run t moved [] = refl
terminal_loop-run t moved (m ∷ msgs) =
    terminal_loop-run (terminal t m.ref.message_id).0
      (if (terminal t m.ref.message_id).1.1 then true else moved) msgs

all_finished-NotFinished :
    (id : ℕ) (msgs : List ChannelMessage)
    → All (λ m. m.ref.message_id ≢ id) msgs
    → All (NotFinished id) (all_finished msgs)
all_finished-NotFinished id [] h = tt
all_finished-NotFinished id (m ∷ msgs) h = (h.0, all_finished-NotFinished id msgs h.1)

-- While a message of a rule is unresolved, finishing any other messages of the rule leaves it
-- unresolved and the rule's cursor below it.
pub finish_terminals_blocked :
    {W : Type 0} (d : Deps W) (e : Engine) (rule : ForwardRule) (msgs : List ChannelMessage) (w : W)
    (id : ℕ)
    → HasValidTrackers e
    → contains id (tracker_for e rule).unresolved ≡ true
    → All (λ m. m.ref.message_id ≢ id) msgs
    → (contains id (tracker_for (finish_terminals d e rule msgs w).0 rule).unresolved ≡ true)
      × ((tracker_for (finish_terminals d e rule msgs w).0 rule).cursor < id)
unfolding finish_terminals
finish_terminals_blocked d e rule msgs w id h u n =
    rw (tracker_for-set_tracker e rule (terminal_loop (tracker_for e rule) false msgs).0)
      (rw (terminal_loop-run (tracker_for e rule) false msgs) (kept, above))
  where
    valid : IsValid (tracker_for e rule)
    valid = tracker_for-IsValid e rule h

    kept : contains id (run (tracker_for e rule) (all_finished msgs)).unresolved ≡ true
    kept =
        run_keeps_unresolved (tracker_for e rule) (all_finished msgs) id valid
          (all_finished-NotFinished id msgs n) u

    above : (run (tracker_for e rule) (all_finished msgs)).cursor < id
    above =
        All-contains _ id (run (tracker_for e rule) (all_finished msgs)).unresolved
          (run-IsValid (tracker_for e rule) (all_finished msgs) valid).unresolved_above kept
