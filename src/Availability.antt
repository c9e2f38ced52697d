-- ===== src/Availability.antt =====
-- internal/availability/availability.go: a published flag and the channels of its subscribers. Every
-- operation runs under the lock; a channel of capacity one is an option, and a subscriber takes from its
-- channel at any time.
pub mod Fresh
use sakura_nexus.Base.{
  ℕ, zero, suc, Bool, true, false, not, ◌||◌, Option, none, some, List, [], ◌∷◌, ◌++◌, map,
  if◌then◌else◌,
}

pub data State : Type 0 where
  ready unavailable : State

unfoldable pub same_state : State → State → Bool
same_state ready ready = true
same_state ready unavailable = false
same_state unavailable ready = false
same_state unavailable unavailable = true

pub record Tracker : Type 0 where
  pub state : State
  pub closed : Bool
  pub subs : List (Option State)

unfoldable pub new_tracker : State → Tracker
new_tracker initial = record { state = initial; closed = false; subs = [] }

-- The old value is drained, then the new one is sent.
abbrev pub publish : State → Option State → Option State
publish v ch = some v

unfoldable pub set_ready : Tracker → State → Tracker
unfolding same_state
set_ready t v =
    if t.closed || same_state t.state v
    then t
    else record t { state = v; subs = map (publish v) t.subs }

unfoldable pub is_ready : Tracker → Bool
unfolding same_state
is_ready t = same_state t.state ready

-- What a new channel holds: nothing where the state is ready.
unfoldable pub preset : State → Option State
preset ready = none
preset unavailable = some unavailable

-- A closed tracker hands out a closed channel that it does not keep.
unfoldable pub subscribe_state : Tracker → Tracker
unfolding preset
subscribe_state t = if t.closed then t else record t { subs = t.subs ++ preset t.state ∷ [] }

unfoldable pub close_tracker : Tracker → Tracker
close_tracker t = if t.closed then t else record t { closed = true; subs = [] }

-- A subscriber reads its channel.
unfoldable pub take_at : ℕ → List (Option State) → List (Option State)
take_at i [] = []
take_at zero (ch ∷ subs) = none ∷ subs
take_at (suc i) (ch ∷ subs) = ch ∷ take_at i subs

unfoldable pub receive : ℕ → Tracker → Tracker
unfolding take_at
receive i t = record t { subs = take_at i t.subs }

-- What a pass of `WaitReady` does: the state first, then the `select`; `takes_context` where that
-- takes the cancelled context, otherwise it reads the channel, which is empty or holds a state.
pub data Wait : Type 0 where
  returned cancelled_wait closed_wait again : Wait

unfoldable pub wait_pass : Tracker → Bool → Option State → Wait
unfolding is_ready
wait_pass t takes_context ch =
    if is_ready t then returned else if takes_context then cancelled_wait else elim ch [
      | some ready ↦ returned
      | some unavailable ↦ again
      | none ↦ if t.closed then closed_wait else again
    ]
