-- ===== src/Availability/Fresh.antt =====
-- A subscriber never reads an outdated state (internal/availability/availability.go).
use sakura_nexus.Base.{
  ℕ, zero, suc, ◌≡◌, refl, Bool, true, false, ◌||◌, Option, none, some, List, [], ◌∷◌, ◌++◌, map,
  if◌then◌else◌, All, All-append,
}
use sakura_nexus.Availability.{
  State, ready, unavailable, same_state, Tracker, new_tracker, publish, set_ready, preset,
  subscribe_state, close_tracker, take_at, receive,
}

-- What waits in a channel is the state.
abbrev pub Holds : State → Option State → Type 0
Holds s none = Unit
Holds s (some v) = v ≡ s

-- The trackers that the operations produce from a new one, in any order.
pub data Reachable : Tracker → Type 0 where
  start : (s : State) → Reachable (new_tracker s)
  by_set : (t : Tracker) (v : State) → Reachable t → Reachable (set_ready t v)
  by_subscribe : (t : Tracker) → Reachable t → Reachable (subscribe_state t)
  by_receive : (t : Tracker) (i : ℕ) → Reachable t → Reachable (receive i t)
  by_close : (t : Tracker) → Reachable t → Reachable (close_tracker t)

abbrev IsFresh : Tracker → Type 0
IsFresh t = All (Holds t.state) t.subs

published : (v : State) (subs : List (Option State)) → All (Holds v) (map (publish v) subs)
published v [] = tt
published v (ch ∷ subs) = (refl, published v subs)

if-IsFresh : (b : Bool) (t u : Tracker) → IsFresh t → IsFresh u → IsFresh (if b then t else u)
if-IsFresh true t u h k = h
if-IsFresh false t u h k = k

preset-Holds : (s : State) → Holds s (preset s)
unfolding preset
preset-Holds ready = tt
preset-Holds unavailable = refl

take_at-Holds :
    (s : State) (i : ℕ) (subs : List (Option State))
    → All (Holds s) subs
    → All (Holds s) (take_at i subs)
unfolding take_at
take_at-Holds s i [] h = tt
take_at-Holds s zero (ch ∷ subs) h = (tt, h.1)
take_at-Holds s (suc i) (ch ∷ subs) h = (h.0, take_at-Holds s i subs h.1)

-- In whatever order the state is published, subscribers come and read, and the tracker is closed: a
-- value that waits in a channel is the present state, so an older flip is never read after a newer one.
pub Reachable-IsFresh : (t : Tracker) → Reachable t → All (Holds t.state) t.subs
unfolding new_tracker set_ready subscribe_state receive close_tracker
Reachable-IsFresh _ (start s) = tt
Reachable-IsFresh _ (by_set t v r) =
    if-IsFresh (t.closed || same_state t.state v) t
      (record t { state = v; subs = map (publish v) t.subs }) (Reachable-IsFresh t r)
      (published v t.subs)
Reachable-IsFresh _ (by_subscribe t r) =
    if-IsFresh t.closed t (record t { subs = t.subs ++ preset t.state ∷ [] })
      (Reachable-IsFresh t r)
      (All-append (Holds t.state) t.subs (preset t.state ∷ []) (Reachable-IsFresh t r)
        (preset-Holds t.state, tt))
Reachable-IsFresh _ (by_receive t i r) = take_at-Holds t.state i t.subs (Reachable-IsFresh t r)
Reachable-IsFresh _ (by_close t r) =
    if-IsFresh t.closed t (record t { closed = true; subs = [] }) (Reachable-IsFresh t r) tt
