-- ===== src/Forwarding/Engine/Control/Reach.antt =====
-- The engines that the goroutines of internal/forwarding/engine.go can produce, in any interleaving.
-- A step is what one goroutine does under one lock, or one operation on the queue or a counter; a step
-- sees any world, since others may have changed it in between.
use sakura_nexus.Base.{
  ℕ, suc, ◌+◌, ◌≤◌, ◌≡◌, ap, none, some, List, [], ◌∷◌, ◌++◌, arith, Option-cases, inl, inr, length,
  length-append,
}
use sakura_nexus.Base.Assoc.{lookup}
use sakura_nexus.Domain.{ChatRef, ChannelMessage, ForwardRule}
use sakura_nexus.Base.Text.{Text}
use sakura_nexus.Forwarding.Cursor.{CursorTracker}
use sakura_nexus.Forwarding.Album.{AlbumConfig, new_album_aggregator, add, flush_due, flush_all}
use sakura_nexus.Forwarding.Engine.State.{
  Deps, Engine, SendTask, ForwardingParams, new_engine, refresh_rules,
}
use sakura_nexus.Forwarding.Engine.Process.{
  tracker_for, set_tracker, observe_all, finish_terminals, send_task, count_task,
}
use sakura_nexus.Forwarding.Engine.Process.Trackers.{
  HasValidTrackers, observe_all-HasValidTrackers, finish_terminals-HasValidTrackers,
  tracker_for-IsValid, set_tracker-HasValidTrackers,
}
use sakura_nexus.Forwarding.Engine.Control.{pause, resume}

-- The two numbers are the goroutines that have sent a task and not counted it yet, and the tasks that
-- were received from the queue and are neither settled nor dropped.
pub data Reachable {W : Type 0} (d : Deps W) : ℕ → ℕ → Engine → Type 0 where
  start : Reachable d 0 0 new_engine
  by_refresh :
      (s k : ℕ) (e : Engine) (w : W) → Reachable d s k e → Reachable d s k (refresh_rules d e w).1
  by_pause : (s k : ℕ) (e : Engine) → Reachable d s k e → Reachable d s k (pause e)
  by_resume : (s k : ℕ) (e : Engine) → Reachable d s k e → Reachable d s k (resume e)
  by_params :
      (s k : ℕ) (e : Engine) (p : ForwardingParams)
      → Reachable d s k e
      → Reachable d s k (record e { params = p })
  by_window :
      (s k : ℕ) (e : Engine) (cfg : AlbumConfig)
      → Reachable d s k e
      → Reachable d s k (record e { album_cfg = cfg; album = new_album_aggregator cfg })
  by_add :
      (s k : ℕ) (e : Engine) (m : ChannelMessage) (now : ℕ)
      → Reachable d s k e
      → Reachable d s k (record e { album = (add e.album now m).0 })
  by_flush_due :
      (s k : ℕ) (e : Engine) (now : ℕ)
      → Reachable d s k e
      → Reachable d s k (record e { album = (flush_due e.album now).0 })
  by_flush_all :
      (s k : ℕ) (e : Engine)
      → Reachable d s k e
      → Reachable d s k (record e { album = (flush_all e.album).0 })
  by_names :
      (s k : ℕ) (e : Engine) (names : List (ChatRef × Text))
      → Reachable d s k e
      → Reachable d s k (record e { usernames = names })
  by_observe :
      (s k : ℕ) (e : Engine) (r : ForwardRule) (msgs : List ChannelMessage)
      → Reachable d s k e
      → Reachable d s k (observe_all e r msgs)
  by_finish :
      (s k : ℕ) (e : Engine) (r : ForwardRule) (msgs : List ChannelMessage) (w : W)
      → Reachable d s k e
      → Reachable d s k (finish_terminals d e r msgs w).0
  by_tracker :
      (s k : ℕ) (e : Engine) (r : ForwardRule)
      → Reachable d s k e
      → Reachable d s k (set_tracker e r (tracker_for e r))
  by_send :
      (s k : ℕ) (e : Engine) (t : SendTask)
      → Reachable d s k e
      → Reachable d (suc s) k (send_task e t)
  by_count : (s k : ℕ) (e : Engine) → Reachable d (suc s) k e → Reachable d s k (count_task e)
  by_receive :
      (s k : ℕ) (e : Engine) (t : SendTask) (rest : List SendTask)
      → e.queue ≡ t ∷ rest
      → Reachable d s k e
      → Reachable d s (suc k) (record e { queue = rest })
  by_settle :
      (s k : ℕ) (e : Engine)
      → Reachable d s (suc k) e
      → Reachable d s k (record e { settled = e.settled + 1 })
  by_drop : (s k : ℕ) (e : Engine) → Reachable d s (suc k) e → Reachable d s k e

-- The trackers are valid; and what is settled, received or in the queue is counted, but for what
-- was sent and is still to be counted.
pub record IsSound (sending working : ℕ) (e : Engine) : Type 0 where
  pub trackers_valid : HasValidTrackers e
  pub accounted : e.settled + (working + length e.queue) ≤ e.enqueued + sending

module _ {W : Type 0} (d : Deps W) where
  new_engine-IsSound : IsSound 0 0 new_engine
  unfolding new_engine lookup
  new_engine-IsSound = record {
    trackers_valid = λ id t h. absurd (no_tracker h);
    accounted = omega arith;
  }
    where
      no_tracker : {t : CursorTracker} → none ≡ some t → ⊥
      no_tracker h = ground (arith, h)

  refresh-IsSound :
      (s k : ℕ) (e : Engine) (w : W) → IsSound s k e → IsSound s k (refresh_rules d e w).1
  unfolding refresh_rules
  refresh-IsSound s k e w h = elim (Option-cases (d.list_enabled w).0) [
    | inl failed ↦ rw (failed, refresh_rules) h
    | inr (rs, read) ↦
        rw (read, refresh_rules)
          (record { trackers_valid = h.trackers_valid; accounted = h.accounted })
  ]

  send-IsSound :
      (s k : ℕ) (e : Engine) (t : SendTask) → IsSound s k e → IsSound (suc s) k (send_task e t)
  unfolding send_task
  send-IsSound s k e t h = record {
    trackers_valid = h.trackers_valid;
    accounted =
        let a = h.accounted in
        let n : length (e.queue ++ t ∷ []) ≡ length e.queue + 1 = length-append e.queue (t ∷ []) in
        omega arith;
  }

  receive-IsSound :
      (s k : ℕ) (e : Engine) (t : SendTask) (rest : List SendTask)
      → e.queue ≡ t ∷ rest
      → IsSound s k e
      → IsSound s (suc k) (record e { queue = rest })
  receive-IsSound s k e t rest q h = record {
    trackers_valid = h.trackers_valid;
    accounted =
        let a = h.accounted in
        let n : length e.queue ≡ suc (length rest) = ap length q in omega arith;
  }

  -- In whatever order the goroutines make their steps, and whatever the world does between them: every
  -- tracker is valid, and the tasks that are settled, received or in the queue are together no more
  -- than those that were counted and those that were sent and are still to be counted.
  pub Reachable-IsSound : (s k : ℕ) (e : Engine) → Reachable d s k e → IsSound s k e
  unfolding pause resume set_tracker observe_all finish_terminals count_task
  Reachable-IsSound _ _ _ start = new_engine-IsSound
  Reachable-IsSound _ _ _ (by_refresh s k e w r) =
      refresh-IsSound s k e w (Reachable-IsSound s k e r)
  Reachable-IsSound _ _ _ (by_pause s k e r) =
      let h = Reachable-IsSound s k e r in
      record { trackers_valid = h.trackers_valid; accounted = h.accounted }
  Reachable-IsSound _ _ _ (by_resume s k e r) =
      let h = Reachable-IsSound s k e r in
      record { trackers_valid = h.trackers_valid; accounted = h.accounted }
  Reachable-IsSound _ _ _ (by_params s k e p r) =
      let h = Reachable-IsSound s k e r in
      record { trackers_valid = h.trackers_valid; accounted = h.accounted }
  Reachable-IsSound _ _ _ (by_window s k e cfg r) =
      let h = Reachable-IsSound s k e r in
      record { trackers_valid = h.trackers_valid; accounted = h.accounted }
  Reachable-IsSound _ _ _ (by_add s k e m now r) =
      let h = Reachable-IsSound s k e r in
      record { trackers_valid = h.trackers_valid; accounted = h.accounted }
  Reachable-IsSound _ _ _ (by_flush_due s k e now r) =
      let h = Reachable-IsSound s k e r in
      record { trackers_valid = h.trackers_valid; accounted = h.accounted }
  Reachable-IsSound _ _ _ (by_flush_all s k e r) =
      let h = Reachable-IsSound s k e r in
      record { trackers_valid = h.trackers_valid; accounted = h.accounted }
  Reachable-IsSound _ _ _ (by_names s k e names r) =
      let h = Reachable-IsSound s k e r in
      record { trackers_valid = h.trackers_valid; accounted = h.accounted }
  Reachable-IsSound _ _ _ (by_observe s k e rule msgs r) =
      let h = Reachable-IsSound s k e r in
      record {
        trackers_valid = observe_all-HasValidTrackers e rule msgs h.trackers_valid;
        accounted = h.accounted;
      }
  Reachable-IsSound _ _ _ (by_finish s k e rule msgs w r) =
      let h = Reachable-IsSound s k e r in
      record {
        trackers_valid = finish_terminals-HasValidTrackers d e rule msgs w h.trackers_valid;
        accounted = h.accounted;
      }
  Reachable-IsSound _ _ _ (by_tracker s k e rule r) =
      let h = Reachable-IsSound s k e r in
      record {
        trackers_valid =
            set_tracker-HasValidTrackers e rule (tracker_for e rule) h.trackers_valid
              (tracker_for-IsValid e rule h.trackers_valid);
        accounted = h.accounted;
      }
  Reachable-IsSound _ _ _ (by_send s k e t r) = send-IsSound s k e t (Reachable-IsSound s k e r)
  Reachable-IsSound _ _ _ (by_count s k e r) =
      let h = Reachable-IsSound (suc s) k e r in
      let a = h.accounted in record { trackers_valid = h.trackers_valid; accounted = omega arith }
  Reachable-IsSound _ _ _ (by_receive s k e t rest q r) =
      receive-IsSound s k e t rest q (Reachable-IsSound s k e r)
  Reachable-IsSound _ _ _ (by_settle s k e r) =
      let h = Reachable-IsSound s (suc k) e r in
      let a = h.accounted in record { trackers_valid = h.trackers_valid; accounted = omega arith }
  Reachable-IsSound _ _ _ (by_drop s k e r) =
      let h = Reachable-IsSound s (suc k) e r in
      let a = h.accounted in record { trackers_valid = h.trackers_valid; accounted = omega arith }
