-- ===== src/Forwarding/Engine/Control/Settles.antt =====
-- Draining ends (internal/forwarding/engine.go, `drain`): the fuel that is enough for it.
use sakura_nexus.Base.{
  ℕ, zero, suc, ◌+◌, ◌≡◌, inl, inr, refl, ap, ◌∙◌, Bool, true, false, if◌then◌else◌, some, List, [],
  ◌∷◌, ◌++◌, map, ◌==◌, arith, Bool-cases, length, length-append,
}
use sakura_nexus.Domain.{ChannelMessage, ForwardRule, SentMessage}
use sakura_nexus.Forwarding.Album.{Groups, flush_all}
use sakura_nexus.Forwarding.Engine.State.{Deps, Engine, SendTask, Result}
use sakura_nexus.Forwarding.Engine.Process.{
  set_tracker, observe_all, finish_terminals, send_task, count_task, enqueue, process_groups,
}
use sakura_nexus.Forwarding.Engine.Process.Trackers.{IsKept, process_groups_keeps}
use sakura_nexus.Forwarding.Engine.Execute.{execute}
use sakura_nexus.Forwarding.Engine.Execute.Outcome.{Settled, final, open_task, execute-Settled}
use sakura_nexus.Forwarding.Engine.Control.{consume_task, consume, flush_albums, drain}

-- Every queued task is settled or in the queue.
abbrev pub IsExact : Engine → Type 0
IsExact e = e.enqueued ≡ e.settled + length e.queue

-- And no album is being collected.
abbrev IsFlushed : Engine → Type 0
IsFlushed e = IsExact e × (e.album.groups ≡ [])

module _ {W : Type 0} (d : Deps W) where
  finish-IsFlushed :
      (e : Engine) (r : ForwardRule) (msgs : List ChannelMessage) (w : W)
      → IsFlushed e
      → IsFlushed (finish_terminals d e r msgs w).0
  unfolding finish_terminals set_tracker
  finish-IsFlushed e r msgs w h = h

  observe-IsFlushed :
      (e : Engine) (r : ForwardRule) (msgs : List ChannelMessage)
      → IsFlushed e
      → IsFlushed (observe_all e r msgs)
  unfolding observe_all set_tracker
  observe-IsFlushed e r msgs h = h

  queued-IsExact :
      (e : Engine) (t : SendTask)
      → IsExact e
      → IsExact (record e { queue = e.queue ++ t ∷ []; enqueued = e.enqueued + 1 })
  queued-IsExact e t h =
      let k : length (e.queue ++ t ∷ []) ≡ length e.queue + 1 = length-append e.queue (t ∷ []) in
      omega arith

  enqueue-IsFlushed :
      (e : Engine) (t : SendTask) (w : W) → IsFlushed e → IsFlushed (enqueue d e t w).0
  unfolding enqueue send_task count_task
  enqueue-IsFlushed e t w h = elim (Bool-cases (d.admit w).0) [
    | inl admitted ↦ rw admitted (queued-IsExact e t h.0, h.1)
    | inr left_out ↦ rw left_out h
  ]

  IsFlushed-IsKept : IsKept d IsFlushed
  IsFlushed-IsKept = record {
    by_observe = observe-IsFlushed;
    by_finish = finish-IsFlushed;
    by_enqueue = enqueue-IsFlushed;
    by_names = λ e names h. h;
  }

  flush_albums-IsFlushed : (e : Engine) (w : W) → IsExact e → IsFlushed (flush_albums d e w).0
  unfolding flush_albums flush_all
  flush_albums-IsFlushed e w h = process_groups_keeps d IsFlushed IsFlushed-IsKept _ _ w (h, refl)

  no_groups :
      (gs : Groups) (e : Engine) (w : W)
      → gs ≡ []
      → (process_groups d (map (λ g. (g.1).msgs) gs) e w).0.queue ≡ e.queue
  unfolding process_groups
  no_groups [] e w h = refl
  no_groups (g ∷ gs) e w h = absurd (cc)

  flush_albums-queue :
      (e : Engine) (w : W) → e.album.groups ≡ [] → (flush_albums d e w).0.queue ≡ e.queue
  unfolding flush_albums flush_all
  flush_albums-queue e w h = no_groups e.album.groups _ w h

  -- What a task leaves as it is.
  abbrev Same : Engine → Engine → Type 0
  Same e out =
      (out.enqueued ≡ e.enqueued)
      × (out.settled ≡ e.settled)
      × (out.queue ≡ e.queue)
      × (out.album.groups ≡ e.album.groups)

  outcome-Same :
      (e : Engine) (t : SendTask) {r : Result SentMessage} {w1 : W} {out : Engine × W}
      → Settled d e t.rule t.msgs r w1 out
      → Same e out.0
  unfolding finish_terminals set_tracker
  outcome-Same e t (final f w' same) = rw same (refl, refl, refl, refl)
  outcome-Same e t (open_task f same) = rw same (refl, refl, refl, refl)

  execute-Same : (e : Engine) (t : SendTask) (w : W) → Same e (execute d e t w).0
  execute-Same e t w = elim (execute-Settled d e t w) [
    | inr (asleep, same) ↦ rw same (refl, refl, refl, refl)
    | inl (awake, o) ↦ outcome-Same e t o
  ]

  if-false : {A : Type 0} (b : Bool) (x y : A) → b ≡ false → (if b then x else y) ≡ y
  if-false false x y h = refl
  if-false true x y h = absurd (cc)

  -- A pass of the consumer over a queue that is not empty makes it one shorter.
  consume-shorter :
      (e : Engine) (q : List SendTask) (w : W) (n : ℕ)
      → ((w : W) → d.is_cancelled w ≡ false)
      → IsFlushed (record e { queue = q })
      → length q ≡ suc n
      → IsFlushed (consume d (record e { queue = q }) w).0
        × (length (consume d (record e { queue = q }) w).0.queue ≡ n)
  unfolding consume consume_task
  consume-shorter e [] w n live h len = absurd (omega arith)
  consume-shorter e (t ∷ rest) w n live h len =
      let e' : Engine = record e { queue = rest } in
      let (a, b, c, g) = execute-Same e' t w in
      let out = (execute d e' t w).0 in
      let k : length out.queue ≡ length rest = ap length c in
      let h0 = h.0 in rw (live w) ((omega arith, g ∙ h.1), omega arith)

  drain_from-settles :
      (n : ℕ) (e : Engine) (w : W)
      → ((w : W) → d.is_cancelled w ≡ false)
      → IsExact e
      → length (flush_albums d e w).0.queue ≡ n
      → (drain d (suc n) e w).0 ≡ some true
  unfolding drain
  drain_from-settles zero e w live h len =
      let e1 = (flush_albums d e w).0 in
      let r1 = (flush_albums-IsFlushed e w h).0 in
      let all_done : (e1.enqueued == e1.settled) ≡ true = ground arith in rw (all_done, drain) refl
  drain_from-settles (suc n) e w live h len =
      let e1 = (flush_albums d e w).0 in
      let w1 = (flush_albums d e w).1 in
      let r1 = flush_albums-IsFlushed e w h in
      let r1e = r1.0 in
      let more : (e1.enqueued == e1.settled) ≡ false = ground arith in
      let (r2, len2) = consume-shorter e1 e1.queue w1 n live r1 len in
      let (e2, w2) = consume d e1 w1 in
      rw (more, live w1, drain)
        (drain_from-settles n e2 w2 live r2.0 (ap length (flush_albums-queue e2 w2 r2.1) ∙ len2))

  -- Draining ends: while the context is not cancelled, and every queued task is settled or in the
  -- queue, one pass more than there are tasks in the queue after the albums are flushed is enough to
  -- report that all is settled.
  pub drain-settles :
      (e : Engine) (w : W)
      → ((w : W) → d.is_cancelled w ≡ false)
      → IsExact e
      → (drain d (suc (length (flush_albums d e w).0.queue)) e w).0 ≡ some true
  drain-settles e w live h =
      drain_from-settles (length (flush_albums d e w).0.queue) e w live h refl
