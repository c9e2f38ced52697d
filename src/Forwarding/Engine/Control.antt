-- ===== src/Forwarding/Engine/Control.antt =====
-- internal/forwarding/engine.go: the entries from outside and the two loops. A pass of a loop is one
-- function, which is what its goroutine does by itself; the steps that the goroutines interleave are in
-- Reach.
pub mod Reach
pub mod Passes
pub mod Settles
use sakura_nexus.Base.{
  ℕ, zero, suc, ◌+◌, Bool, true, false, not, ◌&&◌, ◌||◌, Option, none, some, List, [], ◌∷◌, ◌++◌,
  if◌then◌else◌, ◌==◌, ltb, leb, length,
}
use sakura_nexus.Domain.{ChatRef, MessageRef, ChannelMessage, ForwardRule, msg_id}
use sakura_nexus.Forwarding.Cursor.{CursorTracker, current}
use sakura_nexus.Forwarding.Album.{
  AlbumConfig, AlbumAggregator, new_album_aggregator, add, flush_due, flush_all,
}
use sakura_nexus.Forwarding.Engine.State.{
  Deps, Engine, SendTask, ForwardingParams, album_config_of, max_backfill_limit, refresh_rules,
}
use sakura_nexus.Forwarding.Engine.Process.{tracker_for, set_tracker, process_group, process_groups}
use sakura_nexus.Forwarding.Engine.Execute.{execute}

unfoldable pub pause : Engine → Engine
pause e = record e { paused = true }

unfoldable pub resume : Engine → Engine
resume e = record e { paused = false }

-- `==` on the configurations
unfoldable pub album_config_eq : AlbumConfig → AlbumConfig → Bool
album_config_eq a b =
    a.quiet_ms == b.quiet_ms
    && (a.hard_deadline_ms == b.hard_deadline_ms && a.max_size == b.max_size)

unfoldable pub find_rule : ℕ → List ForwardRule → Option ForwardRule
find_rule id [] = none
find_rule id (r ∷ rules) = if r.id == id then some r else find_rule id rules

-- `slices.SortFunc` by the message id.
unfoldable pub insert_message : ChannelMessage → List ChannelMessage → List ChannelMessage
insert_message m [] = m ∷ []
insert_message m (x ∷ xs) =
    let later = insert_message m xs in
    if leb m.ref.message_id x.ref.message_id then m ∷ x ∷ xs else x ∷ later

unfoldable pub sort_messages : List ChannelMessage → List ChannelMessage
unfolding insert_message
sort_messages [] = []
sort_messages (m ∷ msgs) = insert_message m (sort_messages msgs)

unfoldable pub clamp_limit : ℕ → ℕ
clamp_limit limit = if limit == 0 || ltb max_backfill_limit limit then max_backfill_limit else limit

pub record BackfillResult : Type 0 where
  pub fetched : ℕ
  pub cursor : ℕ

pub data BackfillError : Type 0 where
  rule_not_found not_wired history_failed drain_cancelled out_of_fuel : BackfillError

pub data Backfilled : Type 0 where
  done : BackfillResult → Backfilled
  failed : BackfillError → Backfilled

module _ {W : Type 0} (d : Deps W) where
  unfoldable pub handle_new : Engine → ChannelMessage → W → Engine × W
  handle_new e m w =
      let (album, ready) = add e.album (d.now w) m in
      let e' = record e { album = album } in
      if e.paused
      then (e, w)
      else if m.grouped_id == 0
      then process_group d e (m ∷ []) w
      else elim ready [ none ↦ (e', w) | some group ↦ process_group d e' group w ]

  unfoldable pub handle_all : List ChannelMessage → Engine → W → Engine × W
  unfolding handle_new
  handle_all [] e w = (e, w)
  handle_all (m ∷ msgs) e w = let (e', w') = handle_new e m w in handle_all msgs e' w'

  -- A changed window: the groups that are due are flushed, then the aggregator is replaced.
  unfoldable pub apply_settings : Engine → ForwardingParams → W → Engine × W
  unfolding album_config_of album_config_eq
  apply_settings e p w =
      let cfg = album_config_of p in
      let (old, flushed) = flush_due e.album (d.now w) in
      if album_config_eq cfg e.album_cfg
      then (record e { params = p }, w)
      else process_groups d flushed
          (record e { params = p; album_cfg = cfg; album = new_album_aggregator cfg }) w

  -- One tick of `albumLoop`.
  unfoldable pub drain_album : Engine → W → Engine × W
  drain_album e w =
      let (album, groups) = flush_due e.album (d.now w) in
      process_groups d groups (record e { album = album }) w

  -- One pass of `consumeLoop` with a task in the queue and a live context.
  unfoldable pub consume_task : Engine → SendTask → List SendTask → W → Engine × W
  consume_task e t rest w =
      let (e', w') = execute d (record e { queue = rest }) t w in
      (record e' { settled = e'.settled + 1 }, w')

  -- One pass of `consumeLoop`: it waits while the queue is empty, and a task that is received after
  -- the context was cancelled is dropped.
  unfoldable pub consume : Engine → W → Engine × W
  unfolding consume_task
  consume e w = elim e.queue [
    | [] ↦ (e, w)
    | t ∷ rest ↦
        if d.is_cancelled w then (record e { queue = rest }, w) else consume_task e t rest w
  ]

  -- The collected albums are flushed and processed.
  unfoldable pub flush_albums : Engine → W → Engine × W
  flush_albums e w =
      let (album, groups) = flush_all e.album in
      process_groups d groups (record e { album = album }) w

  -- The loop of `drain`: `some true` when all is settled, `some false` when the context is cancelled,
  -- `none` when the fuel is spent. In the place of the 5 ms between two polls the consumer makes one pass,
  -- and no other goroutine makes a step.
  unfoldable pub drain : ℕ → Engine → W → Option Bool × Engine × W
  unfolding flush_albums consume
  drain zero e w = (none, e, w)
  drain (suc fuel) e w =
      let (e1, w1) = flush_albums e w in
      elim (e1.enqueued == e1.settled) [
        | true ↦ (some true, e1, w1)
        | false ↦ elim (d.is_cancelled w1) [
          | true ↦ (some false, e1, w1)
          | false ↦ let (e2, w2) = consume e1 w1 in drain fuel e2 w2
        ]
      ]

  -- From the messages of the history on.
  unfoldable pub replay :
      ℕ → Engine → ForwardRule → List ChannelMessage → W → Backfilled × Engine × W
  unfolding handle_all drain
  replay fuel e rule msgs w =
      let (e1, w1) = handle_all (sort_messages msgs) e w in
      let (settled, e2, w2) = drain fuel e1 w1 in
      elim settled [
        | none ↦ (failed out_of_fuel, e2, w2)
        | some false ↦ (failed drain_cancelled, e2, w2)
        | some true ↦ (
          done (record { fetched = length msgs; cursor = current (tracker_for e2 rule) }),
          set_tracker e2 rule (tracker_for e2 rule),
          w2,
        )
      ]

  unfoldable pub backfill : ℕ → Engine → ℕ → ℕ → W → Backfilled × Engine × W
  unfolding replay
  backfill fuel e rule_id limit w = elim (find_rule rule_id e.rules_cache) [
    | none ↦ (failed rule_not_found, e, w)
    | some rule ↦ elim d.get_history [
      | none ↦ (failed not_wired, e, w)
      | some history ↦
          let e1 = set_tracker e rule (tracker_for e rule) in
          let min_id = current (tracker_for e rule) in
          let (msgs, w1) = history rule.source min_id (clamp_limit limit) w in
          elim msgs [ none ↦ (failed history_failed, e1, w1) | some ms ↦ replay fuel e1 rule ms w1 ]
    ]
  ]
