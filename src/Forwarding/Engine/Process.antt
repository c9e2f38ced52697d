-- ===== src/Forwarding/Engine/Process.antt =====
-- internal/forwarding/engine.go: from a group of messages to the queue. Matching a rule, the
-- trackers of the rules, deduplication, the filters and the hand-over to the queue.
pub mod Trackers
pub mod Durable
pub mod Outcome
use sakura_nexus.Base.{
  ℕ, suc, ◌+◌, Bool, true, false, not, ◌&&◌, ◌||◌, Option, none, some, List, [], ◌∷◌, ◌++◌, any,
  if◌then◌else◌, ◌==◌,
}
use sakura_nexus.Base.Assoc.{lookup, put, nat_eq}
use sakura_nexus.Base.Text.{Text, text, is_empty}
use sakura_nexus.Domain.{
  ChatRef, chat_ref_eq, MessageRef, ChannelMessage, Channel, ForwardRule, Entity,
}
use sakura_nexus.Domain.Laws.{chat_ref_instance}
use sakura_nexus.Forwarding.Cursor.{CursorTracker, new_cursor_tracker, observe, terminal, current}
use sakura_nexus.Forwarding.Filters.{FilterView, build_filter_view, match_source, should_forward}
use sakura_nexus.Forwarding.Engine.State.{
  Deps, Engine, SendTask, Found, lookup_error, missing, found, ForwardingParams,
}

-- `trackerForLocked`: a missing tracker starts at the cursor that the rule was loaded with.
unfoldable pub tracker_for : Engine → ForwardRule → CursorTracker
tracker_for e rule = elim (lookup rule.id e.trackers) [
  | some t ↦ t
  | none ↦ new_cursor_tracker rule.last_message_id
]

unfoldable pub set_tracker : Engine → ForwardRule → CursorTracker → Engine
set_tracker e rule t = record e { trackers = put rule.id t e.trackers }

unfoldable pub observe_loop : CursorTracker → List ChannelMessage → CursorTracker
observe_loop t [] = t
observe_loop t (m ∷ msgs) = observe_loop (observe t m.ref.message_id) msgs

unfoldable pub observe_all : Engine → ForwardRule → List ChannelMessage → Engine
unfolding tracker_for set_tracker observe_loop
observe_all e rule msgs = set_tracker e rule (observe_loop (tracker_for e rule) msgs)

-- The tracker after the loop, and `moved`.
unfoldable pub terminal_loop : CursorTracker → Bool → List ChannelMessage → CursorTracker × Bool
terminal_loop t moved [] = (t, moved)
terminal_loop t moved (m ∷ msgs) =
    terminal_loop (terminal t m.ref.message_id).0
      (if (terminal t m.ref.message_id).1.1 then true else moved) msgs

abbrev pub channel_username : Found → Text
channel_username lookup_error = []
channel_username missing = []
channel_username (found ch) = ch.username

-- `e.queue <- task`
unfoldable pub send_task : Engine → SendTask → Engine
send_task e task = record e { queue = e.queue ++ task ∷ [] }

-- `e.enqueued.Add(1)`, which no lock joins to the sending.
unfoldable pub count_task : Engine → Engine
count_task e = record e { enqueued = e.enqueued + 1 }

module _ {W : Type 0} (d : Deps W) where
  unfoldable pub finish_terminals : Engine → ForwardRule → List ChannelMessage → W → Engine × W
  unfolding tracker_for set_tracker terminal_loop
  finish_terminals e rule msgs w =
      let (t, moved) = terminal_loop (tracker_for e rule) false msgs in
      (set_tracker e rule t, if moved then d.advance_cursor rule.id (current t) w else w)

  unfoldable pub lookup_username : Engine → ChatRef → W → Text × Engine × W
  lookup_username e chat w =
      if not e.has_username_rules then ([], e, w) else elim (lookup chat e.usernames) [
        | some cached ↦ (cached, e, w)
        | none ↦ elim d.get_channel [
          | none ↦ ([], record e { usernames = put chat [] e.usernames }, w)
          | some get ↦
              let (ch, w') = get chat.id w in
              let name = channel_username ch in
              (name, record e { usernames = put chat name e.usernames }, w')
        ]
      ]

  unfoldable pub match_rule : Engine → ForwardRule → ChatRef → W → Bool × Engine × W
  unfolding lookup_username
  match_rule e rule chat w =
      let (username, e', w') = lookup_username e chat w in
      if chat_ref_eq rule.source chat
      then (true, e, w)
      else (match_source d.lib rule chat username, e', w')

  -- The loop of the five-column deduplication: an error, a hit, or neither.
  unfoldable pub any_exists : List ChannelMessage → ChatRef → W → Option Bool × W
  any_exists [] target w = (some false, w)
  any_exists (m ∷ msgs) target w =
      let (hit, w') = d.exists m.ref target w in
      elim hit [
        | none ↦ (none, w')
        | some true ↦ (some true, w')
        | some false ↦ any_exists msgs target w'
      ]

  -- The content test: it is made only if it is switched on and there is text.
  unfoldable pub content_exists : Engine → ForwardRule → ChatRef → FilterView → W → Option Bool × W
  content_exists e rule chat view w =
      if e.params.content_dedup && not (is_empty view.aggregate_text)
      then d.exists_by_content chat rule.target (d.content_hash view.aggregate_text) w
      else (some false, w)

  -- The `select` at the end: the task is queued, or the messages stay unresolved. These are the two
  -- steps of the goroutine itself; what others do between them is in Control/Reach.
  unfoldable pub enqueue : Engine → SendTask → W → Engine × W
  unfolding send_task count_task
  enqueue e task w =
      let (admitted, w') = d.admit w in (if admitted then count_task (send_task e task) else e, w')

  unfoldable pub make_task : ForwardRule → ChannelMessage → List ChannelMessage → SendTask
  make_task rule m msgs =
      let view = build_filter_view (m ∷ msgs) in
      record {
        rule = rule;
        msgs = m ∷ msgs;
        view = view;
        body = view.aggregate_text;
        entities = m.entities;
        content_hash = d.content_hash view.aggregate_text;
      }

  -- After the deduplication: the filters, then the queue.
  unfoldable pub filter_and_enqueue :
      Engine → ForwardRule → ChannelMessage → List ChannelMessage → W → Engine × W
  unfolding make_task enqueue
  filter_and_enqueue e rule m msgs w =
      elim (should_forward d.lib rule (build_filter_view (m ∷ msgs))) [
        | some reason ↦ finish_terminals e rule (m ∷ msgs) w
        | none ↦ enqueue e (make_task rule m msgs) w
      ]

  -- After the five-column deduplication: that of the content.
  unfoldable pub check_content :
      Engine → ForwardRule → ChannelMessage → List ChannelMessage → W → Engine × W
  unfolding content_exists filter_and_enqueue
  check_content e rule m msgs w =
      let (hit, w') = content_exists e rule m.ref.chat_ref (build_filter_view (m ∷ msgs)) w in
      elim hit [
        | none ↦ (e, w')
        | some true ↦ finish_terminals e rule (m ∷ msgs) w'
        | some false ↦ filter_and_enqueue e rule m msgs w'
      ]

  unfoldable pub process_rule :
      Engine → ForwardRule → ChannelMessage → List ChannelMessage → W → Engine × W
  unfolding observe_all any_exists check_content
  process_rule e rule m msgs w =
      let e' = observe_all e rule (m ∷ msgs) in
      let (hit, w') = any_exists (m ∷ msgs) rule.target w in
      elim hit [
        | none ↦ (e', w')
        | some true ↦ finish_terminals e' rule (m ∷ msgs) w'
        | some false ↦ check_content e' rule m msgs w'
      ]

  -- The loop over the snapshot of the rules.
  unfoldable pub process_rules :
      List ForwardRule → Engine → ChannelMessage → List ChannelMessage → W → Engine × W
  unfolding match_rule process_rule
  process_rules [] e m msgs w = (e, w)
  process_rules (rule ∷ rules) e m msgs w =
      let (matched, e1, w1) = match_rule e rule m.ref.chat_ref w in
      let (e2, w2) = process_rule e1 rule m msgs w1 in
      process_rules rules (if matched then e2 else e1) m msgs (if matched then w2 else w1)

  unfoldable pub process_group : Engine → List ChannelMessage → W → Engine × W
  unfolding process_rules
  process_group e [] w = (e, w)
  process_group e (m ∷ msgs) w = process_rules e.rules_cache e m msgs w

  unfoldable pub process_groups : List (List ChannelMessage) → Engine → W → Engine × W
  unfolding process_group
  process_groups [] e w = (e, w)
  process_groups (g ∷ gs) e w = let (e', w') = process_group e g w in process_groups gs e' w'
