-- ===== src/Telegram/Updates.antt =====
-- internal/platform/telegram/updates.go: from the updates of Telegram to the messages of the domain,
-- and the fetching of what was missed. `W` is the world behind the sink, the stored peers and
-- Telegram. The library's types have a constructor for each case that the source tells apart; a peer
-- is one of three. Log lines are left out.
use sakura_nexus.Base.{
  ℕ, ◌+◌, Bool, true, false, Option, none, some, List, [], ◌∷◌, if◌then◌else◌, ◌==◌,
}
use sakura_nexus.Base.Text.{Text, text}
use sakura_nexus.Domain.{ChatRef, user, chat, channel, MessageRef, ForwardHeader, ChannelMessage}
use sakura_nexus.Telegram.Entities.{TgEntity, convert_entities}
use sakura_nexus.Telegram.Media.{TgMedia, convert_media}

pub data TgPeer : Type 0 where
  peer_user peer_chat peer_channel : ℕ → TgPeer

pub record TgForward : Type 0 where
  pub from_name : Text
  pub from_id : Option TgPeer

-- The header of a reply: its top message, and the message that is answered.
pub record TgReply : Type 0 where
  pub top_id : ℕ
  pub msg_id : ℕ

pub record TgMessage : Type 0 where
  pub peer : TgPeer
  pub id : ℕ
  pub body : Text
  pub entities : List TgEntity
  pub media : TgMedia
  pub grouped_id : ℕ
  pub date : ℕ
  pub edit_date : ℕ
  pub from : Option TgPeer
  pub reply : Option TgReply
  pub forward : Option TgForward

unfoldable pub chat_from_peer : TgPeer → ChatRef
chat_from_peer (peer_user id) = record { kind = user; id = id }
chat_from_peer (peer_chat id) = record { kind = chat; id = id }
chat_from_peer (peer_channel id) = record { kind = channel; id = id }

unfoldable pub sender_of : Option TgPeer → ℕ
sender_of (some (peer_user id)) = id
sender_of (some (peer_chat id)) = 0
sender_of (some (peer_channel id)) = 0
sender_of none = 0

unfoldable pub thread_of : Option TgReply → ℕ
thread_of none = 0
thread_of (some r) = if r.top_id == 0 then r.msg_id else r.top_id

unfoldable pub forward_header : TgForward → ForwardHeader
forward_header f = elim f.from_id [
  | none ↦ record { from_user_id = 0; from_chat_id = 0; from_title = f.from_name }
  | some (peer_user id) ↦ record { from_user_id = id; from_chat_id = 0; from_title = f.from_name }
  | some (peer_chat id) ↦ record { from_user_id = 0; from_chat_id = 0; from_title = f.from_name }
  | some (peer_channel id) ↦ record {
    from_user_id = 0;
    from_chat_id = id;
    from_title = f.from_name;
  }
]

-- Times are seconds; 0 stands for the zero time.
unfoldable pub convert_message : (Text → Text) → TgMessage → ChannelMessage
unfolding chat_from_peer sender_of thread_of forward_header
convert_message encode m = record {
  ref = record { chat_ref = chat_from_peer m.peer; message_id = m.id };
  source_type = text "channel_message";
  grouped_id = m.grouped_id;
  thread_top_id = thread_of m.reply;
  sender_user_id = sender_of m.from;
  sender_username = [];
  sender_display_name = [];
  body = m.body;
  entities = convert_entities m.entities;
  media = convert_media encode m.media;
  forward_from = elim m.forward [ none ↦ none | some f ↦ some (forward_header f) ];
  published_at = m.date;
  edited_at = if m.edit_date == 0 then none else some m.edit_date;
}

pub data TgMessageClass : Type 0 where
  message : TgMessage → TgMessageClass
  service : TgMessageClass

pub data Update : Type 0 where
  new_message new_channel_message edit_message edit_channel_message : TgMessageClass → Update
  delete_channel_messages : ℕ → List ℕ → Update
  delete_messages : List ℕ → Update
  other_update : Update

pub data Updates : Type 0 where
  batch combined : List Update → Updates
  short : Update → Updates
  private_short other_updates : Updates

-- `MessageSink`: `false` is an error.
pub record Sink (W : Type 0) : Type 0 where
  pub on_new : ChannelMessage → W → Bool × W
  pub on_edit : ChannelMessage → W → Bool × W
  pub on_delete : MessageRef → W → Bool × W

module _ {W : Type 0} (encode : Text → Text) (sink : Sink W) where
  unfoldable pub emit_new : TgMessageClass → W → Bool × W
  emit_new (message m) w = sink.on_new (convert_message encode m) w
  emit_new service w = (true, w)

  unfoldable pub emit_edit : TgMessageClass → W → Bool × W
  emit_edit (message m) w = sink.on_edit (convert_message encode m) w
  emit_edit service w = (true, w)

  -- An error of the sink is logged and the next message is deleted.
  unfoldable pub emit_delete : ℕ → List ℕ → W → W
  emit_delete channel_id [] w = w
  emit_delete channel_id (id ∷ ids) w =
      emit_delete channel_id ids
        (sink.on_delete
          (record { chat_ref = record { kind = channel; id = channel_id }; message_id = id }) w).1

  unfoldable pub handle_update : Update → W → Bool × W
  unfolding emit_new emit_edit emit_delete
  handle_update (new_message m) w = emit_new m w
  handle_update (new_channel_message m) w = emit_new m w
  handle_update (edit_message m) w = emit_edit m w
  handle_update (edit_channel_message m) w = emit_edit m w
  handle_update (delete_channel_messages id ids) w = (true, emit_delete id ids w)
  handle_update (delete_messages ids) w = (true, w)
  handle_update other_update w = (true, w)

  -- The first error ends the list.
  unfoldable pub handle_list : List Update → W → Bool × W
  unfolding handle_update
  handle_list [] w = (true, w)
  handle_list (u ∷ us) w =
      let (fine, w') = handle_update u w in
      elim fine [ true ↦ handle_list us w' | false ↦ (false, w') ]

  unfoldable pub dispatch : Updates → W → Bool × W
  unfolding handle_list
  dispatch (batch us) w = handle_list us w
  dispatch (combined us) w = handle_list us w
  dispatch (short u) w = handle_list (u ∷ []) w
  dispatch private_short w = (true, w)
  dispatch other_updates w = (true, w)

abbrev pub backfill_limit : ℕ
backfill_limit = 50

-- What the store knows of a peer: nothing, an error, a channel with its access hash, or another kind.
pub data KnownPeer : Type 0 where
  not_found find_error not_channel : KnownPeer
  known_channel : ℕ → KnownPeer

-- An answer of messages.getHistory.
pub data History : Type 0 where
  history_error not_channel_messages : History
  channel_messages : List TgMessageClass → History

pub record RecoveryDeps (W : Type 0) : Type 0 where
  pub find_channel : ℕ → W → KnownPeer × W
  -- the peers of the iteration: `some (id, hash)` for a channel; `none` if it cannot begin
  pub iterate : W → Option (List (Option (ℕ × ℕ))) × W
  pub get_history : ℕ → ℕ → ℕ → W → History × W

module _ {W : Type 0} (encode : Text → Text) (sink : Sink W) (r : RecoveryDeps W) where
  -- The loop over the history, the number of messages that the sink took. An error is logged.
  unfoldable pub refill : List TgMessageClass → ℕ → W → ℕ × W
  refill [] n w = (n, w)
  refill (service ∷ ms) n w = refill ms n w
  refill (message m ∷ ms) n w =
      let (fine, w') = sink.on_new (convert_message encode m) w in
      refill ms (if fine then n + 1 else n) w'

  unfoldable pub backfill_channel : ℕ → ℕ → W → W
  unfolding refill
  backfill_channel id hash w =
      let (h, w') = r.get_history id hash backfill_limit w in
      elim h [
        | history_error ↦ w'
        | not_channel_messages ↦ w'
        | channel_messages ms ↦ (refill ms 0 w').1
      ]

  unfoldable pub channel_gap : ℕ → W → W
  unfolding backfill_channel
  channel_gap id w =
      let (p, w') = r.find_channel id w in
      elim p [
        | not_found ↦ w'
        | find_error ↦ w'
        | not_channel ↦ w'
        | known_channel hash ↦ backfill_channel id hash w'
      ]

  unfoldable pub backfill_all : List (Option (ℕ × ℕ)) → W → W
  unfolding backfill_channel
  backfill_all [] w = w
  backfill_all (none ∷ ps) w = backfill_all ps w
  backfill_all (some (id, hash) ∷ ps) w = backfill_all ps (backfill_channel id hash w)

  unfoldable pub global_gap : W → W
  unfolding backfill_all
  global_gap w =
      let (ps, w') = r.iterate w in elim ps [ none ↦ w' | some list ↦ backfill_all list w' ]
