-- ===== src/Telegram/Peers.antt =====
-- internal/platform/telegram/peers.go: finding the input peer of a chat, and which errors of a sending
-- are permanent. `W` is the world behind the store and Telegram; ids and access hashes are natural
-- numbers.
use sakura_nexus.Base.{ℕ, Bool, false, Option, none, some, List, [], ◌∷◌, if◌then◌else◌, ◌==◌, any}
use sakura_nexus.Base.Text.{Text, text}
use sakura_nexus.Domain.{ChatRef, PeerKind, user, chat, channel}

-- What is stored of a peer; the constructor is that of its entity.
pub data StoredPeer : Type 0 where
  stored_user stored_channel : ℕ → ℕ → StoredPeer
  stored_chat : ℕ → StoredPeer
  stored_nothing : StoredPeer

pub data InputPeer : Type 0 where
  input_user input_channel : ℕ → ℕ → InputPeer
  input_chat : ℕ → InputPeer

-- An answer of channels.getChannels: `some (id, hash)` for each chat that is a channel.
pub data ChannelsAnswer : Type 0 where
  channels_error other_answer : ChannelsAnswer
  channels : List (Option (ℕ × ℕ)) → ChannelsAnswer

-- The kinds of the store.
unfoldable pub peer_kind_of : PeerKind → PeerKind
peer_kind_of user = user
peer_kind_of chat = chat
peer_kind_of channel = channel

unfoldable pub input_peer_of : StoredPeer → Option InputPeer
input_peer_of (stored_user id hash) = some (input_user id hash)
input_peer_of (stored_chat id) = some (input_chat id)
input_peer_of (stored_channel id hash) = some (input_channel id hash)
input_peer_of stored_nothing = none

-- The channel with this id in an answer.
unfoldable pub find_channel : ℕ → List (Option (ℕ × ℕ)) → Option ℕ
find_channel id [] = none
find_channel id (none ∷ cs) = find_channel id cs
find_channel id (some (c, hash) ∷ cs) = if c == id then some hash else find_channel id cs

module _ {W : Type 0} (find : PeerKind → ℕ → W → Option StoredPeer × W)
    (get_channels : Option (ℕ → W → ChannelsAnswer × W))
    (assign : ℕ → StoredPeer → W → Bool × W) where
  -- The way to the server; an error of storing the answer changes nothing.
  unfoldable pub ask_server : (ℕ → W → ChannelsAnswer × W) → ℕ → W → Option InputPeer × W
  unfolding find_channel input_peer_of
  ask_server ask id w =
      let (a, w1) = ask id w in
      elim a [
        | channels_error ↦ (none, w1)
        | other_answer ↦ (none, w1)
        | channels cs ↦ elim (find_channel id cs) [
          | none ↦ (none, w1)
          | some hash ↦
              (input_peer_of (stored_channel id hash), (assign id (stored_channel id hash) w1).1)
        ]
      ]

  -- `none` is the error.
  unfoldable pub input_peer : ChatRef → W → Option InputPeer × W
  unfolding peer_kind_of input_peer_of ask_server
  input_peer c w =
      let (p, w1) = find (peer_kind_of c.kind) c.id w in
      elim p [
        | some stored ↦ (input_peer_of stored, w1)
        | none ↦ elim c.kind [
          | user ↦ (none, w1)
          | chat ↦ (none, w1)
          | channel ↦ elim get_channels [ none ↦ (none, w1) | some ask ↦ ask_server ask c.id w1 ]
        ]
      ]

abbrev pub permanent_send_codes : List Text
permanent_send_codes =
    text "CHAT_WRITE_FORBIDDEN"
    ∷ text "USER_BANNED_IN_CHANNEL"
    ∷ text "CHAT_ADMIN_REQUIRED"
    ∷ text "CHANNEL_PRIVATE"
    ∷ text "CHANNEL_INVALID"
    ∷ text "CHAT_ID_INVALID"
    ∷ text "PEER_ID_INVALID"
    ∷ text "MESSAGE_ID_INVALID"
    ∷ text "MESSAGE_EMPTY"
    ∷ text "MEDIA_INVALID"
    ∷ text "MEDIA_EMPTY"
    ∷ text "PHOTO_INVALID"
    ∷ text "DOCUMENT_INVALID"
    ∷ text "USER_DEACTIVATED_BAN"
    ∷ text "INPUT_USER_DEACTIVATED"
    ∷ []

-- `is_code e` is `tgerr.Is(err, code)`; `none` is nil.
unfoldable pub is_permanent_send_error {ℓ} : {E : Type ℓ} → (E → Text → Bool) → Option E → Bool
is_permanent_send_error is_code none = false
is_permanent_send_error is_code (some e) = any (is_code e) permanent_send_codes
