-- ===== src/Telegram/History.antt =====
-- internal/platform/telegram/history.go: the latest messages of a chat above an id. `W` is the world
-- behind Telegram and `Peer` an input peer.
use sakura_nexus.Base.{ℕ, Option, none, some, List, [], ◌∷◌, if◌then◌else◌, ◌==◌}
use sakura_nexus.Base.Text.{Text}
use sakura_nexus.Domain.{ChatRef, ChannelMessage}
use sakura_nexus.Telegram.Updates.{TgMessageClass, message, service, convert_message}

-- The answers of messages.getHistory; `not_modified` stands for every other kind.
pub data HistoryAnswer : Type 0 where
  messages slice channel_messages : List TgMessageClass → HistoryAnswer
  not_modified : HistoryAnswer

unfoldable pub history_messages : HistoryAnswer → Option (List TgMessageClass)
history_messages (messages ms) = some ms
history_messages (slice ms) = some ms
history_messages (channel_messages ms) = some ms
history_messages not_modified = none

unfoldable pub convert_history : (Text → Text) → List TgMessageClass → List ChannelMessage
convert_history encode [] = []
convert_history encode (message m ∷ ms) = convert_message encode m ∷ convert_history encode ms
convert_history encode (service ∷ ms) = convert_history encode ms

module _ {W Peer : Type 0} (encode : Text → Text) (peers : Option (ChatRef → W → Option Peer × W))
    (get : Peer → ℕ → ℕ → W → Option HistoryAnswer × W) where
  -- `none` is the error. A limit that is not positive is 1.
  unfoldable pub get_history : ChatRef → ℕ → ℕ → W → Option (List ChannelMessage) × W
  unfolding history_messages convert_history
  get_history c min_id limit w = elim peers [
    | none ↦ (none, w)
    | some resolve ↦
        let (p, w1) = resolve c w in
        elim p [
          | none ↦ (none, w1)
          | some peer ↦
              let (a, w2) = get peer min_id (if limit == 0 then 1 else limit) w1 in
              elim a [
                | none ↦ (none, w2)
                | some answer ↦ elim (history_messages answer) [
                  | none ↦ (none, w2)
                  | some ms ↦ (some (convert_history encode ms), w2)
                ]
              ]
        ]
  ]
