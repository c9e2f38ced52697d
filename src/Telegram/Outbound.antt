-- ===== src/Telegram/Outbound.antt =====
-- internal/platform/telegram/outbound.go: sending by MTProto. `W` is the world behind Telegram and the
-- disk, `Peer` an input peer of the library and `F` an uploaded file. An answer is `none` when the call
-- failed. The text of an error is its constructor.
pub mod Delivers
use sakura_nexus.Base.{
  ℕ, zero, suc, ◌+◌, Bool, true, false, Option, none, some, List, [], ◌∷◌, ◌++◌, if◌then◌else◌,
  ◌==◌, length,
}
use sakura_nexus.Base.Int.{ℤ}
use sakura_nexus.Base.Text.{Text, is_empty}
use sakura_nexus.Domain.{
  ChatRef, SendStyle, auto, plain, rich, Entity, MessageContent, SendRequest, SentMessage,
  LocalFile,
}
use sakura_nexus.Telegram.Entities.{TgEntity, tg_entities}
use sakura_nexus.Telegram.Media.{Upload, uploaded_to_input_media}
use sakura_nexus.Telegram.TextSplit.{TextSegment, split_long_text, telegram_message_limit}
use sakura_nexus.Telegram.RichOutbound.{Sent, no_message}

-- `unfinished` stands for a splitting that does not end.
pub data OutboundError : Type 0 where
  no_resolver peer_error unfinished no_files no_ids send_failed : OutboundError
  segment_failed : ℕ → ℕ → OutboundError
  open_failed upload_failed : ℕ → OutboundError

pub data Resolved (Peer : Type 0) : Type 0 where
  resolved : Peer → Resolved Peer
  unresolved : OutboundError → Resolved Peer

-- What a sending is answered with: the list says which updates carry the id of a message.
pub data Answer : Type 0 where
  short_sent : ℕ → Answer
  updates : List (Option ℕ) → Answer
  other_answer : Answer

pub record MessageRequest (Peer : Type 0) : Type 0 where
  pub peer : Peer
  pub message : Text
  pub entities : List TgEntity
  pub reply_to : Option ℕ
  pub random_id : ℕ
  pub no_webpage : Bool
  pub silent : Bool

unfoldable pub reply_header : ℕ → Option ℕ
reply_header reply_to = if reply_to == 0 then none else some reply_to

unfoldable pub first_id : List (Option ℕ) → ℕ
first_id [] = 0
first_id (none ∷ us) = first_id us
first_id (some id ∷ us) = id

unfoldable pub extract_sent_msg_id : Answer → ℕ
unfolding first_id
extract_sent_msg_id (short_sent id) = id
extract_sent_msg_id (updates us) = first_id us
extract_sent_msg_id other_answer = 0

abbrev pub sent_as : {E : Type 0} → ChatRef → Answer → Sent E
sent_as c a = record {
  message = record { chat_ref = c; message_id = extract_sent_msg_id a };
  error = none;
}

abbrev pub stop {ℓ} : {W : Type ℓ} → SentMessage → OutboundError → W → Sent OutboundError × W
stop first e w = (record { message = first; error = some e }, w)

-- `req.Text`, or the text of the content if that is empty.
unfoldable pub text_of : SendRequest → Text
text_of req =
    if is_empty req.body then elim req.content [ none ↦ req.body | some c ↦ c.body ] else req.body

module _ {W Peer : Type 0} (peers : Option (ChatRef → W → Option Peer × W))
    (random_id : W → ℕ × W) where
  unfoldable pub input_peer : ChatRef → W → Resolved Peer × W
  input_peer c w = elim peers [
    | none ↦ (unresolved no_resolver, w)
    | some resolve ↦
        let (p, w') = resolve c w in
        elim p [ none ↦ (unresolved peer_error, w') | some peer ↦ (resolved peer, w') ]
  ]

  module _ (send_message : MessageRequest Peer → W → Option Answer × W) where
    abbrev pub message_request : Peer → SendRequest → TextSegment → ℕ → MessageRequest Peer
    message_request peer req seg r = record {
      peer = peer;
      message = seg.body;
      entities = tg_entities seg.entities;
      reply_to = reply_header req.reply_to;
      random_id = r;
      no_webpage = true;
      silent = req.silent;
    }

    -- The loop over the segments: `i` counts from 1, `n` is their number.
    unfoldable pub send_segments :
        Peer → SendRequest → ℕ → ℕ → SentMessage → List TextSegment → W → Sent OutboundError × W
    unfolding extract_sent_msg_id reply_header
    send_segments peer req n i first [] w = (record { message = first; error = none }, w)
    send_segments peer req n i first (seg ∷ segs) w =
        let (r, w1) = random_id w in
        let (a, w2) = send_message (message_request peer req seg r) w1 in
        elim a [
          | none ↦ stop first (segment_failed i n) w2
          | some answer ↦
              send_segments peer req n (i + 1)
                (if first.message_id == 0
                  then record { chat_ref = req.chat_ref; message_id = extract_sent_msg_id answer }
                  else first)
                segs w2
        ]

    unfoldable pub send_text_mtproto : SendRequest → W → Sent OutboundError × W
    unfolding input_peer text_of send_segments
    send_text_mtproto req w =
        let (p, w') = input_peer req.chat_ref w in
        elim p [
          | unresolved e ↦ stop no_message e w'
          | resolved peer ↦
              elim (split_long_text (text_of req) req.entities telegram_message_limit) [
                | none ↦ stop no_message unfinished w'
                | some segs ↦ send_segments peer req (length segs) 1 no_message segs w'
              ]
        ]

-- Where `SendText` sends a request: `rich_send` is the router, if there is one.
unfoldable pub send_text {ℓ} :
    {R : Type ℓ} → Option (SendRequest → MessageContent → R) → (SendRequest → R) → SendRequest → R
send_text rich_send plain_send req = elim req.content [
  | none ↦ plain_send req
  | some c ↦ elim rich_send [
    | none ↦ plain_send req
    | some send ↦ elim req.style [ plain ↦ plain_send req | auto ↦ send req c | rich ↦ send req c ]
  ]
]
