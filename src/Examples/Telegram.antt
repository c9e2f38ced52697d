-- ===== src/Examples/Telegram.antt =====
-- Runs of the conversions of messages and of the sending of texts.
use sakura_nexus.Base.{
  ℕ, suc, ◌≤◌, ◌≡◌, refl, Bool, true, false, Option, none, some, List, [], ◌∷◌, All, arith, length,
}
use sakura_nexus.Base.Text.{Text, text, is_empty, has_prefix, join}
use sakura_nexus.Base.Int.{neg}
use sakura_nexus.Domain.{ChatRef, channel, auto, MediaRef, MessageContent, SendRequest, Entity}
use sakura_nexus.Botapi.ChatId.{chat_id, encode_id}
use sakura_nexus.Botapi.ChatId.Distinct.{chat_id-injective}
use sakura_nexus.Botapi.Client.{Answer, answered, call}
use sakura_nexus.Botapi.Client.Bound.{counted_post, counted_sleep, Bounded, call_bound}
use sakura_nexus.Telegram.Entities.{
  TgEntity, bold, pre, text_url, mention_name, convert_entities, tg_entities,
}
use sakura_nexus.Telegram.Entities.RoundTrip.{
  is_bold, is_pre, is_text_url, is_mention_name, tg_entities-convert_entities,
}
use sakura_nexus.Telegram.Media.{
  Document, as_document, convert_document, media_attributes, uploaded_to_input_media,
}
use sakura_nexus.Telegram.Media.RoundTrip.{voice, kind_type, convert_document-media_attributes}
use sakura_nexus.Telegram.TextSplit.{TextSegment, split_long_text}
use sakura_nexus.Telegram.TextSplit.Lossless.{IsSegment, bodies, split_long_text-lossless}
use sakura_nexus.Telegram.RichSplit.{parts}
use sakura_nexus.Telegram.RichParse.{parse_lines, rich_text_messages}
use sakura_nexus.Telegram.RichLine.{is_media_md, count_media, is_rich_list_item, is_footnote_def}
use sakura_nexus.Telegram.RichParse.Lossless.{IsParsed, parse_lines-Lossless}
use sakura_nexus.Telegram.RichOutbound.{
  RichParams, CallResult, failed, api, Sent, RichState, build_rich_params, no_message, rows_of,
}
use sakura_nexus.Telegram.RichOutbound.Sticky.{send_all, unsupported-send_all}
use sakura_nexus.Telegram.Outbound.{
  OutboundError, MessageRequest, short_sent, text_of, send_text_mtproto,
}
use sakura_nexus.Telegram.Outbound.Delivers.{
  Delivered, beside, beside_peers, recorded_send, send_text_mtproto-Delivered,
}

abbrev rich_lines : List Text
rich_lines = text "# Title" ∷ [] ∷ text "- item" ∷ text "  more" ∷ text "words" ∷ []

parse_example : IsParsed rich_lines (parse_lines (length rich_lines) rich_lines [] [])
parse_example = parse_lines-Lossless rich_lines

abbrev bold_word : Entity
bold_word = record { type = text "bold"; offset = 1; length = 3; url = []; user_id = 0 }

split_example :
    (segs : List TextSegment) × (split_long_text (text "abcde") (bold_word ∷ []) 2 ≡ some segs)
    × (bodies segs ≡ text "abcde")
    × All (IsSegment 2) segs
split_example =
    split_long_text-lossless (text "abcde") (bold_word ∷ []) 2 (omega arith) (omega arith, tt)

abbrev marks : List TgEntity
marks = bold 0 2 ∷ pre 3 4 [] ∷ text_url 8 2 (text "u") ∷ mention_name 11 3 7 ∷ []

entities_example : tg_entities (convert_entities marks) ≡ marks
entities_example =
    tg_entities-convert_entities marks
      (is_bold 0 2, (is_pre 3 4, (is_text_url 8 2 (text "u"), (is_mention_name 11 3 7, tt))))

abbrev voice_note : MediaRef
voice_note = record {
  key = text "doc:0";
  type = text "voice";
  mime_type = text "audio/ogg";
  file_name = text "a.ogg";
  file_ref = [];
  width = 0;
  height = 0;
  duration = 7;
  size = 10;
}

abbrev voice_document : Document
voice_document = record {
  mime_type = text "audio/ogg";
  file_reference = text "r";
  size = 10;
  attributes = media_attributes voice_note;
}

media_example :
    (uploaded_to_input_media voice_note
      ≡ as_document (text "audio/ogg") (media_attributes voice_note))
    × ((convert_document (λ s. s) voice_document).type ≡ text "voice")
    × ((convert_document (λ s. s) voice_document).file_name ≡ text "a.ogg")
unfolding kind_type
media_example =
    convert_document-media_attributes (λ s. s) voice voice_note (text "audio/ogg") (text "r") 10
      refl

abbrev news : ChatRef
news = record { kind = channel; id = 7 }

news_id : chat_id news ≡ some (neg 1000000000007)
unfolding chat_id encode_id
news_id = refl

chat_id_example : news ≡ news
chat_id_example =
    chat_id-injective news news (neg 1000000000007) (λ e. ground (arith, e))
      (λ e. ground (arith, e)) news_id news_id

abbrev busy : Answer
busy =
    answered 500 none
      (record { fine = false; result = []; error_code = 500; description = []; retry_after = none })

-- A server that is always busy, asked by a client whose world counts nothing of its own.
abbrev ask : Text → ℕ → Answer × ℕ
ask payload w = (busy, w)

abbrev rest_for : ℕ → ℕ → Bool × ℕ
rest_for delay w = (true, w)

call_example :
    Bounded 1 4
      (call (counted_post ask) (counted_sleep rest_for) some [] (some (text "{}")) (0, 0)).1.1
      (call (counted_post ask) (counted_sleep rest_for) some [] (some (text "{}")) (0, 0)).0
call_example = call_bound ask rest_for some [] (text "{}") 0

abbrev note : MessageContent
note = record { body = text "hello"; media_refs = [] }

abbrev request : SendRequest
request = record {
  chat_ref = news;
  style = auto;
  content = some note;
  body = [];
  entities = [];
  media = [];
  caption = [];
  reply_to = 0;
  markup = none;
  silent = false;
}

abbrev old_server : RichParams → ℕ → CallResult × ℕ
old_server p w = (failed (api 404 (text "Not Found")), w)

abbrev plain_sender : SendRequest → ℕ → Sent OutboundError × ℕ
plain_sender req w = (record { message = no_message; error = none }, suc w)

hello_message : rich_text_messages (text "hello") ≡ parts (text "hello" ∷ [])
unfolding rich_text_messages is_empty has_prefix is_media_md count_media is_rich_list_item
    is_footnote_def join
hello_message = refl

abbrev enabled : RichState
enabled = record { disabled = false; reason = [] }

abbrev params : RichParams
params = record {
  chat_id = neg 1000000000007;
  markdown = text "hello";
  skip_entity_detection = false;
  reply_parameters = none;
  reply_markup = none;
  disable_notification = false;
}

params_built : build_rich_params (text "hello") request true ≡ some params
unfolding build_rich_params chat_id encode_id rows_of
params_built = refl

sticky_example :
    ((send_all
        (λ s. s)
        old_server
        plain_sender
        ((request, note) ∷ (request, note) ∷ [])
        enabled
        3).0.disabled
      ≡ true)
    × (3
        ≤ (send_all
            (λ s. s)
            old_server
            plain_sender
            ((request, note) ∷ (request, note) ∷ [])
            enabled
            3).1)
sticky_example =
    unsupported-send_all (λ s. s) old_server plain_sender (λ n. 3 ≤ n) (λ req n p. omega arith)
      request note ((request, note) ∷ []) enabled 3 (text "hello") [] params (text "Not Found") refl
      hello_message params_built refl (omega arith)

abbrev known_peers : Option (ChatRef → ℕ → Option ℕ × ℕ)
known_peers = some (λ c w. (some c.id, w))

abbrev next_random : ℕ → ℕ × ℕ
next_random w = (w, suc w)

abbrev telegram : MessageRequest ℕ → ℕ → Option sakura_nexus.Telegram.Outbound.Answer × ℕ
telegram req w = (some (short_sent w), w)

delivered_example :
    Delivered
      (text_of request)
      []
      (send_text_mtproto
        (beside_peers known_peers)
        (beside next_random)
        (recorded_send telegram)
        request
        (0, [])).1.1
      (send_text_mtproto
        (beside_peers known_peers)
        (beside next_random)
        (recorded_send telegram)
        request
        (0, [])).0
delivered_example = send_text_mtproto-Delivered known_peers next_random telegram request 0 tt
