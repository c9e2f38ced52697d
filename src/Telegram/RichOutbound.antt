-- ===== src/Telegram/RichOutbound.antt =====
-- internal/platform/telegram/rich_outbound.go: sending by the HTTP interface, and what is sent by
-- MTProto instead. `W` is the world behind both, and `E` the errors of the latter. `normalize`
-- is NormalizeRichMarkdown of rich.go, of which nothing is assumed. A text says why the
-- interface was given up; log lines are left out.
pub mod Sticky
use sakura_nexus.Base.{
  ℕ, Bool, true, false, Option, none, some, List, [], ◌∷◌, ◌++◌, if◌then◌else◌, ◌==◌,
}
use sakura_nexus.Base.Int.{ℤ}
use sakura_nexus.Base.Text.{Text, text}
use sakura_nexus.Domain.{
  ChatRef, user, SendStyle, auto, plain, rich, MessageContent, Keyboard, KeyboardButton,
  SendRequest, SentMessage,
}
use sakura_nexus.Botapi.ChatId.{chat_id}
use sakura_nexus.Telegram.RichSplit.{parts, unsendable, panicked}
use sakura_nexus.Telegram.RichParse.{rich_text_messages}

-- The request body of `sendRichMessage`.
pub record RichParams : Type 0 where
  pub chat_id : ℤ
  pub markdown : Text
  pub skip_entity_detection : Bool
  pub reply_parameters : Option ℕ
  pub reply_markup : Option (List (List KeyboardButton))
  pub disable_notification : Bool

-- An error of a call: one of the interface, with its code, or of the network.
pub data CallError : Type 0 where
  api : ℕ → Text → CallError
  network : Text → CallError

pub data CallResult : Type 0 where
  delivered : ℕ → CallResult
  failed : CallError → CallResult

pub data SendError (E : Type 0) : Type 0 where
  rich_unavailable : Text → SendError E
  bad_chat_id no_plain panic : SendError E
  call_error : CallError → SendError E
  plain_error : E → SendError E

-- The message and the error that a sender returns together, as in the source.
pub record Sent (E : Type 0) : Type 0 where
  pub message : SentMessage
  pub error : Option E

abbrev pub no_message : SentMessage
no_message = record { chat_ref = record { kind = user; id = 0 }; message_id = 0 }

abbrev pub unsupported_reason : Text → Text
unsupported_reason e = text "sendRichMessage 不被服务端支持 (404 " ++ (e ++ text ")")

-- The flag of the capability, and why it was set.
pub record RichState : Type 0 where
  pub disabled : Bool
  pub reason : Text

unfoldable pub capability : Bool → RichState → Bool × Text
capability has_rich r =
    if r.disabled
    then (false, r.reason)
    else if has_rich
    then (true, [])
    else (false, text "rich 未接线")

unfoldable pub disable : Text → RichState → RichState
disable reason r = if r.disabled then r else record { disabled = true; reason = reason }

unfoldable pub plain_of : SendRequest → MessageContent → SendRequest
plain_of req c = record {
  chat_ref = req.chat_ref;
  style = auto;
  content = none;
  body = c.body;
  entities = [];
  media = [];
  caption = [];
  reply_to = req.reply_to;
  markup = none;
  silent = req.silent;
}

unfoldable pub rows_of : Option Keyboard → Option (List (List KeyboardButton))
rows_of none = none
rows_of (some k) = some k.rows

-- `none` is the error of the encoding of the chat.
unfoldable pub build_rich_params : Text → SendRequest → Bool → Option RichParams
unfolding rows_of
build_rich_params markdown req first = elim (chat_id req.chat_ref) [
  | none ↦ none
  | some id ↦ some (record {
    chat_id = id;
    markdown = markdown;
    skip_entity_detection = false;
    reply_parameters =
        if first then (if req.reply_to == 0 then none else some req.reply_to) else none;
    reply_markup = rows_of req.markup;
    disable_notification = req.silent;
  })
]

module _ {W E : Type 0} (normalize : Text → Text)
    (rich_call : Option (RichParams → W → CallResult × W))
    (plain_send : Option (SendRequest → W → Sent E × W)) where
  -- `W` and the state of the router, after what was returned.
  abbrev pub Result : Type 0
  Result = Sent (SendError E) × (RichState × W)

  abbrev pub give : SentMessage → SendError E → RichState → W → Result
  give first e r w = (record { message = first; error = some e }, (r, w))

  abbrev pub plain_result : Sent E → RichState → W → Result
  plain_result s r w = (
    record {
      message = s.message;
      error = elim s.error [ none ↦ none | some e ↦ some (plain_error e) ];
    },
    (r, w),
  )

  unfoldable pub fallback : SendRequest → MessageContent → RichState → W → Result
  unfolding plain_of
  fallback req c r w = elim plain_send [
    | none ↦ give no_message no_plain r w
    | some send ↦ let (s, w') = send (plain_of req c) w in plain_result s r w'
  ]

  unfoldable pub classify_and_recover :
      SendRequest → MessageContent → CallError → SentMessage → RichState → W → Result
  unfolding disable fallback
  classify_and_recover req c (network e) first r w = give first (call_error (network e)) r w
  classify_and_recover req c (api code e) first r w =
      if code == 404
      then fallback req c (disable (unsupported_reason e) r) w
      else if code == 400
      then fallback req c r w
      else give first (call_error (api code e)) r w

  -- The loop over the messages: `is_first` is `i == 0`.
  unfoldable pub send_parts :
      (RichParams → W → CallResult × W)
      → SendRequest
      → MessageContent
      → Bool
      → SentMessage
      → List Text
      → RichState
      → W
      → Result
  unfolding build_rich_params classify_and_recover
  send_parts rcall req c is_first first [] r w = (record { message = first; error = none }, (r, w))
  send_parts rcall req c is_first first (m ∷ ms) r w = elim (build_rich_params m req is_first) [
    | none ↦ give first bad_chat_id r w
    | some params ↦
        let (answer, w') = rcall params w in
        elim answer [
          | failed e ↦ classify_and_recover req c e first r w'
          | delivered id ↦
              send_parts rcall req c false
                (if is_first then record { chat_ref = req.chat_ref; message_id = id } else first) ms
                r w'
        ]
  ]

  unfoldable pub send_enabled :
      (RichParams → W → CallResult × W) → SendRequest → MessageContent → RichState → W → Result
  unfolding fallback send_parts
  send_enabled rcall req c r w = elim (rich_text_messages (normalize c.body)) [
    | parts ms ↦ send_parts rcall req c true no_message ms r w
    | unsendable ↦ fallback req c r w
    | panicked ↦ give no_message panic r w
  ]

  unfoldable pub send_unavailable : Text → SendRequest → MessageContent → RichState → W → Result
  unfolding fallback
  send_unavailable reason req c r w = elim req.style [
    | rich ↦ give no_message (rich_unavailable reason) r w
    | auto ↦ fallback req c r w
    | plain ↦ fallback req c r w
  ]

  -- `c` is `req.Content`, which `SendText` has tested.
  unfoldable pub send : SendRequest → MessageContent → RichState → W → Result
  unfolding capability send_enabled send_unavailable
  send req c r w = elim rich_call [
    | none ↦ send_unavailable (capability false r).1 req c r w
    | some rcall ↦
        let (enabled, reason) = capability true r in
        if enabled then send_enabled rcall req c r w else send_unavailable reason req c r w
  ]
