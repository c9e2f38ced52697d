-- ===== src/Domain.antt =====
-- internal/domain: the data that every component shares. Ids are natural numbers (the tables hold
-- them as BIGINT UNSIGNED), strings are `Text`, a nullable pointer is an `Option`, and a delay in
-- seconds (a float64) is an integer number of nanoseconds. Times are nanoseconds too.
pub mod Laws
use sakura_nexus.Base.{
  ℕ, ◌≡◌, ◌↔◌, Bool, true, false, Option, none, some, List, [], ◌∷◌, ◌++◌, ◌&&◌, arith,
  if◌then◌else◌, ◌==◌,
}
use sakura_nexus.Base.Int.{ℤ}
use sakura_nexus.Base.Text.{Text, text, text_eq, decimal}

pub data PeerKind : Type 0 where
  user chat channel : PeerKind

unfoldable pub peer_kind_string : PeerKind → Text
peer_kind_string user = text "user"
peer_kind_string chat = text "chat"
peer_kind_string channel = text "channel"

unfoldable pub peer_kind_from_string : Text → Option PeerKind
peer_kind_from_string s =
    if text_eq s (text "user")
    then some user
    else if text_eq s (text "chat")
    then some chat
    else if text_eq s (text "channel")
    then some channel
    else none

unfoldable pub peer_kind_eq : PeerKind → PeerKind → Bool
peer_kind_eq user user = true
peer_kind_eq chat chat = true
peer_kind_eq channel channel = true
peer_kind_eq _ _ = false

pub record ChatRef : Type 0 where
  pub kind : PeerKind
  pub id : ℕ

-- `==` on the struct
unfoldable pub chat_ref_eq : ChatRef → ChatRef → Bool
unfolding peer_kind_eq
chat_ref_eq a b = peer_kind_eq a.kind b.kind && a.id == b.id

unfoldable pub chat_ref_string : ChatRef → Text
unfolding peer_kind_string
chat_ref_string c = peer_kind_string c.kind ++ (text ":" ++ decimal c.id)

pub record MessageRef : Type 0 where
  pub chat_ref : ChatRef
  pub message_id : ℕ

pub record Entity : Type 0 where
  pub type : Text
  pub offset : ℕ
  pub length : ℕ
  pub url : Text
  pub user_id : ℕ

pub record MediaRef : Type 0 where
  pub key : Text
  pub type : Text
  pub mime_type : Text
  pub file_name : Text
  pub file_ref : Text
  pub width : ℕ
  pub height : ℕ
  pub duration : ℕ
  pub size : ℕ

pub record ForwardHeader : Type 0 where
  pub from_user_id : ℕ
  pub from_chat_id : ℕ
  pub from_title : Text

pub record ChannelMessage : Type 0 where
  pub ref : MessageRef
  pub source_type : Text
  pub grouped_id : ℕ
  pub thread_top_id : ℕ
  pub sender_user_id : ℕ
  pub sender_username : Text
  pub sender_display_name : Text
  pub body : Text
  pub entities : List Entity
  pub media : List MediaRef
  pub forward_from : Option ForwardHeader
  pub published_at : ℕ
  pub edited_at : Option ℕ

abbrev pub msg_id : ChannelMessage → ℕ
msg_id m = m.ref.message_id

pub record Channel : Type 0 where
  pub tg_id : ℕ
  pub username : Text
  pub title : Text
  pub discussion_chat_id : ℕ
  pub is_verified : Bool

pub record ForwardRule : Type 0 where
  pub id : ℕ
  pub name : Text
  pub source : ChatRef
  pub source_username : Text
  pub target : ChatRef
  pub target_username : Text
  pub enabled : Bool
  pub keywords : List Text
  pub blacklist : List Text
  pub patterns : List Text
  pub blacklist_patterns : List Text
  pub media_types : List Text
  pub forward_original_only : Bool
  pub copy_mode : Text
  pub ai_enabled : Bool
  pub ai_prompt : Text
  pub custom_footer : Text
  pub delay_min : ℤ
  pub delay_max : ℤ
  pub last_message_id : ℕ

pub data SendStyle : Type 0 where
  auto plain rich : SendStyle

unfoldable pub send_style_string : SendStyle → Text
send_style_string plain = text "plain"
send_style_string rich = text "rich"
send_style_string auto = text "auto"

unfoldable pub send_style_from_string : Text → Option SendStyle
send_style_from_string s =
    if text_eq s (text "auto")
    then some auto
    else if text_eq s []
    then some auto
    else if text_eq s (text "plain")
    then some plain
    else if text_eq s (text "rich")
    then some rich
    else none

pub record MessageContent : Type 0 where
  pub body : Text
  pub media_refs : List MediaRef

pub record KeyboardButton : Type 0 where
  pub label : Text
  pub url : Text

pub record Keyboard : Type 0 where
  pub rows : List (List KeyboardButton)

pub record SendRequest : Type 0 where
  pub chat_ref : ChatRef
  pub style : SendStyle
  pub content : Option MessageContent
  pub body : Text
  pub entities : List Entity
  pub media : List MediaRef
  pub caption : Text
  pub reply_to : ℕ
  pub markup : Option Keyboard
  pub silent : Bool

pub record LocalFile : Type 0 where
  pub path : Text
  pub meta : MediaRef

pub record SentMessage : Type 0 where
  pub chat_ref : ChatRef
  pub message_id : ℕ
