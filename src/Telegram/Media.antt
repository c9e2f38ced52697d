-- ===== src/Telegram/Media.antt =====
-- internal/platform/telegram: the media of a message, from Telegram (updates.go, convertMedia) and the
-- attributes with which a file goes back (outbound.go, mediaAttributes). The library's types have a
-- constructor for each case that the source tells apart. Durations are whole seconds, and `encode` is
-- the base64 encoding of the library.
pub mod RoundTrip
use sakura_nexus.Base.{
  ℕ, Bool, true, false, Option, none, some, List, [], ◌∷◌, ◌++◌, if◌then◌else◌, length,
}
use sakura_nexus.Base.Text.{Text, text, text_eq, is_empty}
use sakura_nexus.Domain.{Entity, MediaRef}

pub data DocAttribute : Type 0 where
  video_attr : ℕ → ℕ → ℕ → Bool → DocAttribute
  audio_attr : ℕ → Bool → DocAttribute
  file_name_attr : Text → DocAttribute
  animated_attr sticker_attr other_attr : DocAttribute

pub record Document : Type 0 where
  pub mime_type : Text
  pub file_reference : Text
  pub size : ℕ
  pub attributes : List DocAttribute

pub data TgMedia : Type 0 where
  photo : Text → TgMedia
  document : Document → TgMedia
  web_page no_media : TgMedia

-- The flags of the loop over the attributes, and the reference so far.
pub record DocScan : Type 0 where
  pub is_anim : Bool
  pub is_sticker : Bool
  pub is_voice : Bool
  pub is_audio : Bool
  pub is_video : Bool
  pub is_round : Bool
  pub media : MediaRef

unfoldable pub scan_attribute : DocScan → DocAttribute → DocScan
scan_attribute s (video_attr w h d round) = record s {
  is_video = true;
  is_round = round;
  media = record (s.media) { width = w; height = h; duration = d };
}
scan_attribute s animated_attr = record s { is_anim = true }
scan_attribute s sticker_attr = record s { is_sticker = true }
scan_attribute s (audio_attr d true) = record s {
  is_voice = true;
  media = record (s.media) { duration = d };
}
scan_attribute s (audio_attr d false) = record s {
  is_audio = true;
  media = record (s.media) { duration = d };
}
scan_attribute s (file_name_attr name) = record s { media = record (s.media) { file_name = name } }
scan_attribute s other_attr = s

unfoldable pub scan_attributes : DocScan → List DocAttribute → DocScan
unfolding scan_attribute
scan_attributes s [] = s
scan_attributes s (a ∷ attrs) = scan_attributes (scan_attribute s a) attrs

-- The `switch` over the flags.
unfoldable pub scanned_type : DocScan → Text
scanned_type s =
    if s.is_anim
    then text "animation"
    else if s.is_sticker
    then text "sticker"
    else if s.is_voice
    then text "voice"
    else if s.is_audio
    then text "audio"
    else if s.is_round
    then text "video_note"
    else if s.is_video
    then text "video"
    else text "document"

unfoldable pub blank_media : MediaRef
blank_media = record {
  key = [];
  type = [];
  mime_type = [];
  file_name = [];
  file_ref = [];
  width = 0;
  height = 0;
  duration = 0;
  size = 0;
}

unfoldable pub start_scan : MediaRef → DocScan
start_scan m = record {
  is_anim = false;
  is_sticker = false;
  is_voice = false;
  is_audio = false;
  is_video = false;
  is_round = false;
  media = m;
}

module _ (encode : Text → Text) where
  unfoldable pub convert_document : Document → MediaRef
  unfolding scan_attributes scanned_type blank_media start_scan
  convert_document doc =
      let s =
        scan_attributes
          (start_scan (record blank_media {
            key = text "doc:0";
            mime_type = doc.mime_type;
            file_ref = encode doc.file_reference;
            size = doc.size;
          }))
          doc.attributes in
      record (s.media) { type = scanned_type s }

  -- A photo takes the length of its file reference for its size until it is downloaded.
  unfoldable pub convert_media : TgMedia → List MediaRef
  unfolding convert_document blank_media
  convert_media (photo ref) =
      record blank_media {
        key = text "photo:0";
        type = text "photo";
        file_ref = encode ref;
        size = length ref;
      }
      ∷ []
  convert_media (document doc) = convert_document doc ∷ []
  convert_media web_page = []
  convert_media no_media = []

-- The `switch` of `mediaAttributes`.
unfoldable pub type_attributes : Text → MediaRef → List DocAttribute
type_attributes type m =
    if text_eq type (text "video")
    then video_attr m.width m.height m.duration false ∷ []
    else if text_eq type (text "video_note")
    then video_attr m.width m.height m.duration true ∷ []
    else if text_eq type (text "animation")
    then animated_attr ∷ []
    else if text_eq type (text "audio")
    then audio_attr m.duration false ∷ []
    else if text_eq type (text "voice")
    then audio_attr m.duration true ∷ []
    else if text_eq type (text "sticker")
    then sticker_attr ∷ []
    else []

unfoldable pub media_attributes : MediaRef → List DocAttribute
unfolding type_attributes
media_attributes m =
    type_attributes m.type m
    ++ (if is_empty m.file_name then [] else file_name_attr m.file_name ∷ [])

-- What an upload becomes: a photo keeps nothing but the file, anything else is a document.
pub data Upload : Type 0 where
  as_photo : Upload
  as_document : Text → List DocAttribute → Upload

unfoldable pub uploaded_to_input_media : MediaRef → Upload
unfolding media_attributes
uploaded_to_input_media m =
    if text_eq m.type (text "photo") then as_photo else as_document m.mime_type (media_attributes m)
