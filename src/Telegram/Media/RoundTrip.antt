-- ===== src/Telegram/Media/RoundTrip.antt =====
-- A document that is uploaded again keeps its type (internal/platform/telegram/updates.go, outbound.go).
use sakura_nexus.Base.{ℕ, ◌≡◌, refl, sym, ap, subst, List, [], ◌∷◌, if◌then◌else◌}
use sakura_nexus.Base.Text.{Text, text, text_eq, is_empty}
use sakura_nexus.Domain.{MediaRef}
use sakura_nexus.Telegram.Media.{
  DocAttribute, file_name_attr, Document, DocScan, scan_attribute, scan_attributes, scanned_type,
  start_scan, blank_media, convert_document, type_attributes, media_attributes,
  uploaded_to_input_media, as_document,
}

pub data DocumentKind : Type 0 where
  video video_note animation audio voice sticker plain_document : DocumentKind

unfoldable pub kind_type : DocumentKind → Text
kind_type video = text "video"
kind_type video_note = text "video_note"
kind_type animation = text "animation"
kind_type audio = text "audio"
kind_type voice = text "voice"
kind_type sticker = text "sticker"
kind_type plain_document = text "document"

-- The name of the file changes no flag.
named-type :
    (s : DocScan) (name : Text)
    → (s.media.file_name ≡ [])
    → let named : List DocAttribute = if is_empty name then [] else file_name_attr name ∷ [] in
      (scanned_type (scan_attributes s named) ≡ scanned_type s)
      × ((scan_attributes s named).media.file_name ≡ name)
unfolding scan_attributes scan_attribute scanned_type is_empty
named-type s [] h = (refl, h)
named-type s (c ∷ name) h = (refl, refl)

-- The document that is sent for a file, as it is read back.
abbrev Replayed : (Text → Text) → Text → Text → ℕ → MediaRef → Type 0
Replayed encode mime ref size m =
    let doc : Document = record {
      mime_type = mime;
      file_reference = ref;
      size = size;
      attributes = media_attributes m;
    } in
    (uploaded_to_input_media m ≡ as_document m.mime_type (media_attributes m))
    × ((convert_document encode doc).type ≡ m.type)
    × ((convert_document encode doc).file_name ≡ m.file_name)

by_kind :
    (encode : Text → Text) (k : DocumentKind) (m : MediaRef) (mime ref : Text) (size : ℕ)
    → Replayed encode mime ref size (record m { type = kind_type k })
unfolding kind_type uploaded_to_input_media convert_document media_attributes type_attributes
    scan_attributes scan_attribute scanned_type start_scan blank_media text_eq
by_kind encode video m mime ref size = let n = named-type _ m.file_name refl in (refl, n.0, n.1)
by_kind encode video_note m mime ref size =
    let n = named-type _ m.file_name refl in (refl, n.0, n.1)
by_kind encode animation m mime ref size = let n = named-type _ m.file_name refl in (refl, n.0, n.1)
by_kind encode audio m mime ref size = let n = named-type _ m.file_name refl in (refl, n.0, n.1)
by_kind encode voice m mime ref size = let n = named-type _ m.file_name refl in (refl, n.0, n.1)
by_kind encode sticker m mime ref size = let n = named-type _ m.file_name refl in (refl, n.0, n.1)
by_kind encode plain_document m mime ref size =
    let n = named-type _ m.file_name refl in (refl, n.0, n.1)

-- The types and the names of the seven kinds of documents survive: the attributes with which a file is
-- uploaded again are read back as the same type and the same file name, whatever else its metadata
-- says.
pub convert_document-media_attributes :
    (encode : Text → Text) (k : DocumentKind) (m : MediaRef) (mime ref : Text) (size : ℕ)
    → m.type ≡ kind_type k
    → let doc : Document = record {
      mime_type = mime;
      file_reference = ref;
      size = size;
      attributes = media_attributes m;
    } in
      (uploaded_to_input_media m ≡ as_document m.mime_type (media_attributes m))
      × ((convert_document encode doc).type ≡ m.type)
      × ((convert_document encode doc).file_name ≡ m.file_name)
convert_document-media_attributes encode k m mime ref size h =
    let same : m ≡ record m { type = kind_type k } = ap (λ t. record m { type = t }) h in
    subst (Replayed encode mime ref size) (sym same) (by_kind encode k m mime ref size)
