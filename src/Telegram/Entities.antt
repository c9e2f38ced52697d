-- ===== src/Telegram/Entities.antt =====
-- internal/platform/telegram: the entities of a message, from Telegram (updates.go) and back to it
-- (outbound.go). `TgEntity` has a constructor for each of the library's types that the source tells
-- apart, with its offset and length, and `other` for the rest.
pub mod RoundTrip
use sakura_nexus.Base.{ℕ, Option, none, some, List, [], ◌∷◌, if◌then◌else◌}
use sakura_nexus.Base.Text.{Text, text, text_eq}
use sakura_nexus.Domain.{Entity}

pub data TgEntity : Type 0 where
  bold italic tg_code url mention hashtag blockquote other : ℕ → ℕ → TgEntity
  pre text_url : ℕ → ℕ → Text → TgEntity
  mention_name : ℕ → ℕ → ℕ → TgEntity

unfoldable pub entity_type_name : TgEntity → Text
entity_type_name (bold o l) = text "bold"
entity_type_name (italic o l) = text "italic"
entity_type_name (tg_code o l) = text "code"
entity_type_name (pre o l lang) = text "pre"
entity_type_name (text_url o l u) = text "text_link"
entity_type_name (url o l) = text "url"
entity_type_name (mention o l) = text "mention"
entity_type_name (mention_name o l user) = text "text_mention"
entity_type_name (hashtag o l) = text "hashtag"
entity_type_name (blockquote o l) = text "blockquote"
entity_type_name (other o l) = text "unknown"

-- The first `switch` of `convertEntities`: the URL and the user.
unfoldable pub entity_target : TgEntity → Text × ℕ
entity_target (text_url o l u) = (u, 0)
entity_target (mention_name o l user) = ([], user)
entity_target (bold o l) = ([], 0)
entity_target (italic o l) = ([], 0)
entity_target (tg_code o l) = ([], 0)
entity_target (pre o l lang) = ([], 0)
entity_target (url o l) = ([], 0)
entity_target (mention o l) = ([], 0)
entity_target (hashtag o l) = ([], 0)
entity_target (blockquote o l) = ([], 0)
entity_target (other o l) = ([], 0)

-- The second one: offset and length, which the types that it does not name leave at 0.
unfoldable pub entity_range : TgEntity → ℕ × ℕ
entity_range (bold o l) = (o, l)
entity_range (italic o l) = (o, l)
entity_range (tg_code o l) = (o, l)
entity_range (pre o l lang) = (o, l)
entity_range (text_url o l u) = (o, l)
entity_range (url o l) = (o, l)
entity_range (mention_name o l user) = (o, l)
entity_range (mention o l) = (0, 0)
entity_range (hashtag o l) = (0, 0)
entity_range (blockquote o l) = (0, 0)
entity_range (other o l) = (0, 0)

unfoldable pub convert_entity : TgEntity → Entity
unfolding entity_type_name entity_target entity_range
convert_entity t = record {
  type = entity_type_name t;
  offset = (entity_range t).0;
  length = (entity_range t).1;
  url = (entity_target t).0;
  user_id = (entity_target t).1;
}

unfoldable pub convert_entities : List TgEntity → List Entity
unfolding convert_entity
convert_entities [] = []
convert_entities (t ∷ ts) = convert_entity t ∷ convert_entities ts

-- `none` is nil: an unknown type carries no format.
unfoldable pub tg_entity : Entity → Option TgEntity
tg_entity e =
    if text_eq e.type (text "bold")
    then some (bold e.offset e.length)
    else if text_eq e.type (text "italic")
    then some (italic e.offset e.length)
    else if text_eq e.type (text "code")
    then some (tg_code e.offset e.length)
    else if text_eq e.type (text "pre")
    then some (pre e.offset e.length [])
    else if text_eq e.type (text "text_link")
    then some (text_url e.offset e.length e.url)
    else if text_eq e.type (text "url")
    then some (url e.offset e.length)
    else if text_eq e.type (text "mention")
    then some (mention e.offset e.length)
    else if text_eq e.type (text "text_mention")
    then some (mention_name e.offset e.length e.user_id)
    else if text_eq e.type (text "hashtag")
    then some (hashtag e.offset e.length)
    else if text_eq e.type (text "blockquote")
    then some (blockquote e.offset e.length)
    else none

unfoldable pub tg_entities : List Entity → List TgEntity
unfolding tg_entity
tg_entities [] = []
tg_entities (e ∷ es) = elim (tg_entity e) [ none ↦ tg_entities es | some t ↦ t ∷ tg_entities es ]
