-- ===== src/Telegram/Entities/RoundTrip.antt =====
-- What a copy of a message keeps of its entities (internal/platform/telegram/updates.go, outbound.go).
use sakura_nexus.Base.{◌≡◌, refl, ap, some, List, [], ◌∷◌, All}
use sakura_nexus.Base.Text.{Text, text_eq}
use sakura_nexus.Telegram.Entities.{
  TgEntity, bold, italic, tg_code, url, pre, text_url, mention_name, entity_type_name,
  entity_target, entity_range, convert_entity, convert_entities, tg_entity, tg_entities,
}
use Prim.Native.Nat.{ℕ}

-- The entities of the types that are carried whole: bold, italic, code, a block without a language, a
-- link, a URL, and a mention of a user by id.
pub data IsCarried : TgEntity → Type 0 where
  is_bold : (o l : ℕ) → IsCarried (bold o l)
  is_italic : (o l : ℕ) → IsCarried (italic o l)
  is_code : (o l : ℕ) → IsCarried (tg_code o l)
  is_pre : (o l : ℕ) → IsCarried (pre o l [])
  is_text_url : (o l : ℕ) (u : Text) → IsCarried (text_url o l u)
  is_url : (o l : ℕ) → IsCarried (url o l)
  is_mention_name : (o l user : ℕ) → IsCarried (mention_name o l user)

tg_entity-convert_entity : (t : TgEntity) → IsCarried t → tg_entity (convert_entity t) ≡ some t
unfolding tg_entity convert_entity entity_type_name entity_range entity_target text_eq
tg_entity-convert_entity _ (is_bold o l) = refl
tg_entity-convert_entity _ (is_italic o l) = refl
tg_entity-convert_entity _ (is_code o l) = refl
tg_entity-convert_entity _ (is_pre o l) = refl
tg_entity-convert_entity _ (is_text_url o l u) = refl
tg_entity-convert_entity _ (is_url o l) = refl
tg_entity-convert_entity _ (is_mention_name o l user) = refl

-- Entities that are bold, italic, code, a block without a language, a link, a URL or a mention of a user
-- by id come back from the conversion to the domain's entities and back as they were: each with its
-- type, its range and its target, none left out, in their order.
pub tg_entities-convert_entities :
    (ts : List TgEntity) → All IsCarried ts → tg_entities (convert_entities ts) ≡ ts
unfolding tg_entities convert_entities
tg_entities-convert_entities [] h = refl
tg_entities-convert_entities (t ∷ ts) h =
    rw (tg_entity-convert_entity t h.0, tg_entities)
      (ap (λ us. t ∷ us) (tg_entities-convert_entities ts h.1))
