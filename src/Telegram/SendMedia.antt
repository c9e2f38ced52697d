-- ===== src/Telegram/SendMedia.antt =====
-- internal/platform/telegram/outbound.go: sending files, and forwarding, by MTProto. The world and the
-- library's types are those of the sending of texts.
use sakura_nexus.Base.{ℕ, suc, Bool, Option, none, some, List, [], ◌∷◌}
use sakura_nexus.Base.Int.{ℤ}
use sakura_nexus.Base.Text.{Text}
use sakura_nexus.Domain.{ChatRef, Entity, SendRequest, LocalFile}
use sakura_nexus.Telegram.Entities.{TgEntity, tg_entities}
use sakura_nexus.Telegram.Media.{Upload, uploaded_to_input_media}
use sakura_nexus.Telegram.RichOutbound.{Sent, no_message}
use sakura_nexus.Telegram.Outbound.{
  OutboundError, no_files, no_ids, send_failed, open_failed, upload_failed, Answer, resolved,
  unresolved, input_peer, sent_as, stop, extract_sent_msg_id,
}

-- By what the library finds a file again.
pub record FileId : Type 0 where
  pub id : ℕ
  pub access_hash : ℤ
  pub file_reference : Text

pub data InputMedia (F : Type 0) : Type 0 where
  uploaded : F → Upload → InputMedia F
  input_photo input_document : FileId → InputMedia F

-- What messages.uploadMedia returns: a photo or a document that is there or empty, or something else.
pub data MessageMedia : Type 0 where
  message_photo message_document : Option FileId → MessageMedia
  other_media : MessageMedia

-- `none` is the error.
unfoldable pub registered_input_media : {F : Type 0} → MessageMedia → Option (InputMedia F)
registered_input_media (message_photo (some id)) = some (input_photo id)
registered_input_media (message_photo none) = none
registered_input_media (message_document (some id)) = some (input_document id)
registered_input_media (message_document none) = none
registered_input_media other_media = none

pub record SingleMedia (F : Type 0) : Type 0 where
  pub media : InputMedia F
  pub message : Text
  pub entities : List TgEntity
  pub random_id : ℕ

-- What becomes of a file: it cannot be opened, or not uploaded.
pub data Uploaded (F : Type 0) : Type 0 where
  not_opened not_uploaded : Uploaded F
  uploaded_file : F → Uploaded F

pub record MediaRequest (Peer F : Type 0) : Type 0 where
  pub peer : Peer
  pub media : SingleMedia F
  pub silent : Bool

pub record AlbumRequest (Peer F : Type 0) : Type 0 where
  pub peer : Peer
  pub multi_media : List (SingleMedia F)
  pub silent : Bool

pub record ForwardRequest (Peer : Type 0) : Type 0 where
  pub from_peer : Peer
  pub ids : List ℕ
  pub to_peer : Peer

-- An answer, as it is returned.
unfoldable pub returned {ℓ} : {W : Type ℓ} → ChatRef → Option Answer × W → Sent OutboundError × W
unfolding extract_sent_msg_id
returned c (none, w) = stop no_message send_failed w
returned c (some a, w) = (sent_as c a, w)

module _ {W Peer F : Type 0} (peers : Option (ChatRef → W → Option Peer × W))
    (random_id : W → ℕ × W) where
  -- The caption stands at the first of the media.
  unfoldable pub single_medias :
      List (InputMedia F) → Text → List Entity → W → List (SingleMedia F) × W
  single_medias [] caption entities w = ([], w)
  single_medias (m ∷ ms) caption entities w =
      let (r, w1) = random_id w in
      let (rest, w2) = single_medias ms [] [] w1 in
      (
        record { media = m; message = caption; entities = tg_entities entities; random_id = r }
            ∷ rest,
        w2,
      )

  module _ (upload_media : Peer → InputMedia F → W → Option MessageMedia × W) where
    -- A member that cannot be registered stays as it is.
    unfoldable pub registered_medias : Peer → List (InputMedia F) → W → List (InputMedia F) × W
    unfolding registered_input_media
    registered_medias peer [] w = ([], w)
    registered_medias peer (m ∷ ms) w =
        let (up, w1) = upload_media peer m w in
        let (rest, w2) = registered_medias peer ms w1 in
        (
          elim up [
            | none ↦ m
            | some media ↦ elim (registered_input_media media) [
              | none ↦ m
              | some registered ↦ registered
            ]
          ]
              ∷ rest,
          w2,
        )

    module _ (upload : LocalFile → W → Uploaded F × W)
        (send_media : MediaRequest Peer F → W → Option Answer × W)
        (send_multi_media : AlbumRequest Peer F → W → Option Answer × W) where
      -- The loop over the files: the media, or the error that ends it.
      unfoldable pub upload_all :
          ℕ → List LocalFile → W → (Option OutboundError × List (InputMedia F)) × W
      upload_all i [] w = ((none, []), w)
      upload_all i (f ∷ fs) w =
          let (u, w1) = upload f w in
          elim u [
            | not_opened ↦ ((some (open_failed i), []), w1)
            | not_uploaded ↦ ((some (upload_failed i), []), w1)
            | uploaded_file x ↦
                let ((e, ms), w2) = upload_all (suc i) fs w1 in
                ((e, uploaded x (uploaded_to_input_media f.meta) ∷ ms), w2)
          ]

      -- One medium is sent as it was uploaded, several are registered first.
      unfoldable pub send_medias :
          Peer → SendRequest → List (InputMedia F) → W → Sent OutboundError × W
      unfolding returned single_medias registered_medias
      send_medias peer req [] w =
          returned req.chat_ref
            (send_multi_media (record { peer = peer; multi_media = []; silent = req.silent }) w)
      send_medias peer req (m ∷ []) w =
          let (r, w1) = random_id w in
          returned req.chat_ref (
            send_media
              (record {
                peer = peer;
                media = record {
                  media = m;
                  message = req.caption;
                  entities = tg_entities req.entities;
                  random_id = r;
                };
                silent = req.silent;
              })
              w1)
      send_medias peer req (m ∷ n ∷ ms) w =
          let (rs, w1) = registered_medias peer (m ∷ n ∷ ms) w in
          let (ss, w2) = single_medias rs req.caption req.entities w1 in
          returned req.chat_ref
            (send_multi_media (record { peer = peer; multi_media = ss; silent = req.silent }) w2)

      unfoldable pub send_files : SendRequest → List LocalFile → W → Sent OutboundError × W
      unfolding input_peer upload_all send_medias
      send_files req [] w = stop no_message no_files w
      send_files req (f ∷ fs) w =
          let (p, w1) = input_peer peers random_id req.chat_ref w in
          elim p [
            | unresolved e ↦ stop no_message e w1
            | resolved peer ↦
                let ((e, ms), w2) = upload_all 0 (f ∷ fs) w1 in
                elim e [ some bad ↦ stop no_message bad w2 | none ↦ send_medias peer req ms w2 ]
          ]

module _ {W Peer : Type 0} (peers : Option (ChatRef → W → Option Peer × W)) (random_id : W → ℕ × W)
    (forward : ForwardRequest Peer → W → Option Answer × W) where
  unfoldable pub forward_messages : ChatRef → List ℕ → ChatRef → W → Sent OutboundError × W
  unfolding input_peer returned
  forward_messages from [] to w = stop no_message no_ids w
  forward_messages from (id ∷ ids) to w =
      let (p, w1) = input_peer peers random_id from w in
      elim p [
        | unresolved e ↦ stop no_message e w1
        | resolved from_peer ↦
            let (q, w2) = input_peer peers random_id to w1 in
            elim q [
              | unresolved e ↦ stop no_message e w2
              | resolved to_peer ↦
                  returned to (
                    forward (record { from_peer = from_peer; ids = id ∷ ids; to_peer = to_peer })
                      w2)
            ]
      ]
