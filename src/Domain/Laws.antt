-- ===== src/Domain/Laws.antt =====
-- internal/domain: the textual forms of peer kinds and send styles, and the identity of chats.
use sakura_nexus.Base.{◌≡◌, ◌↔◌, ◌⊎◌, inl, inr, true, some, [], arith, refl, ==-refl}
use sakura_nexus.Base.Assoc.{Eq}
use sakura_nexus.Base.Text.{Text, text, text_eq, text_eq→eq}
use sakura_nexus.Domain.{
  PeerKind, user, chat, channel, peer_kind_string, peer_kind_from_string, ChatRef, chat_ref_eq,
  SendStyle, auto, plain, rich, send_style_string, send_style_from_string,
}

peer_kind_parsed :
    (s : Text) (k : PeerKind) → peer_kind_from_string s ≡ some k → s ≡ peer_kind_string k
unfolding peer_kind_from_string peer_kind_string
peer_kind_parsed s k h =
    ground
      (arith, text_eq→eq s (text "user"), text_eq→eq s (text "chat"), text_eq→eq s (text "channel"))

peer_kind_printed : (k : PeerKind) → peer_kind_from_string (peer_kind_string k) ≡ some k
unfolding peer_kind_from_string peer_kind_string text_eq
peer_kind_printed user = refl
peer_kind_printed chat = refl
peer_kind_printed channel = refl

-- A text is accepted as a peer kind exactly when it is the printed form of that kind.
pub peer_kind_from_string_iff :
    (s : Text) (k : PeerKind) → (peer_kind_from_string s ≡ some k) ↔ (s ≡ peer_kind_string k)
peer_kind_from_string_iff s k = (peer_kind_parsed s k, λ e. rw e (peer_kind_printed k))

send_style_parsed :
    (s : Text) (k : SendStyle)
    → send_style_from_string s ≡ some k
    → (s ≡ send_style_string k) ⊎ ((s ≡ []) × (k ≡ auto))
unfolding send_style_from_string send_style_string
send_style_parsed s k h = ground (
  arith,
  text_eq→eq s (text "auto"),
  text_eq→eq s [],
  text_eq→eq s (text "plain"),
  text_eq→eq s (text "rich"),
)

send_style_printed :
    (s : Text) (k : SendStyle)
    → (s ≡ send_style_string k) ⊎ ((s ≡ []) × (k ≡ auto))
    → send_style_from_string s ≡ some k
unfolding send_style_from_string send_style_string text_eq
send_style_printed s auto (inl e) = rw e
send_style_printed s plain (inl e) = rw e
send_style_printed s rich (inl e) = rw e
send_style_printed s k (inr (e, f)) = rw (e, f)

-- A text is accepted as a send style exactly when it is the printed form of that style, or empty
-- for `auto`.
pub send_style_from_string_iff :
    (s : Text) (k : SendStyle)
    → (send_style_from_string s ≡ some k) ↔ ((s ≡ send_style_string k) ⊎ ((s ≡ []) × (k ≡ auto)))
send_style_from_string_iff s k = (send_style_parsed s k, send_style_printed s k)

chat_ref_eq_refl : (c : ChatRef) → chat_ref_eq c c ≡ true
unfolding chat_ref_eq
chat_ref_eq_refl c = ground (arith, ==-refl c.id)

pub chat_ref_eq_iff : (a b : ChatRef) → (chat_ref_eq a b ≡ true) ↔ (a ≡ b)
unfolding chat_ref_eq
chat_ref_eq_iff a b = ground (arith)

instance abbrev pub chat_ref_instance : Eq ChatRef
chat_ref_instance = record { beq = chat_ref_eq; beq_iff = chat_ref_eq_iff }
