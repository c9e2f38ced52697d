-- ===== src/Botapi/ChatId/Distinct.antt =====
-- internal/platform/botapi/chatid.go: no two chats share a number.
use sakura_nexus.Base.{ℕ, zero, suc, ◌+◌, ◌<◌, ◌≡◌, some, arith, refl, sym, ap, ◌∙◌}
use sakura_nexus.Base.Int.{ℤ, neg, neg_part, pos_part}
use sakura_nexus.Domain.{ChatRef, PeerKind, user, chat, channel}
use sakura_nexus.Botapi.ChatId.{channel_offset, encode_id, chat_id}

-- The ids that the protocol gives to basic groups lie below the offset of the channels.
abbrev pub IsInRange : ChatRef → Type 0
IsInRange c = c.kind ≡ chat → c.id < channel_offset

neg_part-neg : (n : ℕ) → neg_part (neg n) ≡ n
neg_part-neg zero = omega arith
neg_part-neg (suc n) = omega arith

pos_part-neg : (n : ℕ) → pos_part (neg n) ≡ 0
pos_part-neg zero = omega arith
pos_part-neg (suc n) = omega arith

-- The parts of an encoded number tell the kind and the id.
encode_id-injective :
    (k l : PeerKind) (i j : ℕ)
    → 0 < i
    → 0 < j
    → (k ≡ chat → i < channel_offset)
    → (l ≡ chat → j < channel_offset)
    → pos_part (encode_id k i) ≡ pos_part (encode_id l j)
    → neg_part (encode_id k i) ≡ neg_part (encode_id l j)
    → (k ≡ l) × (i ≡ j)
unfolding encode_id
encode_id-injective user user i j pi pj ri rj p n = (refl, p)
encode_id-injective user chat i j pi pj ri rj p n = let e = neg_part-neg j in absurd (omega arith)
encode_id-injective user channel i j pi pj ri rj p n =
    let e = neg_part-neg (channel_offset + j) in absurd (omega arith)
encode_id-injective chat user i j pi pj ri rj p n = let e = neg_part-neg i in absurd (omega arith)
encode_id-injective chat chat i j pi pj ri rj p n =
    let e = neg_part-neg i in let f = neg_part-neg j in (refl, omega arith)
encode_id-injective chat channel i j pi pj ri rj p n =
    let e = neg_part-neg i in
    let f = neg_part-neg (channel_offset + j) in let small = ri refl in absurd (omega arith)
encode_id-injective channel user i j pi pj ri rj p n =
    let e = neg_part-neg (channel_offset + i) in absurd (omega arith)
encode_id-injective channel chat i j pi pj ri rj p n =
    let e = neg_part-neg (channel_offset + i) in
    let f = neg_part-neg j in let small = rj refl in absurd (omega arith)
encode_id-injective channel channel i j pi pj ri rj p n =
    let e = neg_part-neg (channel_offset + i) in
    let f = neg_part-neg (channel_offset + j) in (refl, omega arith)

chat_id_some : (a : ChatRef) (n : ℤ) → chat_id a ≡ some n → (0 < a.id) × (encode_id a.kind a.id ≡ n)
unfolding chat_id
chat_id_some a n h = ground (arith, h)

-- Where the ids of basic groups lie below the offset of the channels, chats with the same number are
-- the same chat.
pub chat_id-injective :
    (a b : ChatRef) (n : ℤ)
    → IsInRange a
    → IsInRange b
    → chat_id a ≡ some n
    → chat_id b ≡ some n
    → a ≡ b
chat_id-injective a b n ra rb ha hb =
    let (pa, ea) = chat_id_some a n ha in
    let (pb, eb) = chat_id_some b n hb in
    let e = ea ∙ sym eb in
    let (k, i) =
      encode_id-injective a.kind b.kind a.id b.id pa pb ra rb (ap pos_part e) (ap neg_part e) in
    ground (arith, k, i)
