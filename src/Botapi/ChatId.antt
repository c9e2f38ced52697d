-- ===== src/Botapi/ChatId.antt =====
-- internal/platform/botapi/chatid.go: the number under which a chat is known to the HTTP interface.
pub mod Distinct
use sakura_nexus.Base.{ℕ, ◌+◌, ◌<◌, ◌≡◌, Option, none, some, arith, if◌then◌else◌, ◌==◌}
use sakura_nexus.Base.Int.{ℤ, pos, negsuc, neg}
use sakura_nexus.Domain.{ChatRef, PeerKind, user, chat, channel}

abbrev pub channel_offset : ℕ
channel_offset = 1000000000000

-- The `switch` over the kinds.
unfoldable pub encode_id : PeerKind → ℕ → ℤ
encode_id user id = pos id
encode_id chat id = neg id
encode_id channel id = neg (channel_offset + id)

-- `none` is the error.
unfoldable pub chat_id : ChatRef → Option ℤ
unfolding encode_id
chat_id c = if c.id == 0 then none else some (encode_id c.kind c.id)
