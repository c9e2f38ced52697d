-- ===== src/Examples/Fixtures.antt =====
-- A concrete message, rule and world for the runs of internal/forwarding.
use sakura_nexus.Base.{ℕ, ◌+◌, true, false, none, some, [], ◌∷◌, if◌then◌else◌, leb, ◌&&◌}
use sakura_nexus.Base.Int.{pos}
use sakura_nexus.Base.Text.{text, contains_text}
use sakura_nexus.Domain.{ChatRef, channel, ChannelMessage, ForwardRule, SentMessage}
use sakura_nexus.Forwarding.Filters.{TextLibrary}
use sakura_nexus.Forwarding.Engine.State.{Deps, ok}

abbrev pub source : ChatRef
source = record { kind = channel; id = 100 }

abbrev pub target : ChatRef
target = record { kind = channel; id = 200 }

abbrev pub message : ℕ → ℕ → ChannelMessage
message id album = record {
  ref = record { chat_ref = source; message_id = id };
  source_type = [];
  grouped_id = album;
  thread_top_id = 0;
  sender_user_id = 0;
  sender_username = [];
  sender_display_name = [];
  body = text "news";
  entities = [];
  media = [];
  forward_from = none;
  published_at = 0;
  edited_at = none;
}

abbrev pub rule : ForwardRule
rule = record {
  id = 1;
  name = text "r";
  source = source;
  source_username = [];
  target = target;
  target_username = [];
  enabled = true;
  keywords = text "NEWS" ∷ [];
  blacklist = text "spam" ∷ [];
  patterns = [];
  blacklist_patterns = [];
  media_types = [];
  forward_original_only = true;
  copy_mode = text "forward";
  ai_enabled = false;
  ai_prompt = [];
  custom_footer = [];
  delay_min = pos 0;
  delay_max = pos 0;
  last_message_id = 5;
}

-- ASCII letters in lower case; an expression matches where it stands in the text.
abbrev pub ascii_lower : ℕ → ℕ
ascii_lower c = if leb 65 c && leb c 90 then c + 32 else c

abbrev pub library : TextLibrary
library = record {
  to_lower = ascii_lower;
  fold = ascii_lower;
  compile = λ p. some (λ s. contains_text s p);
}

abbrev pub sent : SentMessage
sent = record { chat_ref = target; message_id = 77 }

-- The world counts the messages that were sent. Nothing fails and nothing is a duplicate.
abbrev pub world : Deps ℕ
world = record {
  lib = library;
  content_hash = λ s. s;
  list_enabled = λ w. (some (rule ∷ []), w);
  advance_cursor = λ id cursor w. w;
  exists = λ ref chat w. (some false, w);
  exists_by_content = λ a b h w. (some false, w);
  record_sent = λ ref chat id m h w. w;
  incr_stats = λ id good w. w;
  send_text = λ r w. (ok sent, w + 1);
  send_files = λ r fs w. (ok sent, w + 1);
  forward_messages = λ a ids b w. (ok sent, w + 1);
  download_media = none;
  get_channel = none;
  rewrite = none;
  get_history = none;
  classify = none;
  assistant_bot = [];
  assistant_bot_fn = none;
  random = λ w. (0, w);
  sleep = λ n w. (true, w);
  is_cancelled = λ w. false;
  admit = λ w. (true, w);
  now = λ w. w;
  make_temp_dir = λ w. (none, w);
  remove_temp_dir = λ dir w. w;
}
