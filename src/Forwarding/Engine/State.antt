-- ===== src/Forwarding/Engine/State.antt =====
-- internal/forwarding/engine.go: the engine's dependencies, its parameters and its state.
--
-- `W` is the world behind the interfaces (the database, Telegram, the clock, the context): every
-- dependency is a function that reads and changes it. An operation of the engine takes the engine
-- and the world and returns both. Locks and log lines are left out.
use sakura_nexus.Base.{
  ℕ, ◌+◌, ◌-◌, ◌*◌, ◌/◌, ◌^◌, Bool, true, false, not, ◌||◌, Option, none, some, List, [], ◌∷◌, any,
  if◌then◌else◌,
}
use sakura_nexus.Base.Int.{ℤ, pos, leb_ℤ, ltb_ℤ, pos_part}
use sakura_nexus.Base.Text.{Text, is_empty}
use sakura_nexus.Domain.{
  ChatRef, MessageRef, MediaRef, ChannelMessage, Channel, ForwardRule, SendRequest, LocalFile,
  SentMessage, Entity,
}
use sakura_nexus.Forwarding.Cursor.{CursorTracker}
use sakura_nexus.Forwarding.Album.{AlbumConfig, AlbumAggregator, new_album_aggregator}
use sakura_nexus.Forwarding.Filters.{TextLibrary, FilterView}

pub data FailureKind : Type 0 where
  transient permanent : FailureKind

-- The errors that the engine tells apart: the sentinel `ErrMediaTooLarge`, wrapped or not, the
-- error of a cancelled context, those that the engine makes, and any other, by a number.
pub data Failure : Type 0 where
  media_too_large cancelled media_not_wired temp_dir : Failure
  remote : ℕ → Failure

pub data Result {ℓ} (A : Type ℓ) : Type ℓ where
  ok : A → Result A
  err : Failure → Result A

-- What `ChannelSource.Get` returns.
pub data Found : Type 0 where
  lookup_error missing : Found
  found : Channel → Found

pub record Deps (W : Type 0) : Type 0 where
  pub lib : TextLibrary
  pub content_hash : Text → Text
  pub list_enabled : W → Option (List ForwardRule) × W
  pub advance_cursor : ℕ → ℕ → W → W
  pub exists : MessageRef → ChatRef → W → Option Bool × W
  pub exists_by_content : ChatRef → ChatRef → Text → W → Option Bool × W
  pub record_sent : MessageRef → ChatRef → ℕ → ℕ → Text → W → W
  pub incr_stats : ℕ → Bool → W → W
  pub send_text : SendRequest → W → Result SentMessage × W
  pub send_files : SendRequest → List LocalFile → W → Result SentMessage × W
  pub forward_messages : ChatRef → List ℕ → ChatRef → W → Result SentMessage × W
  pub download_media : Option (ChannelMessage → MediaRef → Text → W → Result MediaRef × W)
  pub get_channel : Option (ℕ → W → Found × W)
  pub rewrite : Option (ForwardRule → FilterView → W → Option Text × W)
  pub get_history : Option (ChatRef → ℕ → ℕ → W → Option (List ChannelMessage) × W)
  pub classify : Option (Failure → FailureKind)
  pub assistant_bot : Text
  pub assistant_bot_fn : Option (W → Text)
  -- a draw of `rand.Float64`, in units of 2⁻⁵³
  pub random : W → ℕ × W
  -- `false`: the context was cancelled
  pub sleep : ℕ → W → Bool × W
  pub is_cancelled : W → Bool
  -- the `select` that sends to the queue: `false`, the context was cancelled first
  pub admit : W → Bool × W
  pub now : W → ℕ
  pub make_temp_dir : W → Option Text × W
  pub remove_temp_dir : Text → W → W

-- Delays are nanoseconds.
pub record ForwardingParams : Type 0 where
  pub default_delay_min : ℤ
  pub default_delay_max : ℤ
  pub album_quiet_ms : ℕ
  pub album_hard_deadline_ms : ℕ
  pub media_max_size_bytes : ℕ
  pub content_dedup : Bool
  pub dedup_days : ℕ
  pub show_default_footer : Bool

unfoldable pub default_forwarding_params : ForwardingParams
default_forwarding_params = record {
  default_delay_min = pos 500000000;
  default_delay_max = pos 2000000000;
  album_quiet_ms = 450;
  album_hard_deadline_ms = 2000;
  media_max_size_bytes = 2 * 2 ^ 30;
  content_dedup = false;
  dedup_days = 30;
  show_default_footer = true;
}

abbrev pub max_backfill_limit : ℕ
max_backfill_limit = 200

-- The two waits between three attempts.
abbrev pub send_retry_backoff : List ℕ
send_retry_backoff = 1000000000 ∷ 2000000000 ∷ []

pub record SendTask : Type 0 where
  pub rule : ForwardRule
  pub msgs : List ChannelMessage
  pub view : FilterView
  pub body : Text
  pub entities : List Entity
  pub content_hash : Text

pub record Engine : Type 0 where
  pub params : ForwardingParams
  pub paused : Bool
  pub album : AlbumAggregator
  pub album_cfg : AlbumConfig
  pub rules_cache : List ForwardRule
  pub has_username_rules : Bool
  pub trackers : List (ℕ × CursorTracker)
  pub usernames : List (ChatRef × Text)
  pub queue : List SendTask
  pub enqueued : ℕ
  pub settled : ℕ

unfoldable pub album_config_of : ForwardingParams → AlbumConfig
album_config_of p = record {
  quiet_ms = p.album_quiet_ms;
  hard_deadline_ms = p.album_hard_deadline_ms;
  max_size = 10;
}

unfoldable pub new_engine : Engine
unfolding album_config_of default_forwarding_params
new_engine = record {
  params = default_forwarding_params;
  paused = false;
  album = new_album_aggregator (album_config_of default_forwarding_params);
  album_cfg = album_config_of default_forwarding_params;
  rules_cache = [];
  has_username_rules = false;
  trackers = [];
  usernames = [];
  queue = [];
  enqueued = 0;
  settled = 0;
}

module _ {W : Type 0} (d : Deps W) where
  unfoldable pub classify_failure : Failure → FailureKind
  classify_failure media_too_large = permanent
  classify_failure e = elim d.classify [ none ↦ transient | some f ↦ f e ]

  -- The error is nil exactly for `true`; a failed read of the rules leaves the cache alone.
  unfoldable pub refresh_rules : Engine → W → Bool × Engine × W
  refresh_rules e w =
      let (rules, w') = d.list_enabled w in
      elim rules [
        | none ↦ (false, e, w')
        | some rs ↦ (
          true,
          record e {
            rules_cache = rs;
            has_username_rules = any (λ r. not (is_empty r.source_username)) rs;
          },
          w',
        )
      ]

  -- lo + (hi - lo) · u for a draw u in [0, 1). Neither interval begins below 0: the settings
  -- reject that of the default one, and the rule's is taken only if it begins above 0.
  unfoldable pub delay_in : ℤ → ℤ → W → ℕ × W
  delay_in lo hi w =
      let (r, w') = d.random w in
      if ltb_ℤ lo hi
      then (pos_part lo + ((pos_part hi - pos_part lo) * r) / 2 ^ 53, w')
      else (pos_part lo, w)

  unfoldable pub delay_for : ForwardingParams → ForwardRule → W → ℕ × W
  unfolding delay_in
  delay_for p rule w =
      if leb_ℤ rule.delay_min (pos 0) || ltb_ℤ rule.delay_max rule.delay_min
      then delay_in p.default_delay_min p.default_delay_max w
      else delay_in rule.delay_min rule.delay_max w
