-- ===== src/Config/Settings.antt =====
-- internal/config/settings.go: the settings of each scope and their checks. A number with a
-- fraction (float64) is an integer number of billionths.
pub mod Center
pub mod Sound
pub mod Loads
pub mod Reads
use sakura_nexus.Base.{
  ℕ, ◌≡◌, Bool, true, false, not, ◌&&◌, ◌||◌, Option, none, some, List, [], ◌∷◌, ◌++◌, ◌↔◌,
  if◌then◌else◌, ◌==◌, arith,
}
use sakura_nexus.Base.Assoc.{Eq, lookup, put}
use sakura_nexus.Base.Int.{ℤ, pos, negsuc, ltb_ℤ, leb_ℤ}
use sakura_nexus.Base.Text.{Text, text, text_eq}

pub record SystemSettings : Type 0 where
  pub language : Text
  pub notify_admins_on_start : Bool
  pub telegram_admin_ids : List ℤ

pub record ForwardingSettings : Type 0 where
  pub show_default_footer : Bool
  pub dedup_days : ℤ
  pub content_dedup : Bool
  pub default_delay_min : ℤ
  pub default_delay_max : ℤ
  pub album_quiet_ms : ℤ
  pub album_hard_deadline_ms : ℤ
  pub media_max_size_mb : ℤ

pub record LoggingSettings : Type 0 where
  pub level : Text

pub record AiSettings : Type 0 where
  pub base_url : Text
  pub api_key : Text
  pub rewrite_model : Text
  pub temperature : ℤ
  pub timeout_seconds : ℤ

unfoldable pub default_system : SystemSettings
default_system = record {
  language = text "zh-CN";
  notify_admins_on_start = true;
  telegram_admin_ids = [];
}

unfoldable pub default_forwarding : ForwardingSettings
default_forwarding = record {
  show_default_footer = true;
  dedup_days = pos 30;
  content_dedup = false;
  default_delay_min = pos 500000000;
  default_delay_max = pos 2000000000;
  album_quiet_ms = pos 450;
  album_hard_deadline_ms = pos 2000;
  media_max_size_mb = pos 2048;
}

unfoldable pub default_logging : LoggingSettings
default_logging = record { level = text "info" }

unfoldable pub default_ai : AiSettings
default_ai = record {
  base_url = [];
  api_key = [];
  rewrite_model = [];
  temperature = pos 700000000;
  timeout_seconds = pos 60;
}

-- `true` is no error.
unfoldable pub forwarding_ok : ForwardingSettings → Bool
forwarding_ok f =
    not (ltb_ℤ f.dedup_days (pos 0))
    && (not (ltb_ℤ f.default_delay_min (pos 0) || ltb_ℤ f.default_delay_max f.default_delay_min)
        && (not (leb_ℤ f.album_quiet_ms (pos 0) || ltb_ℤ f.album_hard_deadline_ms f.album_quiet_ms)
            && not (leb_ℤ f.media_max_size_mb (pos 0))))

unfoldable pub logging_ok : LoggingSettings → Bool
logging_ok l =
    text_eq l.level (text "debug")
    || (text_eq l.level (text "info")
        || (text_eq l.level (text "warn") || text_eq l.level (text "error")))

unfoldable pub ai_ok : AiSettings → Bool
ai_ok a =
    not (ltb_ℤ a.temperature (pos 0) || ltb_ℤ (pos 2000000000) a.temperature)
    && not (ltb_ℤ a.timeout_seconds (pos 0))

pub data Scope : Type 0 where
  system forwarding logging ai : Scope

unfoldable pub scope_eq : Scope → Scope → Bool
scope_eq system system = true
scope_eq forwarding forwarding = true
scope_eq logging logging = true
scope_eq ai ai = true
scope_eq _ _ = false

pub scope_eq_iff : (a b : Scope) → (scope_eq a b ≡ true) ↔ (a ≡ b)
unfolding scope_eq
scope_eq_iff a b = ground (arith)

instance abbrev pub scope_instance : Eq Scope
scope_instance = record { beq = scope_eq; beq_iff = scope_eq_iff }

-- The keys of `scopeRegistry`.
unfoldable pub scope_name : Scope → Text
scope_name system = text "system"
scope_name forwarding = text "forwarding"
scope_name logging = text "logging"
scope_name ai = text "ai"

abbrev pub scopes : List Scope
scopes = system ∷ forwarding ∷ logging ∷ ai ∷ []

unfoldable pub scope_from : Text → Option Scope
unfolding scope_name
scope_from s =
    if text_eq s (scope_name system)
    then some system
    else if text_eq s (scope_name forwarding)
    then some forwarding
    else if text_eq s (scope_name logging)
    then some logging
    else if text_eq s (scope_name ai)
    then some ai
    else none

-- A snapshot, a pointer to the settings of some scope.
pub data Snapshot : Type 0 where
  system_snapshot : SystemSettings → Snapshot
  forwarding_snapshot : ForwardingSettings → Snapshot
  logging_snapshot : LoggingSettings → Snapshot
  ai_snapshot : AiSettings → Snapshot

unfoldable pub scope_of : Snapshot → Scope
scope_of (system_snapshot s) = system
scope_of (forwarding_snapshot s) = forwarding
scope_of (logging_snapshot s) = logging
scope_of (ai_snapshot s) = ai

unfoldable pub validate : Snapshot → Bool
unfolding forwarding_ok logging_ok ai_ok
validate (system_snapshot s) = true
validate (forwarding_snapshot f) = forwarding_ok f
validate (logging_snapshot l) = logging_ok l
validate (ai_snapshot a) = ai_ok a

unfoldable pub default_snapshot : Scope → Snapshot
unfolding default_system default_forwarding default_logging default_ai
default_snapshot system = system_snapshot default_system
default_snapshot forwarding = forwarding_snapshot default_forwarding
default_snapshot logging = logging_snapshot default_logging
default_snapshot ai = ai_snapshot default_ai
