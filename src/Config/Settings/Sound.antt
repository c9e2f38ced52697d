-- ===== src/Config/Settings/Sound.antt =====
-- internal/config/settings.go: what an update does on each way out.
use sakura_nexus.Base.{◌≡◌, refl, true, Option, none, some}
use sakura_nexus.Base.Assoc.{lookup, put}
use sakura_nexus.Base.Text.{Text}
use sakura_nexus.Config.Settings.{
  Scope, scope_instance, system, forwarding, logging, ai, scope_name, scope_from, Snapshot,
  scope_of, validate, default_snapshot,
}
use sakura_nexus.Config.Settings.Center.{Center, SettingsLibrary, UpdateError, notify}

-- JSON is read into settings of the same type.
abbrev pub KeepsScope : {W : Type 0} → SettingsLibrary W → Type 0
KeepsScope lib =
    (raw : Text) (s s' : Snapshot) → lib.unmarshal raw s ≡ some s' → scope_of s' ≡ scope_of s

-- The snapshots are of the type of their scope, and valid.
abbrev pub IsSound : {W : Type 0} → Center W → Type 0
IsSound c =
    (s : Scope) (n : Snapshot) → lookup s c.loaded ≡ some n → (scope_of n ≡ s) × (validate n ≡ true)

pub scope_of-default : (s : Scope) → scope_of (default_snapshot s) ≡ s
unfolding scope_of default_snapshot
scope_of-default system = refl
scope_of-default forwarding = refl
scope_of-default logging = refl
scope_of-default ai = refl

module _ {W : Type 0} (lib : SettingsLibrary W) (keeps : KeepsScope lib) where
  -- The two ways out of an update: an error, or a valid snapshot of the scope that is written, installed
  -- and then announced to the callbacks of the scope, in their order.
  pub data Updated (name : Text) (c : Center W) (w : W)
      : Option UpdateError × (Center W × W) → Type 0 where
    refused : (e : UpdateError) (w' : W) → Updated name c w (some e, (c, w'))
    installed :
        (s : Scope) (n : Snapshot) (raw : Text) (w' : W)
        → scope_from name ≡ some s
        → scope_of n ≡ s
        → validate n ≡ true
        → lib.marshal n ≡ some raw
        → lib.write (scope_name s) raw w ≡ (true, w')
        → Updated name c w
            (none, (record { loaded = put s n c.loaded; subs = c.subs }, notify s (c.subs s) w'))
