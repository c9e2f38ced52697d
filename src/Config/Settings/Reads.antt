-- ===== src/Config/Settings/Reads.antt =====
-- internal/config/settings.go: what the other components read from the center, after any use of it.
use sakura_nexus.Base.{◌≡◌, true, List, [], ◌∷◌}
use sakura_nexus.Base.Text.{Text}
use sakura_nexus.Config.Settings.{Scope, scope_instance, forwarding_ok, logging_ok, ai_ok}
use sakura_nexus.Config.Settings.Center.{
  Center, SettingsLibrary, Partial, load, update, subscribe, forwarding_settings, logging_settings,
  ai_settings,
}

-- What the components read passes its check.
pub record IsValidRead {W : Type 0} (c : Center W) : Type 0 where
  pub is_forwarding : forwarding_ok (forwarding_settings c) ≡ true
  pub is_logging : logging_ok (logging_settings c) ≡ true
  pub is_ai : ai_ok (ai_settings c) ≡ true

pub data Use (W : Type 0) : Type 0 where
  by_update : Text → Partial → Use W
  by_subscribe : Text → (Scope → W → W) → Use W
  by_load : List Scope → Use W

unfoldable pub run_uses :
    {W : Type 0} → SettingsLibrary W → List (Use W) → Center W → W → Center W × W
run_uses lib [] c w = (c, w)
run_uses lib (by_update name p ∷ us) c w =
    let (e, (c', w')) = update lib name p c w in run_uses lib us c' w'
run_uses lib (by_load order ∷ us) c w =
    let (fine, (c', w')) = load lib order c w in run_uses lib us c' w'
run_uses lib (by_subscribe name fn ∷ us) c w = run_uses lib us (subscribe name fn c) w
