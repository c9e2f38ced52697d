-- ===== src/Config/Settings/Loads.antt =====
-- internal/config/settings.go, `Load`: what a load puts into the center.
use sakura_nexus.Base.{
  ◌≡◌, inl, inr, refl, ◌∙◌, true, some, none, List, [], ◌∷◌, arith, Option-cases, Bool-cases,
}
use sakura_nexus.Base.Assoc.{lookup, put, lookup-put}
use sakura_nexus.Base.Text.{Text, text_eq}
use sakura_nexus.Config.Settings.{
  Scope, scope_instance, system, forwarding, logging, ai, scope_eq, scope_eq_iff, scope_name,
  Snapshot, scope_of, validate, default_snapshot, forwarding_ok, logging_ok, ai_ok,
  default_forwarding, default_logging, default_ai,
}
use sakura_nexus.Config.Settings.Center.{
  Center, SettingsLibrary, stored_data, load_scope, load_all, load,
}
use sakura_nexus.Config.Settings.Sound.{KeepsScope, IsSound, scope_of-default}

-- Whenever the table is read, what its rows decode to passes the check of its scope. `Load` does not
-- test it.
abbrev pub HoldsValid : {W : Type 0} → SettingsLibrary W → Type 0
HoldsValid {W} lib =
    (w : W) (rows : List (Text × Text)) (s : Scope) (raw : Text) (n : Snapshot)
    → (lib.read w).0 ≡ some rows
    → stored_data lib (scope_name s) rows ≡ some raw
    → lib.unmarshal raw (default_snapshot s) ≡ some n
    → validate n ≡ true

pub default_forwarding_ok : forwarding_ok default_forwarding ≡ true
unfolding forwarding_ok default_forwarding
default_forwarding_ok = refl

pub default_logging_ok : logging_ok default_logging ≡ true
unfolding logging_ok default_logging text_eq
default_logging_ok = refl

pub default_ai_ok : ai_ok default_ai ≡ true
unfolding ai_ok default_ai
default_ai_ok = refl

pub default_snapshot-validate : (s : Scope) → validate (default_snapshot s) ≡ true
unfolding validate default_snapshot
default_snapshot-validate system = refl
default_snapshot-validate forwarding = default_forwarding_ok
default_snapshot-validate logging = default_logging_ok
default_snapshot-validate ai = default_ai_ok

-- The snapshots are of the type of their scope, and valid.
abbrev pub AreSound : List (Scope × Snapshot) → Type 0
AreSound l =
    (s : Scope) (n : Snapshot) → lookup s l ≡ some n → (scope_of n ≡ s) × (validate n ≡ true)

pub AreSound-put :
    (s : Scope) (n : Snapshot) (l : List (Scope × Snapshot))
    → scope_of n ≡ s
    → validate n ≡ true
    → AreSound l
    → AreSound (put s n l)
AreSound-put s n l same good h t m known =
    let q = lookup-put s t n l in
    elim (Bool-cases (scope_eq s t)) [
      | inl hit ↦
          let at = (scope_eq_iff s t).0 hit in
          let now : m ≡ n = ground (arith, known, q, hit) in (cc (same, now, at), cc (good, now))
      | inr miss ↦ h t m (ground (arith, known, q, miss))
    ]

none_known : {n : Snapshot} → none ≡ some n → ⊥
none_known h = ground (arith, h)

pub AreSound-nil : AreSound []
unfolding lookup
AreSound-nil s n h = absurd (none_known h)

module _ {W : Type 0} (lib : SettingsLibrary W) (keeps : KeepsScope lib)
    (holds : HoldsValid lib) where
  load_all-AreSound :
      (w : W) (rows : List (Text × Text)) (order : List Scope) (acc : List (Scope × Snapshot))
      → (lib.read w).0 ≡ some rows
      → AreSound acc
      → AreSound (load_all lib rows order acc).1
  unfolding load_all load_scope
  load_all-AreSound w rows [] acc seen h = h
  load_all-AreSound w rows (s ∷ ss) acc seen h =
      elim (Option-cases (stored_data lib (scope_name s) rows)) [
        | inl fresh ↦
            rw (fresh, load_all)
              (load_all-AreSound w rows ss (put s (default_snapshot s) acc) seen (
                AreSound-put s (default_snapshot s) acc (scope_of-default s)
                  (default_snapshot-validate s) h))
        | inr (raw, stored) ↦ elim (Option-cases (lib.unmarshal raw (default_snapshot s))) [
          | inl bad ↦ rw (stored, load_all, bad) h
          | inr (n, read) ↦
              rw (stored, load_all, read)
                (load_all-AreSound w rows ss (put s n acc) seen (
                  AreSound-put s n acc (keeps raw (default_snapshot s) n read ∙ scope_of-default s)
                    (holds w rows s raw n seen stored read) h))
        ]
      ]

  pub load-IsSound :
      (order : List Scope) (c : Center W) (w : W) → IsSound c → IsSound (load lib order c w).1.0
  unfolding load
  load-IsSound order c w h = elim (Option-cases (lib.read w).0) [
    | inl bad ↦ rw (bad, load) h
    | inr (rows, read) ↦ rw (read, load) (load_all-AreSound w rows order [] read AreSound-nil)
  ]
