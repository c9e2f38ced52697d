-- ===== src/Config/Settings/Center.antt =====
-- internal/config/settings.go: the center that loads and updates the settings. `W` is the world behind
-- the database and the callbacks. JSON and SQL are the libraries'.
use sakura_nexus.Base.{Bool, true, false, Option, none, some, List, [], ◌∷◌, ◌++◌, if◌then◌else◌}
use sakura_nexus.Base.Assoc.{lookup, put}
use sakura_nexus.Base.Text.{Text, text_eq}
use sakura_nexus.Config.Settings.{
  SystemSettings, ForwardingSettings, LoggingSettings, AiSettings, default_system,
  default_forwarding, default_logging, default_ai, Scope, scope_eq, scope_instance, scope_name,
  scope_from, Snapshot, validate, default_snapshot, system, forwarding, logging, ai,
  system_snapshot, forwarding_snapshot, logging_snapshot, ai_snapshot,
}

pub record Center (W : Type 0) : Type 0 where
  pub loaded : List (Scope × Snapshot)
  pub subs : Scope → List (Scope → W → W)

-- The libraries. `unmarshal raw s` writes a text over a snapshot; `read` and `write` are the statements
-- on the table, `none` and `false` their errors.
pub record SettingsLibrary (W : Type 0) : Type 0 where
  pub marshal : Snapshot → Option Text
  pub unmarshal : Text → Snapshot → Option Snapshot
  pub read : W → Option (List (Text × Text)) × W
  pub write : Text → Text → W → Bool × W

-- The map `partial`: without a key, or as `json.Marshal` gives it.
pub data Partial : Type 0 where
  no_keys unencodable : Partial
  patch : Text → Partial

pub data UpdateError : Type 0 where
  unknown_scope copy_failed bad_partial apply_failed invalid encode_failed write_failed :
      UpdateError

pub data Next : Type 0 where
  next : Snapshot → Next
  no_next : UpdateError → Next

unfoldable pub notify : {W : Type 0} → Scope → List (Scope → W → W) → W → W
notify s [] w = w
notify s (fn ∷ fns) w = notify s fns (fn s w)

module _ {W : Type 0} (lib : SettingsLibrary W) where
  -- The last row of a scope counts.
  unfoldable pub stored_data : Text → List (Text × Text) → Option Text
  stored_data scope [] = none
  stored_data scope ((s, data_of) ∷ rows) =
      let later = stored_data scope rows in
      elim later [ some d ↦ some d | none ↦ if text_eq s scope then some data_of else none ]

  unfoldable pub load_scope : List (Text × Text) → Scope → Option Snapshot
  unfolding stored_data scope_name default_snapshot
  load_scope rows s = elim (stored_data (scope_name s) rows) [
    | none ↦ some (default_snapshot s)
    | some raw ↦ lib.unmarshal raw (default_snapshot s)
  ]

  -- The loop over the registry: an error leaves what was loaded before it.
  unfoldable pub load_all :
      List (Text × Text) → List Scope → List (Scope × Snapshot) → Bool × List (Scope × Snapshot)
  unfolding load_scope
  load_all rows [] acc = (true, acc)
  load_all rows (s ∷ ss) acc = elim (load_scope rows s) [
    | none ↦ (false, acc)
    | some snapshot ↦ load_all rows ss (put s snapshot acc)
  ]

  -- `order` is the order in which the registry, a map, is gone through.
  unfoldable pub load : List Scope → Center W → W → Bool × (Center W × W)
  unfolding load_all
  load order c w =
      let (rows, w') = lib.read w in
      elim rows [
        | none ↦ (false, (c, w'))
        | some rs ↦
            let (fine, loaded) = load_all rs order [] in
            (fine, (record { loaded = loaded; subs = c.subs }, w'))
      ]

  -- A copy of the snapshot, or the defaults if there is none or it cannot be encoded.
  unfoldable pub copy_current : Scope → List (Scope × Snapshot) → Next
  unfolding default_snapshot
  copy_current s loaded = elim (lookup s loaded) [
    | none ↦ next (default_snapshot s)
    | some cur ↦ elim (lib.marshal cur) [
      | none ↦ next (default_snapshot s)
      | some raw ↦ elim (lib.unmarshal raw (default_snapshot s)) [
        | none ↦ no_next copy_failed
        | some n ↦ next n
      ]
    ]
  ]

  unfoldable pub apply_partial : Partial → Snapshot → Next
  apply_partial no_keys n = next n
  apply_partial unencodable n = no_next bad_partial
  apply_partial (patch raw) n = elim (lib.unmarshal raw n) [
    | none ↦ no_next apply_failed
    | some m ↦ next m
  ]

  -- What follows the merging: the checks, the row, the snapshot, the callbacks.
  unfoldable pub store : Scope → Snapshot → Center W → W → Option UpdateError × (Center W × W)
  unfolding validate scope_name notify
  store s n c w =
      if validate n
      then elim (lib.marshal n) [
        | none ↦ (some encode_failed, (c, w))
        | some raw ↦
            let (written, w') = lib.write (scope_name s) raw w in
            if written
            then (
              none,
              (record { loaded = put s n c.loaded; subs = c.subs }, notify s (c.subs s) w'),
            )
            else (some write_failed, (c, w'))
      ]
      else (some invalid, (c, w))

  unfoldable pub update : Text → Partial → Center W → W → Option UpdateError × (Center W × W)
  unfolding scope_from copy_current apply_partial store
  update name partial c w = elim (scope_from name) [
    | none ↦ (some unknown_scope, (c, w))
    | some s ↦ elim (copy_current s c.loaded) [
      | no_next e ↦ (some e, (c, w))
      | next n ↦ elim (apply_partial partial n) [
        | no_next e ↦ (some e, (c, w))
        | next m ↦ store s m c w
      ]
    ]
  ]

-- A scope that is not known is ignored.
unfoldable pub subscribe : {W : Type 0} → Text → (Scope → W → W) → Center W → Center W
unfolding scope_from
subscribe name fn c = elim (scope_from name) [
  | none ↦ c
  | some s ↦ record {
    loaded = c.loaded;
    subs = λ t. if scope_eq t s then c.subs t ++ fn ∷ [] else c.subs t;
  }
]

unfoldable pub new_center : {W : Type 0} → Center W
new_center = record { loaded = []; subs = λ s. [] }

-- The four getters: the snapshot, or the defaults if there is none of its type.
unfoldable pub system_settings : {W : Type 0} → Center W → SystemSettings
unfolding default_system
system_settings c = elim (lookup system c.loaded) [
  | none ↦ default_system
  | some (system_snapshot s) ↦ s
  | some (forwarding_snapshot s) ↦ default_system
  | some (logging_snapshot s) ↦ default_system
  | some (ai_snapshot s) ↦ default_system
]

unfoldable pub forwarding_settings : {W : Type 0} → Center W → ForwardingSettings
unfolding default_forwarding
forwarding_settings c = elim (lookup forwarding c.loaded) [
  | none ↦ default_forwarding
  | some (system_snapshot s) ↦ default_forwarding
  | some (forwarding_snapshot s) ↦ s
  | some (logging_snapshot s) ↦ default_forwarding
  | some (ai_snapshot s) ↦ default_forwarding
]

unfoldable pub logging_settings : {W : Type 0} → Center W → LoggingSettings
unfolding default_logging
logging_settings c = elim (lookup logging c.loaded) [
  | none ↦ default_logging
  | some (system_snapshot s) ↦ default_logging
  | some (forwarding_snapshot s) ↦ default_logging
  | some (logging_snapshot s) ↦ s
  | some (ai_snapshot s) ↦ default_logging
]

unfoldable pub ai_settings : {W : Type 0} → Center W → AiSettings
unfolding default_ai
ai_settings c = elim (lookup ai c.loaded) [
  | none ↦ default_ai
  | some (system_snapshot s) ↦ default_ai
  | some (forwarding_snapshot s) ↦ default_ai
  | some (logging_snapshot s) ↦ default_ai
  | some (ai_snapshot s) ↦ s
]
