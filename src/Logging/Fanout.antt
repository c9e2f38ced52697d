-- ===== src/Logging/Fanout.antt =====
-- internal/logging/fanout.go: a log record goes to several handlers. `H` is a handler and `W` the world
-- behind all of them; the methods of a handler are parameters, and `none` is no error.
use sakura_nexus.Base.{Bool, true, false, Option, none, some, List, [], ◌∷◌, map, if◌then◌else◌}

module _ {H Level Rec E W : Type 0} (is_enabled : H → Level → Bool) (level : Rec → Level)
    (handle_one : H → Rec → W → Option E × W) where
  unfoldable pub enabled : List H → Level → Bool
  enabled [] l = false
  enabled (h ∷ hs) l = if is_enabled h l then true else enabled hs l

  -- The first error is returned; the others are called all the same.
  unfoldable pub handle_all : List H → Rec → Option E → W → Option E × W
  handle_all [] r first w = (first, w)
  handle_all (h ∷ hs) r first w =
      let (e, w') = handle_one h r w in
      if is_enabled h (level r)
      then handle_all hs r (elim first [ none ↦ e | some x ↦ some x ]) w'
      else handle_all hs r first w

  unfoldable pub handle : List H → Rec → W → Option E × W
  unfolding handle_all
  handle hs r w = handle_all hs r none w

-- `WithAttrs` and `WithGroup`: each handler on its own.
unfoldable pub derive {ℓ} : {H : Type ℓ} → (H → H) → List H → List H
derive f hs = map f hs
