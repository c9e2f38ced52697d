-- ===== src/Forwarding/Engine/Control/Passes.antt =====
-- The entries and the loops of internal/forwarding/engine.go are made of the steps of Reach, so what holds
-- of every interleaving of the steps holds of every sequence of whole passes too.
use sakura_nexus.Forwarding.Engine.State.{Engine}
