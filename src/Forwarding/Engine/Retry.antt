-- ===== src/Forwarding/Engine/Retry.antt =====
-- internal/forwarding/engine.go, `sendWithRetry`: the loop over the attempts, for any way to send,
-- to classify a failure and to sleep.
pub mod Bound
use sakura_nexus.Base.{ℕ, Bool, true, false, List, [], ◌∷◌}
use sakura_nexus.Forwarding.Engine.State.{
  Failure, cancelled, FailureKind, transient, permanent, Result, ok, err,
}

module _ {W A : Type 0} (send : W → Result A × W) (kind : Failure → FailureKind)
    (sleep : ℕ → W → Bool × W) where
  -- What follows a failed attempt, by the waits that are left: `e` is `lastErr`.
  unfoldable pub retry : Failure → List ℕ → W → Result A × W
  retry e [] w = (err e, w)
  retry e (b ∷ backoffs) w =
      let (awake, w1) = sleep b w in
      elim awake [
        | false ↦ (err cancelled, w1)
        | true ↦
            let (r, w2) = send w1 in
            elim r [
              | ok a ↦ (ok a, w2)
              | err e' ↦ elim (kind e') [
                | permanent ↦ (err e', w2)
                | transient ↦ retry e' backoffs w2
              ]
            ]
      ]

  -- The first attempt waits for nothing.
  unfoldable pub send_with_retry : List ℕ → W → Result A × W
  unfolding retry
  send_with_retry backoffs w =
      let (r, w1) = send w in
      elim r [
        | ok a ↦ (ok a, w1)
        | err e ↦ elim (kind e) [ permanent ↦ (err e, w1) | transient ↦ retry e backoffs w1 ]
      ]
