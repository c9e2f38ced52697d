-- ===== src/Forwarding/Engine/Execute/Outcome.antt =====
-- What becomes of a task (internal/forwarding/engine.go, `execute`).
use sakura_nexus.Base.{◌≡◌, ◌⊎◌, inl, inr, refl, Bool, subst₂, true, false, List, arith, Bool-cases}
use sakura_nexus.Domain.{ChannelMessage, ForwardRule, SentMessage}
use sakura_nexus.Forwarding.Engine.State.{
  Deps, Engine, SendTask, ForwardingParams, Failure, FailureKind, transient, permanent, Result, ok,
  err, classify_failure, delay_for,
}
use sakura_nexus.Forwarding.Engine.Process.{finish_terminals}
use sakura_nexus.Forwarding.Engine.Execute.{
  is_forward_mode, rewrite_if_enabled, append_footer, prepare, send_prepared, settle, execute,
}

module _ {W : Type 0} (d : Deps W) where
  -- A task is finished by a success, or by a permanent failure while the context lives.
  pub data IsFinal (w : W) : Result SentMessage → Type 0 where
    sent : (m : SentMessage) → IsFinal w (ok m)
    refused :
        (f : Failure)
        → classify_failure d f ≡ permanent
        → d.is_cancelled w ≡ false
        → IsFinal w (err f)

  pub data Settled (e : Engine) (rule : ForwardRule) (msgs : List ChannelMessage)
      (r : Result SentMessage) (w : W) (out : Engine × W) : Type 0 where
    final :
        IsFinal w r
        → (w' : W) → out ≡ finish_terminals d e rule msgs w'
        → Settled e rule msgs r w out
    open_task : ¬ IsFinal w r → out.0 ≡ e → Settled e rule msgs r w out

  Kind-cases : (k : FailureKind) → (k ≡ transient) ⊎ (k ≡ permanent)
  Kind-cases transient = inl refl
  Kind-cases permanent = inr refl

  IsFinal-err :
      {w : W} {f : Failure}
      → IsFinal w (err f)
      → (classify_failure d f ≡ permanent) × (d.is_cancelled w ≡ false)
  IsFinal-err (refused f p a) = (p, a)

  settle-Settled :
      (e : Engine) (t : SendTask) (r : Result SentMessage) (w : W)
      → Settled e t.rule t.msgs r w (settle d e t r w)
  unfolding settle
  settle-Settled e t (ok m) w = final (sent m) _ refl
  settle-Settled e t (err f) w = elim (Bool-cases (d.is_cancelled w)) [
    | inl gone ↦ rw gone (open_task (λ z. cc (gone, (IsFinal-err z).1)) refl)
    | inr alive ↦ elim (Kind-cases (classify_failure d f)) [
      | inl again ↦ rw (alive, again) (open_task (λ z. cc (again, (IsFinal-err z).0)) refl)
      | inr never ↦ rw (alive, never) (final (refused f never alive) _ refl)
    ]
  ]

  rewrite_if_enabled-parts :
      (t : SendTask) (w : W)
      → ((rewrite_if_enabled d t w).0.rule ≡ t.rule) × ((rewrite_if_enabled d t w).0.msgs ≡ t.msgs)
  unfolding rewrite_if_enabled
  rewrite_if_enabled-parts t w = (ground arith, ground arith)

  append_footer-parts :
      (p : ForwardingParams) (t : SendTask) (w : W)
      → ((append_footer d p t w).0.rule ≡ t.rule) × ((append_footer d p t w).0.msgs ≡ t.msgs)
  unfolding append_footer
  append_footer-parts p t w = (ground arith, ground arith)

  prepare-parts :
      (p : ForwardingParams) (t : SendTask) (w : W)
      → ((prepare d p t w).0.rule ≡ t.rule) × ((prepare d p t w).0.msgs ≡ t.msgs)
  unfolding prepare
  prepare-parts p t w =
      let (t1, w1) = rewrite_if_enabled d t w in
      (
        cc ((append_footer-parts p t1 w1).0, (rewrite_if_enabled-parts t w).0),
        cc ((append_footer-parts p t1 w1).1, (rewrite_if_enabled-parts t w).1),
      )

  -- A rule that forwards sends the messages as they are: no rewriting and no footer.
  pub forward_mode-prepare :
      (p : ForwardingParams) (t : SendTask) (w : W)
      → is_forward_mode t.rule ≡ true
      → prepare d p t w ≡ (t, w)
  unfolding prepare rewrite_if_enabled append_footer
  forward_mode-prepare p t w h = ground (arith, h)

  -- What a task sends, and the world after it: after the delay, rewritten and with its footer.
  abbrev pub attempt : Engine → SendTask → W → Result SentMessage × W
  attempt e t w =
      let (delay, w1) = delay_for d e.params t.rule w in
      let (awake, w2) = d.sleep delay w1 in
      let (t', w3) = prepare d e.params t w2 in send_prepared d e.params t' w3

  abbrev pub is_awake : Engine → SendTask → W → Bool
  is_awake e t w = let (delay, w1) = delay_for d e.params t.rule w in (d.sleep delay w1).0

  -- A task that has waited out its delay is settled in one of two ways. If it was sent, or failed
  -- permanently while the context lives, all its messages are finished for its rule, and nothing else
  -- of the engine changes. Otherwise the engine stays as it is: its messages remain unresolved. If
  -- the delay was cut short the engine stays as it is too.
  pub execute-Settled :
      (e : Engine) (t : SendTask) (w : W)
      → ((is_awake e t w ≡ true)
          × Settled e t.rule t.msgs (attempt e t w).0 (attempt e t w).1 (execute d e t w))
        ⊎ ((is_awake e t w ≡ false) × ((execute d e t w).0 ≡ e))
  unfolding execute
  execute-Settled e t w = elim (Bool-cases (is_awake e t w)) [
    | inr asleep ↦ inr (asleep, rw (asleep, execute))
    | inl awake ↦
        let (delay, w1) = delay_for d e.params t.rule w in
        let w2 = (d.sleep delay w1).1 in
        let parts = prepare-parts e.params t w2 in
        let t' = (prepare d e.params t w2).0 in
        inl (
          awake,
          rw (awake, execute)
              (subst₂
                (λ rule msgs.
                  Settled e rule msgs (attempt e t w).0 (attempt e t w).1
                    (settle d e t' (attempt e t w).0 (attempt e t w).1))
                parts.0 parts.1 (settle-Settled e t' (attempt e t w).0 (attempt e t w).1)),
        )
  ]
