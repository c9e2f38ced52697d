-- ===== src/Forwarding/Engine/Retry/Bound.antt =====
-- How often a message is sent (internal/forwarding/engine.go, `sendWithRetry`). The number of calls
-- is kept beside the world.
use sakura_nexus.Base.{
  ℕ, suc, ◌+◌, ◌≤◌, ◌≡◌, ◌⊎◌, inl, inr, refl, Bool, List, [], ◌∷◌, length, arith, Bool-cases,
}
use sakura_nexus.Forwarding.Engine.State.{
  Failure, cancelled, FailureKind, transient, permanent, Result, ok, err,
}
use sakura_nexus.Forwarding.Engine.Retry.{retry, send_with_retry}

abbrev pub counted_send {ℓ} : {W A : Type ℓ} → (W → Result A × W) → W × ℕ → Result A × (W × ℕ)
counted_send send (w, n) = let (r, w') = send w in (r, (w', suc n))

abbrev pub counted_sleep {ℓ} : {W : Type ℓ} → (ℕ → W → Bool × W) → ℕ → W × ℕ → Bool × (W × ℕ)
counted_sleep sleep b (w, n) = let (awake, w') = sleep b w in (awake, (w', n))

-- The calls lie between two bounds, and an error is that of a cancelled context, a permanent one,
-- or that of the last call that is allowed.
pub record Bounded {A : Type 0} (kind : Failure → FailureKind) (least most calls : ℕ) (r : Result A)
    : Type 0 where
  pub at_least : least ≤ calls
  pub at_most : calls ≤ most
  pub gives_up : (e : Failure) → r ≡ err e → (e ≡ cancelled) ⊎ (kind e ≡ permanent) ⊎ (calls ≡ most)

Result-cases : {A : Type 0} (r : Result A) → ((a : A) × (r ≡ ok a)) ⊎ ((e : Failure) × (r ≡ err e))
Result-cases (ok a) = inl (a, refl)
Result-cases (err e) = inr (e, refl)

kind_cases : (k : FailureKind) → (k ≡ transient) ⊎ (k ≡ permanent)
kind_cases transient = inl refl
kind_cases permanent = inr refl

module _ {W A : Type 0} (send : W → Result A × W) (kind : Failure → FailureKind)
    (sleep : ℕ → W → Bool × W) where
  abbrev retry_counted : Failure → List ℕ → W × ℕ → Result A × (W × ℕ)
  retry_counted = retry (counted_send send) kind (counted_sleep sleep)

  retry_bound :
      (e : Failure) (backoffs : List ℕ) (w : W) (n : ℕ)
      → Bounded kind n
          (n + length backoffs)
          (retry_counted e backoffs (w, n)).1.1
          (retry_counted e backoffs (w, n)).0
  unfolding retry
  retry_bound e [] w n = record {
    at_least = omega arith;
    at_most = omega arith;
    gives_up = λ e' h. inr (inr (omega arith));
  }
  retry_bound e (b ∷ backoffs) w n = elim (Bool-cases (sleep b w).0) [
    | inr asleep ↦
        rw (asleep, retry)
          (record { at_least = omega arith; at_most = omega arith; gives_up = λ e' h. inl (cc h) })
    | inl awake ↦ elim (Result-cases (send (sleep b w).1).0) [
      | inl (a, sent) ↦
          rw (awake, sent, retry)
            (record { at_least = omega arith; at_most = omega arith; gives_up = λ e' h. cc h })
      | inr (e1, failed) ↦ elim (kind_cases (kind e1)) [
        | inr final ↦
            rw (awake, failed, final, retry)
              (record {
                at_least = omega arith;
                at_most = omega arith;
                gives_up = λ e' h. ground (arith, h, final);
              })
        | inl again ↦
            rw (awake, failed, again, retry)
              (widen (retry_bound e1 backoffs (send (sleep b w).1).1 (suc n)))
      ]
    ]
  ]
    where
      widen :
          {r : Result A} {calls : ℕ}
          → Bounded kind (suc n) (suc n + length backoffs) calls r
          → Bounded kind n (n + suc (length backoffs)) calls r
      widen h = record {
        at_least = omega (arith, h.at_least);
        at_most = omega (arith, h.at_most);
        gives_up = λ e' q. elim (h.gives_up e' q) [
          | inl c ↦ inl c
          | inr (inl p) ↦ inr (inl p)
          | inr (inr l) ↦ inr (inr (omega (arith, l)))
        ];
      }

  -- A message is sent at least once and at most once more than there are waits; an error that is
  -- returned is that of a cancelled context, a permanent one, or that of the last attempt.
  pub send_with_retry_bound :
      (backoffs : List ℕ) (w : W)
      → Bounded kind 1
          (1 + length backoffs)
          (send_with_retry (counted_send send) kind (counted_sleep sleep) backoffs (w, 0)).1.1
          (send_with_retry (counted_send send) kind (counted_sleep sleep) backoffs (w, 0)).0
  unfolding send_with_retry
  send_with_retry_bound backoffs w = elim (Result-cases (send w).0) [
    | inl (a, sent) ↦
        rw (sent, send_with_retry)
          (record { at_least = omega arith; at_most = omega arith; gives_up = λ e h. cc h })
    | inr (e1, failed) ↦ elim (kind_cases (kind e1)) [
      | inr final ↦
          rw (failed, final, send_with_retry)
            (record {
              at_least = omega arith;
              at_most = omega arith;
              gives_up = λ e h. ground (arith, h, final);
            })
      | inl again ↦ rw (failed, again, send_with_retry) (retry_bound e1 backoffs (send w).1 1)
    ]
  ]
