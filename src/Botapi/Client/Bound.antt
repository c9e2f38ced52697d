-- ===== src/Botapi/Client/Bound.antt =====
-- internal/platform/botapi/client.go, `Call`: the number of requests, which is kept beside the world.
use sakura_nexus.Base.{
  ℕ, zero, suc, ◌+◌, ◌≤◌, ◌≡◌, ◌⊎◌, inl, inr, refl, Bool, true, false, Option, some, arith,
  Bool-cases,
}
use sakura_nexus.Base.Text.{Text}
use sakura_nexus.Botapi.Client.{
  Answer, ClientError, cancelled, Response, Outcome, ok, err, retryable, once, retry_from, call,
  decode_result, parse_answer, retry_delay,
}

abbrev pub counted_post {ℓ} :
    {W : Type ℓ} → (Text → W → Answer × W) → Text → W × ℕ → Answer × (W × ℕ)
counted_post post s (w, n) = let (r, w') = post s w in (r, (w', suc n))

abbrev pub counted_sleep {ℓ} : {W : Type ℓ} → (ℕ → W → Bool × W) → ℕ → W × ℕ → Bool × (W × ℕ)
counted_sleep sleep b (w, n) = let (awake, w') = sleep b w in (awake, (w', n))

-- The number of requests lies between two bounds, and an error that is worth another try is returned
-- only after the last of them.
pub record Bounded {A : Type 0} (least most requests : ℕ) (r : Outcome A) : Type 0 where
  pub at_least : least ≤ requests
  pub at_most : requests ≤ most
  pub gives_up : (e : ClientError) → r ≡ err e → retryable e ≡ true → requests ≡ most

Outcome-cases :
    {A : Type 0} (r : Outcome A) → ((a : A) × (r ≡ ok a)) ⊎ ((e : ClientError) × (r ≡ err e))
Outcome-cases (ok a) = inl (a, refl)
Outcome-cases (err e) = inr (e, refl)

decode_result-retryable :
    {A : Type 0} (decode : Text → Option A) (unset : A) (env : Response) (e : ClientError)
    → decode_result decode unset env ≡ err e
    → retryable e ≡ false
unfolding decode_result retryable
decode_result-retryable decode unset env e h = ground (arith, h)

exfalso : {x : Bool} {m n : ℕ} → x ≡ false → x ≡ true → m ≡ n
exfalso h i = cc (h, i)

cancelled_call :
    {A : Type 0} {m n : ℕ} {r : Outcome A} (e : ClientError)
    → r ≡ err cancelled
    → r ≡ err e
    → retryable e ≡ true
    → m ≡ n
unfolding retryable
cancelled_call e q h i = ground (arith, q, h, i)

module _ {W A : Type 0} (post : Text → W → Answer × W) (sleep : ℕ → W → Bool × W)
    (decode : Text → Option A) (unset : A) where
  abbrev retry_counted : Text → ℕ → ℕ → ClientError → W × ℕ → Outcome A × (W × ℕ)
  retry_counted = retry_from (counted_post post) (counted_sleep sleep) decode unset

  retry_bound :
      (payload : Text) (left attempt : ℕ) (e : ClientError) (w : W) (n : ℕ)
      → Bounded n
          (n + left)
          (retry_counted payload left attempt e (w, n)).1.1
          (retry_counted payload left attempt e (w, n)).0
  unfolding retry_from
  retry_bound payload zero attempt e w n = record {
    at_least = omega arith;
    at_most = omega arith;
    gives_up = λ e' h i. omega arith;
  }
  retry_bound payload (suc left) attempt e w n =
      let w1 = (sleep (retry_delay e attempt) w).1 in
      elim (Bool-cases (sleep (retry_delay e attempt) w).0) [
        | inr asleep ↦
            rw (asleep, retry_from)
              (record {
                at_least = omega arith;
                at_most = omega arith;
                gives_up = λ e' h i. cancelled_call e' refl h i;
              })
        | inl awake ↦ elim (Outcome-cases (parse_answer (post payload w1).0)) [
          | inl (env, sent) ↦
              rw (awake, sent, retry_from, once)
                (record {
                  at_least = omega arith;
                  at_most = omega arith;
                  gives_up = λ e' h i. exfalso (decode_result-retryable decode unset env e' h) i;
                })
          | inr (e1, failed) ↦ elim (Bool-cases (retryable e1)) [
            | inr final ↦
                rw (awake, failed, final, retry_from, once)
                  (record {
                    at_least = omega arith;
                    at_most = omega arith;
                    gives_up = λ e' h i. ground (arith, h, i, final);
                  })
            | inl again ↦
                rw (awake, failed, again, retry_from, once)
                  (widen (retry_bound payload left (attempt + 1) e1 (post payload w1).1 (suc n)))
          ]
        ]
      ]
    where
      widen :
          {r : Outcome A} {requests : ℕ}
          → Bounded (suc n) (suc n + left) requests r
          → Bounded n (n + suc left) requests r
      widen h = record {
        at_least = omega (arith, h.at_least);
        at_most = omega (arith, h.at_most);
        gives_up = λ e' q i. omega (arith, h.gives_up e' q i);
      }

  -- At least one request is made and at most four are. What is returned is no error that is worth
  -- another try, unless all four were made.
  pub call_bound :
      (payload : Text) (w : W)
      → Bounded 1 4
          (call (counted_post post) (counted_sleep sleep) decode unset (some payload) (w, 0)).1.1
          (call (counted_post post) (counted_sleep sleep) decode unset (some payload) (w, 0)).0
  unfolding call once
  call_bound payload w = elim (Outcome-cases (parse_answer (post payload w).0)) [
    | inl (env, sent) ↦
        rw (sent, call, once)
          (record {
            at_least = omega arith;
            at_most = omega arith;
            gives_up = λ e h i. exfalso (decode_result-retryable decode unset env e h) i;
          })
    | inr (e1, failed) ↦ elim (Bool-cases (retryable e1)) [
      | inr final ↦
          rw (failed, final, call, once)
            (record {
              at_least = omega arith;
              at_most = omega arith;
              gives_up = λ e h i. ground (arith, h, i, final);
            })
      | inl again ↦ rw (failed, again, call, once) (retry_bound payload 3 1 e1 (post payload w).1 1)
    ]
  ]
