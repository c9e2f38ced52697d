-- ===== src/Ai.antt =====
-- internal/platform/ai/provider.go: asking a model to rewrite a text. `W` is the world behind the
-- network, the clock and the random numbers; `jittered` is the wait with its random part, a product of
-- floating-point numbers. Times are nanoseconds.
use sakura_nexus.Base.{
  ℕ, zero, suc, ◌+◌, ◌-◌, ◌*◌, ◌^◌, Bool, true, false, ◌||◌, Option, none, some, List, [], ◌∷◌,
  if◌then◌else◌, ◌==◌, leb,
}
use sakura_nexus.Base.Int.{ℤ, pos, ltb_ℤ}
use sakura_nexus.Base.Text.{Text, is_empty}

abbrev pub rewrite_max_attempts : ℕ
rewrite_max_attempts = 3

abbrev pub rewrite_backoff_base : ℕ
rewrite_backoff_base = 1000000000

-- A temperature is in billionths.
pub record AiConfig : Type 0 where
  pub rewrite_model : Text
  pub temperature : ℤ
  pub timeout_seconds : ℕ

pub record Completion : Type 0 where
  pub model : Text
  pub system_message : Text
  pub user_message : Text
  pub temperature : Option ℤ
  pub timeout_seconds : ℕ

pub record AiResponse : Type 0 where
  pub body : Text
  pub model : Text
  pub finish_reason : Text
  pub total_tokens : ℕ

-- An answer: an error with the status of an API error, if it is one; or the choices, each a text and the
-- reason why it ends, with the model and the tokens.
pub data Completed : Type 0 where
  failed : Option ℕ → Completed
  choices : List (Text × Text) → Text → ℕ → Completed

pub data AiError : Type 0 where
  no_model cancelled no_choices : AiError
  call_failed : Option ℕ → AiError

pub data Rewritten : Type 0 where
  rewritten : AiResponse → Rewritten
  not_rewritten : AiError → Rewritten

unfoldable pub retryable_status : ℕ → Bool
retryable_status code = code == 429 || leb 500 code

unfoldable pub is_retryable : AiError → Bool
unfolding retryable_status
is_retryable no_model = false
is_retryable cancelled = false
is_retryable no_choices = false
is_retryable (call_failed none) = false
is_retryable (call_failed (some code)) = retryable_status code

unfoldable pub backoff : ℕ → ℕ
backoff attempt = 2 ^ (attempt - 1) * rewrite_backoff_base

module _ {W : Type 0} (complete : Completion → W → Completed × W) (jittered : ℕ → W → ℕ × W)
    (sleep : ℕ → W → Bool × W) (cfg : AiConfig) where
  unfoldable pub rewrite_once : Text → Text → W → Rewritten × W
  rewrite_once prompt body w =
      let (a, w') =
        complete
          (record {
            model = cfg.rewrite_model;
            system_message = prompt;
            user_message = body;
            temperature = if ltb_ℤ (pos 0) cfg.temperature then some cfg.temperature else none;
            timeout_seconds = cfg.timeout_seconds;
          })
          w in
      elim a [
        | failed status ↦ (not_rewritten (call_failed status), w')
        | choices [] model tokens ↦ (not_rewritten no_choices, w')
        | choices (c ∷ cs) model tokens ↦ (
          rewritten
              (record { body = c.0; model = model; finish_reason = c.1; total_tokens = tokens }),
          w',
        )
      ]

  -- The rounds from `attempt` on, while some are left; `e` is `lastErr`.
  unfoldable pub rewrite_again : Text → Text → ℕ → ℕ → AiError → W → Rewritten × W
  unfolding rewrite_once is_retryable backoff
  rewrite_again prompt body zero attempt e w = (not_rewritten e, w)
  rewrite_again prompt body (suc left) attempt e w =
      let (d, w1) = jittered (backoff attempt) w in
      let (awake, w2) = sleep d w1 in
      elim awake [
        | false ↦ (not_rewritten cancelled, w2)
        | true ↦
            let (r, w3) = rewrite_once prompt body w2 in
            elim r [
              | rewritten x ↦ (rewritten x, w3)
              | not_rewritten e' ↦ elim (is_retryable e') [
                | false ↦ (not_rewritten e', w3)
                | true ↦ rewrite_again prompt body left (attempt + 1) e' w3
              ]
            ]
      ]

  unfoldable pub rewrite : Text → Text → W → Rewritten × W
  unfolding rewrite_once is_retryable rewrite_again
  rewrite prompt body w =
      if is_empty cfg.rewrite_model
      then (not_rewritten no_model, w)
      else let (r, w1) = rewrite_once prompt body w in
        elim r [
          | rewritten x ↦ (rewritten x, w1)
          | not_rewritten e ↦ elim (is_retryable e) [
            | false ↦ (not_rewritten e, w1)
            | true ↦ rewrite_again prompt body (rewrite_max_attempts - 1) 1 e w1
          ]
        ]

-- `NewProvider`: a timeout of 0 is 60.
unfoldable pub new_config : AiConfig → AiConfig
new_config c = record c {
  timeout_seconds = if c.timeout_seconds == 0 then 60 else c.timeout_seconds;
}
