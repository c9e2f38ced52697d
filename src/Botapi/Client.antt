-- ===== src/Botapi/Client.antt =====
-- internal/platform/botapi/client.go: a call with its retries. `W` is the world behind the connection
-- and the clock. JSON is the library's: a payload and an answer come encoded and parsed. The text of
-- an error, with the token cut out of it, is what the transport reports. Times are nanoseconds.
pub mod Bound
use sakura_nexus.Base.{
  ℕ, zero, suc, ◌+◌, ◌-◌, ◌*◌, ◌^◌, Bool, true, false, ◌||◌, Option, none, some, if◌then◌else◌,
  ◌==◌, leb,
}
use sakura_nexus.Base.Int.{ℤ, pos, pos_part}
use sakura_nexus.Base.Text.{Text, is_empty}

abbrev pub max_retries : ℕ
max_retries = 3

abbrev pub second : ℕ
second = 1000000000

-- The envelope of an answer: `retry_after` is that of its parameters.
pub record Response : Type 0 where
  pub fine : Bool
  pub result : Text
  pub error_code : ℕ
  pub description : Text
  pub retry_after : Option ℤ

pub record ApiError : Type 0 where
  pub code : ℕ
  pub description : Text
  pub retry_after : ℕ

pub data ClientError : Type 0 where
  encode_error cancelled build_error read_error decode_error : ClientError
  transport_error : Text → ClientError
  not_json : ℕ → ClientError
  api_error : ApiError → ClientError

-- What becomes of one request. An answer has a status, and the number that `strconv.Atoi` reads from
-- its Retry-After header.
pub data Answer : Type 0 where
  no_request no_body : Answer
  no_transport : Text → Answer
  no_json : ℕ → Answer
  answered : ℕ → Option ℤ → Response → Answer

pub data Outcome (A : Type 0) : Type 0 where
  ok : A → Outcome A
  err : ClientError → Outcome A

-- `time.Duration(n) * time.Second` for a number that is greater than 0.
unfoldable pub header_retry : Option ℤ → ℕ
header_retry none = 0
header_retry (some n) = pos_part n * second

unfoldable pub retry_after_of : Response → Option ℤ → ℕ
unfolding header_retry
retry_after_of r header = elim r.retry_after [
  | none ↦ header_retry header
  | some n ↦ if pos_part n == 0 then header_retry header else pos_part n * second
]

unfoldable pub parse_answer : Answer → Outcome Response
unfolding retry_after_of
parse_answer no_request = err build_error
parse_answer no_body = err read_error
parse_answer (no_transport s) = err (transport_error s)
parse_answer (no_json status) = err (not_json status)
parse_answer (answered status header r) =
    if r.fine
    then ok r
    else err (
        api_error (record {
          code = if r.error_code == 0 then status else r.error_code;
          description = r.description;
          retry_after = retry_after_of r header;
        }))

unfoldable pub retryable : ClientError → Bool
retryable (api_error e) = e.code == 429 || leb 500 e.code
retryable (transport_error s) = true
retryable encode_error = false
retryable cancelled = false
retryable build_error = false
retryable read_error = false
retryable decode_error = false
retryable (not_json status) = false

unfoldable pub exponential : ℕ → ℕ
exponential attempt = 2 ^ (attempt - 1) * second

unfoldable pub retry_delay : ClientError → ℕ → ℕ
unfolding exponential
retry_delay (api_error e) attempt =
    if e.code == 429 then e.retry_after + second else exponential attempt
retry_delay (transport_error s) attempt = exponential attempt
retry_delay encode_error attempt = exponential attempt
retry_delay cancelled attempt = exponential attempt
retry_delay build_error attempt = exponential attempt
retry_delay read_error attempt = exponential attempt
retry_delay decode_error attempt = exponential attempt
retry_delay (not_json status) attempt = exponential attempt

-- `decode` is `json.Unmarshal` into the result, which an empty result is not given to: it stays
-- `unset`.
unfoldable pub decode_result : {A : Type 0} → (Text → Option A) → A → Response → Outcome A
decode_result decode unset r =
    if is_empty r.result
    then ok unset
    else elim (decode r.result) [ none ↦ err decode_error | some a ↦ ok a ]

module _ {W A : Type 0} (post : Text → W → Answer × W) (sleep : ℕ → W → Bool × W)
    (decode : Text → Option A) (unset : A) where
  unfoldable pub once : Text → W → Outcome Response × W
  unfolding parse_answer
  once payload w = let (a, w') = post payload w in (parse_answer a, w')

  -- The rounds from `attempt` on, while some are left; `e` is `lastErr`.
  unfoldable pub retry_from : Text → ℕ → ℕ → ClientError → W → Outcome A × W
  unfolding once retryable retry_delay decode_result
  retry_from payload zero attempt e w = (err e, w)
  retry_from payload (suc left) attempt e w =
      let (awake, w1) = sleep (retry_delay e attempt) w in
      elim awake [
        | false ↦ (err cancelled, w1)
        | true ↦
            let (r, w2) = once payload w1 in
            elim r [
              | ok env ↦ (decode_result decode unset env, w2)
              | err e' ↦ elim (retryable e') [
                | false ↦ (err e', w2)
                | true ↦ retry_from payload left (attempt + 1) e' w2
              ]
            ]
      ]

  -- A payload is `none` when it cannot be encoded.
  unfoldable pub call : Option Text → W → Outcome A × W
  unfolding once retryable retry_from decode_result
  call none w = (err encode_error, w)
  call (some payload) w =
      let (r, w1) = once payload w in
      elim r [
        | ok env ↦ (decode_result decode unset env, w1)
        | err e ↦ elim (retryable e) [
          | false ↦ (err e, w1)
          | true ↦ retry_from payload max_retries 1 e w1
        ]
      ]
