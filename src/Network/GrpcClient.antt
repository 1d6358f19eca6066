-- ===== src/Network/GrpcClient.antt =====
-- internal/network/grpcClient/client.go. The service, the context and the timers are parameters that
-- change the world `W`; a channel is the list of what it holds, oldest first. Logging is left out.
pub mod Backoff
pub mod Queue
pub mod Upload
pub mod Tests
use eth_mon_svr.Base.{
  ℕ, zero, suc, ◌+◌, ◌-◌, ◌*◌, ◌≡◌, Bool, true, false, not, ◌&&◌, List, [], ◌∷◌, ◌++◌, Option, none,
  some, ◌==◌, ltb, if◌then◌else◌, length, drop, add64, sub64,
}

abbrev pub gas_prediction_buffer_size : ℕ
gas_prediction_buffer_size = 3

abbrev pub fee_bucket_buffer_size : ℕ
fee_bucket_buffer_size = 1

abbrev pub stream_fast_retry_count : ℕ
stream_fast_retry_count = 3

-- 2 s and 30 s in nanoseconds.
abbrev pub stream_fast_retry_delay : ℕ
stream_fast_retry_delay = 2000000000

abbrev pub stream_max_retry_delay : ℕ
stream_max_retry_delay = 30000000000

abbrev pub max_fee_bucket_attempts : ℕ
max_fee_bucket_attempts = 3

-- The message `GasPredictionStream`: a prediction for a block with its content, a gap, or no event.
pub data GasPredictionStream (P : Type 0) : Type 0 where
  prediction : ℕ → P → GasPredictionStream P
  gap : ℕ → ℕ → GasPredictionStream P
  no_event : GasPredictionStream P

pub record GasPredictionClient (P F : Type 0) : Type 0 where
  pub gas_predict_ch : List (GasPredictionStream P)
  pub fee_bucket_ch : List F
  pub gas_predict_last_sent_block : ℕ

-- A send that does not wait.
unfoldable pub try_send {ℓ} : {A : Type ℓ} → ℕ → A → List A → List A
try_send size req ch = if ltb (length ch) size then ch ++ req ∷ [] else ch

-- The three `select`s of `enqueue` and of `FeeBucketSend`: into a full channel, after its oldest value
-- is taken out. They are one step here: a receive between two of them is not modelled.
unfoldable pub send_latest {ℓ} : {A : Type ℓ} → ℕ → A → List A → List A
send_latest size req ch =
    if ltb (length ch) size then ch ++ req ∷ [] else try_send size req (drop 1 ch)

module _ {P F : Type 0} where
  unfoldable pub enqueue : GasPredictionStream P → GasPredictionClient P F → GasPredictionClient P F
  enqueue req c = record c {
    gas_predict_ch = send_latest gas_prediction_buffer_size req c.gas_predict_ch;
  }

  unfoldable pub fee_bucket_send : F → GasPredictionClient P F → GasPredictionClient P F
  fee_bucket_send req c = record c {
    fee_bucket_ch = send_latest fee_bucket_buffer_size req c.fee_bucket_ch;
  }

  unfoldable pub gas_predict_result_send :
      GasPredictionStream P → GasPredictionClient P F → GasPredictionClient P F
  gas_predict_result_send no_event c = c
  gas_predict_result_send (gap from to) c = c
  gas_predict_result_send (prediction next_block_number p) c =
      let last = c.gas_predict_last_sent_block in
      let req = prediction next_block_number p in
      if not (last == 0) && ltb (add64 last 1) next_block_number
      then enqueue req (enqueue (gap (add64 last 1) (sub64 next_block_number 1)) c)
      else enqueue req c

  -- What `processStream` notes of a message that the server accepted.
  unfoldable pub accepted :
      GasPredictionStream P → GasPredictionClient P F → GasPredictionClient P F
  accepted no_event c = c
  accepted (gap from to) c = c
  accepted (prediction next_block_number p) c = record c {
    gas_predict_last_sent_block = next_block_number;
  }

-- The retry variables of `startStreamWorker`.
pub record Retry : Type 0 where
  pub retry_count : ℕ
  pub retry_delay : ℕ

abbrev pub connected : Retry
connected = record { retry_count = 0; retry_delay = stream_fast_retry_delay }

-- `retryDelay *= 2`, at most the largest delay.
unfoldable pub double_delay : ℕ → ℕ
double_delay delay =
    let doubled = delay * 2 in
    if ltb stream_max_retry_delay doubled then stream_max_retry_delay else doubled

-- The end of a round: the delay that it waits, and the variables of the next one.
unfoldable pub retry : Retry → ℕ × Retry
retry r =
    if ltb r.retry_count stream_fast_retry_count
    then (stream_fast_retry_delay, record r { retry_count = r.retry_count + 1 })
    else (r.retry_delay, record r { retry_delay = double_delay r.retry_delay })

-- What `UploadFeeBuckets` returns: an error, nil, a refusal (whether its code is INVALID_REQUEST), or
-- success.
pub data Response (E : Type 0) : Type 0 where
  upload_error : E → Response E
  empty success : Response E
  rejected : Bool → Response E

-- The errors of `sendFeeBucket`.
pub data SendError (E : Type 0) : Type 0 where
  context_done empty_response rejected_by_server : SendError E
  upload_failed : E → SendError E

-- `is_cancelled` is whether `ctx.Err()` is not nil; `wait_for_retry` is `WaitForRetry`.
pub record Service (W E F : Type 0) : Type 0 where
  pub is_cancelled : W → W × Bool
  pub upload_fee_buckets : F → W → W × Response E
  pub wait_for_retry : W → W × Bool

-- The error that an answer leaves in `lastErr`, and whether the loop goes on.
unfoldable pub last_err : {E : Type 0} → Response E → Option (SendError E) × Bool
last_err (upload_error e) = (some (upload_failed e), true)
last_err empty = (some empty_response, true)
last_err (rejected invalid) = (some rejected_by_server, not invalid)
last_err success = (none, false)

module _ {W E F : Type 0} (service : Service W E F) where
  -- The attempts of `sendFeeBucket`, with so many more to come after this one; `none` is no error.
  unfoldable pub send_attempt : ℕ → F → W → W × Option (SendError E)
  send_attempt zero req w =
      let (w₁, done) = service.is_cancelled w in
      let (w₂, res) = service.upload_fee_buckets req w₁ in
      if done then (w₁, some context_done) else (w₂, (last_err res).0)
  send_attempt (suc more) req w =
      let (w₁, done) = service.is_cancelled w in
      let (w₂, res) = service.upload_fee_buckets req w₁ in
      let (w₃, in_time) = service.wait_for_retry w₂ in
      let again = send_attempt more req w₃ in
      let (err, goes_on) = last_err res in
      if done
      then (w₁, some context_done)
      else (if goes_on then (if in_time then again else (w₃, some context_done)) else (w₂, err))

  unfoldable pub send_fee_bucket : F → W → W × Option (SendError E)
  send_fee_bucket req w = send_attempt (max_fee_bucket_attempts - 1) req w
