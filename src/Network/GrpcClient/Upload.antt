-- ===== src/Network/GrpcClient/Upload.antt =====
-- `sendFeeBucket` of internal/network/grpcClient/client.go: which answer decides.
use eth_mon_svr.Base.{
  ℕ, zero, suc, ◌-◌, ◌≡◌, refl, true, false, List, [], ◌∷◌, Option, none, some, arith, Bool-cases,
  inl, inr, if◌then◌else◌,
}
use eth_mon_svr.Network.GrpcClient.{
  Response, upload_error, empty, success, rejected, rejected_by_server, empty_response,
  upload_failed, SendError, Service, last_err, send_attempt, send_fee_bucket,
  max_fee_bucket_attempts,
}

-- The first answer that is a success or refuses the request as invalid decides, else the last one.
unfoldable pub verdict : {E : Type 0} → Response E → List (Response E) → Option (SendError E)
verdict success [] = none
verdict (rejected invalid) [] = some rejected_by_server
verdict empty [] = some empty_response
verdict (upload_error e) [] = some (upload_failed e)
verdict success (next ∷ rest) = none
verdict (rejected true) (next ∷ rest) = some rejected_by_server
verdict (rejected false) (next ∷ rest) = verdict next rest
verdict empty (next ∷ rest) = verdict next rest
verdict (upload_error e) (next ∷ rest) = verdict next rest

verdict-last : {E : Type 0} (last : Response E) → (last_err last).0 ≡ verdict last []
unfolding verdict last_err
verdict-last success = refl
verdict-last (rejected invalid) = refl
verdict-last empty = refl
verdict-last (upload_error e) = refl

verdict-goes_on :
    {E : Type 0} (first next : Response E) (rest : List (Response E))
    → verdict first (next ∷ rest)
      ≡ (if (last_err first).1 then verdict next rest else (last_err first).0)
unfolding verdict last_err
verdict-goes_on success next rest = refl
verdict-goes_on (rejected true) next rest = refl
verdict-goes_on (rejected false) next rest = refl
verdict-goes_on empty next rest = refl
verdict-goes_on (upload_error e) next rest = refl

module _ {W E F : Type 0} (service : Service W E F) where
  -- The context is never done, and neither asking it nor waiting changes what the service answers.
  pub record IsQuiet : Type 0 where
    pub alive : (w : W) → service.is_cancelled w ≡ (w, false)
    pub waits : (w : W) → service.wait_for_retry w ≡ (w, true)

  -- The answers to `n` uploads one after the other.
  unfoldable pub answers : ℕ → F → W → List (Response E)
  answers zero req w = []
  answers (suc n) req w = let (w', res) = service.upload_fee_buckets req w in res ∷ answers n req w'

  send_attempt-verdict :
      IsQuiet
      → (more : ℕ) (req : F) (w : W)
      → let (w', res) = service.upload_fee_buckets req w in
        (send_attempt service more req w).1 ≡ verdict res (answers more req w')
  unfolding send_attempt answers verdict
  send_attempt-verdict q zero req w =
      let (w', res) = service.upload_fee_buckets req w in
      ground (arith, q.alive w, verdict-last res)
  send_attempt-verdict q (suc more) req w =
      let (w', res) = service.upload_fee_buckets req w in
      let (w'', next) = service.upload_fee_buckets req w' in
      let later = send_attempt-verdict q more req w' in
      rw (q.alive w, q.waits w', verdict-goes_on res next (answers more req w''))
        (elim (Bool-cases (last_err res).1) [
          | inl goes_on ↦ rw goes_on later
          | inr stop ↦ rw stop refl
        ])

  -- Where the context is never done, and neither asking it nor waiting changes what the service answers,
  -- the first of three answers to `sendFeeBucket` that is a success or refuses the request as invalid
  -- decides: it returns no error for the one and the rejection for the
  -- other. Where there is no such answer it returns the error of the third: its rejection, the empty
  -- response, or the error of the upload.
  pub send_fee_bucket-verdict :
      IsQuiet
      → (req : F) (w : W)
      → let (w', first) = service.upload_fee_buckets req w in
        (send_fee_bucket service req w).1
        ≡ verdict first (answers (max_fee_bucket_attempts - 1) req w')
  unfolding send_fee_bucket
  send_fee_bucket-verdict q req w = send_attempt-verdict q (max_fee_bucket_attempts - 1) req w
