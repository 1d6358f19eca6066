-- ===== src/Network/GrpcClient/Tests.antt =====
-- Runs of the client of the prediction service.
use eth_mon_svr.Base.{ℕ, zero, suc, ◌-◌, ◌≡◌, refl, true, false, List, [], ◌∷◌, ◌++◌, none, arith}
use eth_mon_svr.Network.GrpcClient.{
  prediction, gap, GasPredictionClient, try_send, send_latest, enqueue, gas_predict_result_send,
  upload_error, success, Service, last_err, send_attempt, send_fee_bucket, max_fee_bucket_attempts,
  retry,
}
use eth_mon_svr.Network.GrpcClient.Backoff.{after, retry-after}
use eth_mon_svr.Network.GrpcClient.Queue.{
  Step, sends, receives, run, step, sent, held, IsEnd, run-IsEnd,
}
use eth_mon_svr.Network.GrpcClient.Upload.{verdict, answers, send_fee_bucket-verdict}

abbrev steps : List (Step ℕ)
steps = sends 1 ∷ sends 2 ∷ receives ∷ sends 3 ∷ sends 4 ∷ sends 5 ∷ []

run_sequence : run 3 steps [] ≡ 3 ∷ 4 ∷ 5 ∷ []
unfolding run step send_latest try_send
run_sequence = refl

run-IsEnd_example : IsEnd 3 (held 3 steps 0) ([] ++ sent steps) (run 3 steps [])
run-IsEnd_example =
    run-IsEnd 3 0 steps [] [] (omega arith)
      (record { before = []; is_end = refl; count = refl; bounded = omega arith })

abbrev waiting : GasPredictionClient ℕ ℕ
waiting = record {
  gas_predict_ch = prediction 11 0 ∷ [];
  fee_bucket_ch = [];
  gas_predict_last_sent_block = 10;
}

-- A gap is announced for block 11, whose prediction still waits in the channel.
run_gap :
    (gas_predict_result_send (prediction 12 0) waiting).gas_predict_ch
    ≡ prediction 11 0 ∷ gap 11 11 ∷ prediction 12 0 ∷ []
unfolding gas_predict_result_send enqueue send_latest
run_gap = refl

-- A service that fails for the requests above 0 and counts down.
abbrev service : Service ℕ ℕ ℕ
service = record {
  is_cancelled = λ w. (w, false);
  upload_fee_buckets = λ req w. elim w [ zero ↦ (zero, success) | suc n ↦ (n, upload_error n) ];
  wait_for_retry = λ w. (w, true);
}

run_upload : send_fee_bucket service 9 2 ≡ (0, none)
unfolding send_fee_bucket send_attempt last_err
run_upload = refl

send_fee_bucket-verdict_example :
    (send_fee_bucket service 9 2).1
    ≡ verdict (upload_error 1) (answers service (max_fee_bucket_attempts - 1) 9 1)
send_fee_bucket-verdict_example =
    send_fee_bucket-verdict service (record { alive = λ w. refl; waits = λ w. refl }) 9 2

retry-after_example : (retry (after 5)).0 ≡ 8000000000
retry-after_example = retry-after 5
