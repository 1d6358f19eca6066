-- ===== src/GasAnalyzer/Send.antt =====
-- `AnalyzeGasPrice` of internal/gasanalyzer/analyzer.go with the pool that it reads and the client that it
-- sends to. `UpdatedAt` is left out; `none` is a panic.
use eth_mon_svr.Base.{ℕ, List, Option, none, some, ◌>>=◌}
use eth_mon_svr.Base.TextMap.{TextMap}
use eth_mon_svr.Mempool.Types.{PendingMemPool}
use eth_mon_svr.Mempool.Snapshot.{snapshot}
use eth_mon_svr.GasAnalyzer.Float.{Float}
use eth_mon_svr.GasAnalyzer.Targets.{WeightedTip, GasLevel}
use eth_mon_svr.GasAnalyzer.Analyzer.{GasPrediction, Analyzer, entries_of, analyze_gas_price}
use eth_mon_svr.Network.GrpcClient.{GasPredictionClient, prediction, gas_predict_result_send}

-- `pb.GasPredictionRequest` but for the number of the block, which stands beside it in the message.
pub record GasPredictionRequest : Type 0 where
  pub next_base_fee : ℕ
  pub predict_result : TextMap GasLevel

-- A level is copied with its two fields; the map is made anew, also from nil.
unfoldable pub to_request : GasPrediction → GasPredictionRequest
to_request result = record {
  next_base_fee = result.next_base_fee;
  predict_result = entries_of result.predict_result;
}

module _ {G : Type 0} where
  unfoldable pub send_result_to_grpc :
      GasPrediction
      → GasPredictionClient GasPredictionRequest G
      → GasPredictionClient GasPredictionRequest G
  send_result_to_grpc result client =
      gas_predict_result_send (prediction result.next_block_number (to_request result)) client

  unfoldable pub send_if :
      Option GasPrediction
      → GasPredictionClient GasPredictionRequest G
      → GasPredictionClient GasPredictionRequest G
  send_if none client = client
  send_if (some result) client = send_result_to_grpc result client

  -- A round on the pool as it is.
  unfoldable pub run_round :
      {F : Type 0}
      → Float F
      → (List (WeightedTip F) → List (WeightedTip F))
      → PendingMemPool
      → Analyzer F
      → GasPredictionClient GasPredictionRequest G
      → Option (Analyzer F × GasPredictionClient GasPredictionRequest G)
  run_round fl sort pool a client = do
    done ← analyze_gas_price fl sort (snapshot pool) a
    some (done.0, send_if done.1 client)
