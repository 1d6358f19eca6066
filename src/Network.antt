-- ===== src/Network.antt =====
-- internal/network: the clients of the Ethereum nodes (rpcManager), the subscriptions (ingestion),
-- the client of the prediction service (grpcClient) and its access tokens (auth).
pub mod Auth
pub mod GrpcClient
pub mod Ingestion
pub mod RpcManager
