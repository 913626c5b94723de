-- ===== src/Tests.antt =====
-- Instances of the theorems at concrete values, and runs of the model.
mod PoolData
mod PoolLimits
mod PoolQueues
mod HubData
mod HubRuns
mod ExecRuns
mod PoolDrains
mod HubSteps
mod HubLines
mod ServerRuns
mod WireRuns
