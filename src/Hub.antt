-- ===== src/Hub.antt =====
-- hub.go: the orchestrator of tasks, clients and the pool.
pub mod Types
pub mod Clients
pub mod Launch
pub mod Start
pub mod Exit
pub mod Requests
pub mod Window
pub mod Lifecycle
pub mod Delay
pub mod Admission
pub mod Reserved
pub mod Keyed
pub mod Shutdown
pub mod Queries
pub mod Dispatch
pub mod Processes
pub mod Steps
pub mod Counts
pub mod Once
pub mod Routing
pub mod Replays
pub mod Broken
