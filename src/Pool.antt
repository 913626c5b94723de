-- ===== src/Pool.antt =====
-- pool.go: the task pool, which admits tasks up to its limits, queues the rest, displaces queued
-- tasks for new ones, and hands freed slots to the queues.
pub mod Types
pub mod Queue
pub mod Manager
pub mod Acquire
pub mod Release
pub mod Control
pub mod Expiry
pub mod Resize
pub mod Allows
pub mod Limits
pub mod Fits
pub mod Bounds
pub mod Steps
pub mod Drain
pub mod Total
pub mod Slots
pub mod Displacement
pub mod Victims
pub mod Shrink
