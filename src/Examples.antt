-- ===== src/Examples.antt =====
-- The theorems at concrete inputs.
pub mod Replays
pub mod Histories
pub mod Prices
pub mod Streams
pub mod Objects
pub mod Deliveries
pub mod Logs
pub mod Checkpoints
pub mod Payloads
pub mod Gatekeeping
