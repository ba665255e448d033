-- ===== src/Replay.antt =====
-- domain/replay.py: the deterministic replay of a fixture.
pub mod Event
pub mod Dataset
pub mod State
pub mod Encoding
pub mod Entry
pub mod Advance
pub mod Finish
pub mod Stages
pub mod Reach
pub mod Ledger
pub mod Inputs
pub mod Opening
pub mod Progress
pub mod Total
pub mod Settlement
