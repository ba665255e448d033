-- ===== src/States.antt =====
-- domain/states.py: the state machines of the program's aggregates.
pub mod StrEnum
pub mod Enums
pub mod Rules
pub mod Machine
pub mod History
pub mod Reach
pub mod Passages
