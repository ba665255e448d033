-- ===== src/Lib.antt =====
-- The domain core of sopara, a historical research and simulation platform for NES execution on ES
-- signals, with the stores and repositories that keep its evidence. This library models the Python
-- package src/sopara/domain, and of src/sopara/adapters and src/sopara/api the object store, the
-- repositories, the event stream and the serialization of events, and proves what these parts promise
-- to one another.
--
-- Parts, and where each is modelled:
--   src/sopara/domain/replay.py: Replay. Replay/Event, Replay/Dataset and Replay/State hold ReplayEvent,
--     ReplayDataset, ReplayConfiguration and ReplayState with their __post_init__ checks; Replay/Encoding
--     the canonical objects their hashes are taken of; Replay/Entry and Replay/Advance are
--     advance_replay, Replay/Finish is finish_replay. The mappings in the decisions, orders, fills and
--     positions of a state are records with the keys of the mappings. Replay/Stages, Replay/Reach,
--     Replay/Ledger, Replay/Inputs, Replay/Opening, Replay/Progress, Replay/Total and Replay/Settlement
--     hold the proofs.
--   src/sopara/domain/decisions.py: Decisions. evaluate_eligibility runs a list of fifteen gates, each
--     a check that may raise with the outcome of a decision that ends at it.
--   src/sopara/domain/states.py: States. One enumeration (States/Enums) and one table (States/Rules) for
--     each state machine; transition and fold_transitions are in States/Machine.
--   src/sopara/domain/execution.py: Execution. src/sopara/domain/instruments.py: Instruments.
--   src/sopara/domain/market.py: Market. src/sopara/domain/calendar.py: Calendar.
--   src/sopara/domain/qualification.py: Qualification. src/sopara/domain/research.py: Research.
--   src/sopara/domain/events.py: Events. src/sopara/domain/evidence.py: Evidence.
--   src/sopara/domain/versions.py: Versions. src/sopara/domain/canonical.py: Canonical.
--   src/sopara/adapters/evidence/stores.py: Stores, the store in memory over the interface ObjectStore of
--     src/sopara/application/ports.py, whose laws are the record IsObjectStore of Stores/Laws.
--   src/sopara/adapters/evidence/reconciliation.py: Stores/Reconciliation, over any object store.
--   src/sopara/adapters/database/repositories.py: Repositories. Inbox is CommandRepository, Leases and
--     Fencing LeaseRepository, Log EventRepository, Manifests EvidenceRepository.
--   src/sopara/adapters/database/historical.py: Runs. Runs/Repository, Runs/Outcomes and Runs/Catalog
--     hold the methods of HistoricalRepository, Runs/Records the inserts and
--     src/sopara/application/identities.py; the other children hold the proofs.
--   src/sopara/adapters/replay/serialization.py: Serialization, over pyarrow as a parameter;
--     seal_replay_events of src/sopara/adapters/replay/artifacts.py is Serialization/Artifacts.
--   src/sopara/api/sse.py and stream_window of src/sopara/api/database.py: Streams.
--   src/sopara/domain/reason_codes.py: ReasonCodes. src/sopara/domain/errors.py: Errors.
--
-- How they interact: advance_replay turns a trade into a proposal, has evaluate_eligibility run its
-- gates on it against a book of the market module, asks the execution module for an order, which only
-- an accepting decision gives, and records order, fill and position under hashes of canonical objects.
-- finish_replay closes the position on the last book with the arithmetic of the instruments module and
-- the P&L of the execution module. Events and research records refer to the state machines. An event is
-- appended to the log under a lease's token and put in the outbox, which the stream reads. An object
-- that a store has written is recorded, and reconciliation compares the records with the store.
--
-- Conventions. A constructor with a check is a record and a function check_... that returns the record
-- or the error that __post_init__ raises; a function that may raise returns a Result. Python's integers
-- are the signed integers of Prelude/Int over the native numbers. A date is its year, month and day,
-- compared by its ordinal; a time of day is its microseconds. A StrEnum is a data type with the table
-- of its texts. Prelude holds what the parts share; Examples holds the runs at concrete inputs.
--
-- Storage. A table is a list of rows, the newest first, and its keys and checks are tests that an insert
-- makes; a method takes the tables and gives the next ones, or an error, which rolls its transaction
-- back. What PostgreSQL does at `ON CONFLICT`, at a key and at a check is written out; calls are one
-- after the other, as the row locks and the advisory lock of the code have them. UUIDs are texts, bytes
-- are lists of numbers, the database's clock is an argument, and an identity value taken by an insert
-- that is rolled back is free again, where PostgreSQL leaves a gap. What a stream meets (times, and what
-- the repository gives) is a list of rounds.
--
-- Bounds. A decimal is an integer over a power of ten. Its arithmetic is Python's under the default
-- context: sums, differences, products and quotients are rounded half-even to 28 digits, and `%` raises
-- InvalidOperation where the whole quotient has more; a theorem that needs exact results says which
-- numbers must have at most 28 digits. The sign of a zero is not kept, and a rounded number keeps its
-- exponent and ends in zeros. Dates end with the year 9999, and an instant beyond it is the
-- OverflowError of the calendar. The digits of a number are printed, and counted, with as many rounds as
-- its value, which is more than it has digits. The index of a replay state is a natural number, since a
-- checked event has no negative index. Every loop is a recursion on a list.
--
-- Parameters. hashlib.sha256 is a function on texts, or on bytes in the object store; where a theorem
-- needs it, its hypothesis IsDigest says that a digest is sixty-four lower-case hexadecimal digits. The
-- checksum of an object and the constructor UUID are functions of which nothing is assumed. pyarrow is
-- the record Parquet, and IsParquet says that it reads back the rows it wrote, and writes those that
-- fit the schema.
--
-- Not modelled: the text of the amounts in the result of a replay (they are kept as amounts);
-- src/sopara/application/historical.py (the run loop); of src/sopara/adapters/replay the parsing of
-- fixtures and states and the sealing of manifests and results; the object stores in files and in
-- Google Cloud Storage, the bytes of the stream's frames, the source ranges and server times of the
-- tables; src/sopara/api but for the stream and src/sopara/cli.py, which are transport and printing;
-- migrations, scripts, web and infra.
pub mod Prelude
pub mod Errors
pub mod ReasonCodes
pub mod States
pub mod Instruments
pub mod Versions
pub mod Evidence
pub mod Canonical
pub mod Market
pub mod Calendar
pub mod Qualification
pub mod Research
pub mod Events
pub mod Decisions
pub mod Execution
pub mod Replay
pub mod Stores
pub mod Repositories
pub mod Runs
pub mod Streams
pub mod Serialization
pub mod Examples
