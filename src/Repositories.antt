-- ===== src/Repositories.antt =====
-- adapters/database/repositories.py: commands, leases, events and projections over the tables of
-- adapters/database/schema.py.
pub mod Inbox
pub mod Leases
pub mod Fencing
pub mod Log
pub mod Manifests
