-- ===== src/EventStore.antt =====
-- wbcz/event_store.py: the store of imported events, their checks, and the documents made for them.
-- `Tables` has the schema and the statements, `Import`, `Checks` and `Documents` the methods; the
-- other modules hold the proofs.
pub mod Tables
pub mod Import
pub mod Checks
pub mod Documents
pub mod Calls
pub mod Keeps
pub mod Serves
pub mod Frozen
pub mod Counts
pub mod Reports
mod Tests
