-- ===== src/WritePipeline.antt =====
-- wbcz/write_pipeline.py: from an approved decision to a document that the marking system has
-- processed. `Types` has the states and records, `Schema` the two tables, `Store` the methods of
-- the durable store, `Adapter` the calls of the remote service, `Pipeline` the flow over them; the
-- other modules hold the proofs.
pub mod Types
pub mod Schema
pub mod States
pub mod Transition
pub mod Prepare
pub mod Store
pub mod Adapter
pub mod Pipeline
pub mod Steps
pub mod Follows
pub mod Methods
pub mod Opening
pub mod Ranks
pub mod Reserved
pub mod Trail
pub mod Rows
pub mod Flow
pub mod AtMostOnce
pub mod Again
pub mod Runs
pub mod Returns
mod Tests
