-- ===== src/Turnover.antt =====
-- wbcz/turnover.py: the operations of turnover, from the typed document to the reconciliation.
-- `Fields` has the checks of single values, `Parts`, `Introductions`, `Withdrawals` and `Others` the
-- documents, `Operations` their registry, `Snapshots` and `Preconditions` the checks of codes before
-- an operation, `Reconciliation` those after it. The others hold proofs.
pub mod Fields
pub mod Parts
pub mod Introductions
pub mod Withdrawals
pub mod Others
pub mod Operations
pub mod Documents
pub mod Rules
pub mod Returns
pub mod Snapshots
pub mod Preconditions
pub mod Admitted
pub mod Reconciliation
pub mod Reconciled
mod Sample
mod Tests
mod DocumentTests
