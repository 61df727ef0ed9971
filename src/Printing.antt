-- ===== src/Printing.antt =====
-- wbcz/physical_printing.py: the part of the agent that prints a label once. `Contracts` has the
-- records and exceptions, `Replay` the durable store, `Raster` and `Spooler` the spooling of a raster,
-- `Display` the displayed values, `Agent` the calls, `Execution` the flow. The others hold proofs.
pub mod Contracts
pub mod Replay
pub mod Raster
pub mod Spooler
pub mod Agent
pub mod Display
pub mod Execution
pub mod Ranks
pub mod Calm
pub mod Parts
pub mod Once
pub mod Reports
mod Tests
