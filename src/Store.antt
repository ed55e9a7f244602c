-- ===== src/Store.antt =====
-- batchflow/coordinator/store.py: the coordinator's in-memory state. `State` holds the records; the
-- methods of `CoordinatorStore` stand in `Jobs`, `Metrics`, `Plans`, `Tasks` and `Payloads`; what is proved
-- of them stands in the other children. A method holds the store's lock from its first line to its
-- last, so a run of several threads is a sequence of whole methods. The clock is read once a method.
pub mod State
pub mod Jobs
pub mod Metrics
pub mod Plans
pub mod Tasks
pub mod Payloads
pub mod Calls
mod Frame
pub mod Pins
pub mod Live
pub mod Index
pub mod Progress
pub mod Windows
pub mod Completion
