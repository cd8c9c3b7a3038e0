-- ===== src/Correlate.antt =====
-- internal/correlate: joins process events with denial logs into runs. `State` is the correlator
-- object, `Sink` its database, and the operations are in the modules below, each an action.
pub mod Keeps
pub mod Calls
pub mod Frames
pub mod Ledger
pub mod Newest
pub mod Sink
pub mod State
pub mod Images
pub mod Events
pub mod Denials
pub mod Finalize
pub mod Ticks
pub mod ProfileFile
