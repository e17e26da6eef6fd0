-- ===== src/Graph/Executor.antt =====
-- Library/Graph/graph_executor.h and graph_executor.cpp.
pub mod Step
pub mod Plan
pub mod Counters
pub mod Liveness
pub mod Dataflow
pub mod Body
pub mod Invariant
pub mod Preserve
pub mod Start
pub mod Restricted
pub mod Solve
pub mod Runs
pub mod Collect
pub mod Report
pub mod Progress
pub mod Incremental
pub mod Termination
