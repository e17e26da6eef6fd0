-- ===== src/Graph.antt =====
-- Library/Graph: task graphs that are built, frozen, analysed and executed.
pub mod Types
pub mod Dependency
pub mod Builder
pub mod Passes
pub mod Executor
pub mod Tests
