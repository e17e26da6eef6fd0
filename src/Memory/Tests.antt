-- ===== src/Memory/Tests.antt =====
-- Concrete inputs for the theorems about Library/Memory.
mod Blocks
mod Records
mod Deallocating
