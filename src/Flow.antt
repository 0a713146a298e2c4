-- ===== src/Flow.antt =====
-- The per-flow scheduler of src/core/flow/flow_table.c.
pub mod Swrr
pub mod Table
mod Tests
