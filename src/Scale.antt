-- ===== src/Scale.antt =====
-- The scale benchmark: the gate of web/src/lib/scale-gate.ts.
pub mod Gate
pub mod Rank
pub mod Decision
mod Tests
