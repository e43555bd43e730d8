-- ===== src/Manifest.antt =====
-- The payroll run's manifest, packages/manifest/src: its settlement chunks.
pub mod Chunks
mod Tests
