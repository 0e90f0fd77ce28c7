-- ===== src/TestLab.antt =====
-- The Test Lab's reading of a /v1/check response: src/app/test_lab/domain/test_lab_check.ts.
pub mod Wire
pub mod Stages
pub mod Reasons
pub mod Layers
pub mod Attribution
pub mod CausalSpans
pub mod Bypass
pub mod Parse
pub mod Runs
pub mod Tests
