-- ===== src/Core.antt =====
-- crates/heimwatch-core: the shared metric types.
pub mod Metrics
pub mod Floats
pub mod Text
pub mod Files
