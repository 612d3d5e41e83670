-- ===== src/Tests.antt =====
-- Runs of the engine's code at concrete inputs.
pub mod Samples
pub mod Expressions
pub mod Rows
pub mod Operators
pub mod Storage
pub mod Plans
pub mod Files
pub mod Texts
