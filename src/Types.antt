-- ===== src/Types.antt =====
-- include/litequery/types.h: the type system that every layer of the engine uses.
pub mod TypeId
pub mod DataType
pub mod Floats
pub mod Value
pub mod Schema
pub mod Batch
