-- ===== src/Storage/Persistence.antt =====
-- src/storage/persistence.cpp: the file of a database. A file is the list of its bytes; opening it and
-- the errors of writing are the file system's.
pub mod Reader
pub mod Codec
pub mod Cuts
pub mod Files
pub mod RoundTrip
pub mod Database
pub mod Truncation
