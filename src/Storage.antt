-- ===== src/Storage.antt =====
-- src/storage and src/catalog: typed columns, tables of them, the catalog and its file.
pub mod Bitmap
pub mod Column
pub mod Table
pub mod Catalog
pub mod Persistence
pub mod Csv
