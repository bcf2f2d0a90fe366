-- ===== src/Metadata.antt =====
-- Local metadata in AppleDouble files (daemon/metadata.c): the names and kinds of metadata, the file
-- that lists the extended attributes of a file, and the operations on them.
pub mod Name
pub mod Items
pub mod Store
pub mod Sidecar
mod Tests
