-- ===== src/Paths.antt =====
-- app/s3/paths.py over `posixpath`.
pub mod Posix
pub mod Segments
pub mod Normal
pub mod Resolve
pub mod Confined
