-- ===== src/Streams.antt =====
-- app/streams.py: the readers over the body of an upload.
pub mod Body
pub mod Hex
pub mod Chunked
pub mod Build
