-- ===== src/Tests.antt =====
-- Runs of the modelled code, and the theorems at concrete inputs.
pub mod Requests
pub mod Authentication
pub mod Locking
pub mod Names
pub mod Bodies
pub mod Buckets
pub mod Uploads
pub mod Transactions
pub mod Parts
pub mod Blobs
pub mod Atomic
pub mod Completions
