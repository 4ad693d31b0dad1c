-- ===== src/Uploads.antt =====
-- app/services/multipart_*.py: the services of the multipart uploads, over the rows and the files.
pub mod Part
pub mod Create
pub mod Etag
pub mod Complete
pub mod Abort
pub mod Selected
pub mod AbortedRows
pub mod Atomic
pub mod Completed
pub mod CompletedAtomic
pub mod CompletedService
pub mod PartRecovery
pub mod PartStored
pub mod PartTransaction
pub mod PartService
