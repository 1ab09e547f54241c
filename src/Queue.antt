-- ===== src/Queue.antt =====
-- backend/internal/queue: the worker that processes an uploaded invoice.
pub mod Similarity
pub mod BranchCode
pub mod Buyer
pub mod Dates
pub mod Late
pub mod Job
pub mod Lines
pub mod Notify
pub mod Worker
