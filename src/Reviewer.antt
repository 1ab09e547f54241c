-- ===== src/Reviewer.antt =====
-- backend/internal/reviewer: the assignment of review tasks, and histories of the whole.
pub mod Service
pub mod History
