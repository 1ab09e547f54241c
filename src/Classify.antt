-- ===== src/Classify.antt =====
-- backend/internal/classify: whether a line item is an asset or an expense.
pub mod Keywords
pub mod Service
pub mod Learning
