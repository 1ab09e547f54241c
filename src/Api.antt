-- ===== src/Api.antt =====
-- backend/internal/api: the parts of the HTTP layer that are not plain glue.
pub mod Audit
pub mod RateLimiter
pub mod ReviewerHandlers
pub mod Auth
pub mod Router
pub mod Uploads
pub mod InvoiceHandlers
pub mod RulesHandlers
