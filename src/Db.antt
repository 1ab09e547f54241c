-- ===== src/Db.antt =====
-- backend/internal/db: the rows of the database and the operations of the store on them.
pub mod Types
pub mod Rows
pub mod Keys
pub mod Monad
pub mod ReviewerStore
pub mod HitlStore
pub mod RewardStore
pub mod TenantStore
pub mod Listings
pub mod UserStore
pub mod ImportStore
pub mod VendorStore
pub mod RulesStore
pub mod InvoiceStore
pub mod Migrate
