-- ===== src/Db/Types.antt =====
-- backend/internal/db/store.go: the row types. Strings that the program only compares with
-- constants or passes on are `String`, those that it walks through are `Text`. A time is the
-- number of seconds since 1970. The amounts that the database adds up are NUMERIC columns with
-- two decimals: they are kept in satang.
use tax_ocr.Prelude.{ℕ, String, Bool, Option, Text}

pub record Tenant : Type 0 where
  pub id : String
  pub name : Text
  pub tax_id : Text
  pub address : Text
  pub status : String
  pub business_type : String
  pub suspended_at : Option ℕ
  pub suspension_reason : String
  pub deleted_at : Option ℕ
  pub created_at : ℕ
  pub updated_at : ℕ

pub record Branch : Type 0 where
  pub id : String
  pub tenant_id : String
  pub name : Text
  pub code : Text
  pub address : Text
  pub phone : Text
  pub status : String
  pub created_at : ℕ
  pub updated_at : ℕ

pub record HitlQueueItem : Type 0 where
  pub id : String
  pub tenant_id : String
  pub invoice_item_id : String
  pub reason : String
  pub status : String
  pub resolved_by : String
  pub created_at : ℕ
  pub updated_at : ℕ

pub record Reviewer : Type 0 where
  pub id : String
  pub name : String
  pub line_user_id : String
  pub reviewer_type : String
  pub status : String
  pub total_earned : ℕ
  pub pending_payout : ℕ
  pub created_at : ℕ
  pub updated_at : ℕ

pub record ReviewerTask : Type 0 where
  pub id : String
  pub hitl_queue_id : String
  pub reviewer_id : String
  pub task_type : String
  pub status : String
  pub reward_amount : ℕ
  pub sent_at : ℕ
  pub accepted_at : Option ℕ
  pub completed_at : Option ℕ
  pub expired_at : Option ℕ
  pub created_at : ℕ
  pub updated_at : ℕ

pub record RewardConfig : Type 0 where
  pub id : String
  pub task_type : String
  pub amount : ℕ
  pub currency : String
  pub updated_by : String
  pub created_at : ℕ
  pub updated_at : ℕ

pub record Numeric : Type 0 where
  pub is_negative : Bool
  pub ten_thousandths : ℕ

pub record User : Type 0 where
  pub id : String
  pub tenant_id : String
  pub name : String
  pub email : String
  pub phone : String
  pub line_user_id : String
  pub role : String
  pub status : String
  pub password_hash : String
  pub created_at : ℕ
  pub updated_at : ℕ

pub record DocumentImport : Type 0 where
  pub id : String
  pub tenant_id : String
  pub branch_id : String
  pub user_id : String
  pub source_type : String
  pub source_url : String
  pub total_files : ℕ
  pub processed_files : ℕ
  pub status : String
  pub created_at : ℕ
  pub updated_at : ℕ

pub record Invoice : Type 0 where
  pub id : String
  pub invoice_no : ℕ
  pub tenant_id : String
  pub branch_id : String
  pub document_import_id : String
  pub file_path : String
  pub file_hash : String
  pub doc_type : String
  pub vat_inclusive : Bool
  pub vat_rate : Numeric
  pub vendor_name : Text
  pub vendor_tax_id : Text
  pub vendor_address : Text
  pub vendor_branch_code : Text
  pub buyer_name : Text
  pub buyer_tax_id : Text
  pub buyer_address : Text
  pub buyer_branch_code : Text
  pub invoice_doc_no : Text
  pub invoice_date : Text
  pub invoice_year : ℕ
  pub invoice_month : ℕ
  pub invoice_day : ℕ
  pub accounting_year : ℕ
  pub accounting_month : ℕ
  pub vendor_id : String
  pub duplicate_of : String
  pub vat_exempt_amount : Numeric
  pub vat_inclusive_subtotal : Numeric
  pub discount_amount : Numeric
  pub total_before_vat : Numeric
  pub vat_amount : Numeric
  pub total_amount : Numeric
  pub vat_math_ok : Bool
  pub status : String
  pub invalid_reason : String
  pub verified_by : String
  pub verified_at : Option ℕ
  pub created_at : ℕ
  pub updated_at : ℕ

pub record Vendor : Type 0 where
  pub id : String
  pub tax_id : Text
  pub name : Text
  pub address : Text
  pub branch_code : Text
  pub branch_name : Text
  pub phone : Text
  pub verified : Bool
  pub verified_by : String
  pub verified_at : Option ℕ
  pub created_at : ℕ
  pub updated_at : ℕ

pub record InvoiceItem : Type 0 where
  pub id : String
  pub tenant_id : String
  pub branch_id : String
  pub invoice_id : String
  pub product_code : Text
  pub description : Text
  pub unit : Text
  pub quantity : Numeric
  pub unit_price : Numeric
  pub discount : Numeric
  pub total_price : Numeric
  pub asset_type : String
  pub classified_by : String
  pub created_at : ℕ
  pub updated_at : ℕ

-- The confidence is a NUMERIC(5, 4).
pub record ClassificationRule : Type 0 where
  pub id : String
  pub tenant_id : String
  pub keyword : Text
  pub asset_type : String
  pub source : String
  pub confidence : Numeric
  pub created_at : ℕ
  pub updated_at : ℕ
