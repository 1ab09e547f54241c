-- ===== src/Examples/Rows.antt =====
-- Rows that the examples share: a company with a branch and a user, one invoice with one line.
use tax_ocr.Prelude.{runes, false, true, none, [], ◌∷◌}
use tax_ocr.Db.Types.{Tenant, Branch, User, Numeric, Invoice, InvoiceItem}
use tax_ocr.Db.Monad.{Tables, no_rows}

abbrev pub company : Tenant
company = record {
  id = "tenant";
  name = runes "Somchai Co";
  tax_id = runes "0105551234567";
  address = [];
  status = "active";
  business_type = "service";
  suspended_at = none;
  suspension_reason = "";
  deleted_at = none;
  created_at = 0;
  updated_at = 0;
}

abbrev pub head_office : Branch
head_office = record {
  id = "branch";
  tenant_id = "tenant";
  name = runes "Head office";
  code = runes "00000";
  address = [];
  phone = [];
  status = "active";
  created_at = 0;
  updated_at = 0;
}

abbrev pub clerk : User
clerk = record {
  id = "u";
  tenant_id = "tenant";
  name = "Nok";
  email = "nok@example.com";
  phone = "";
  line_user_id = "line-u";
  role = "admin";
  status = "active";
  password_hash = "hash";
  created_at = 0;
  updated_at = 0;
}

abbrev pub no_amount : Numeric
no_amount = record { is_negative = false; ten_thousandths = 0 }

abbrev pub receipt : Invoice
receipt = record {
  id = "invoice";
  invoice_no = 1;
  tenant_id = "tenant";
  branch_id = "branch";
  document_import_id = "";
  file_path = "a.jpg";
  file_hash = "";
  doc_type = "tax_invoice";
  vat_inclusive = false;
  vat_rate = no_amount;
  vendor_name = [];
  vendor_tax_id = [];
  vendor_address = [];
  vendor_branch_code = [];
  buyer_name = [];
  buyer_tax_id = [];
  buyer_address = [];
  buyer_branch_code = [];
  invoice_doc_no = [];
  invoice_date = [];
  invoice_year = 0;
  invoice_month = 0;
  invoice_day = 0;
  accounting_year = 2026;
  accounting_month = 1;
  vendor_id = "";
  duplicate_of = "";
  vat_exempt_amount = no_amount;
  vat_inclusive_subtotal = no_amount;
  discount_amount = no_amount;
  total_before_vat = no_amount;
  vat_amount = no_amount;
  total_amount = no_amount;
  vat_math_ok = true;
  status = "pending";
  invalid_reason = "";
  verified_by = "";
  verified_at = none;
  created_at = 0;
  updated_at = 0;
}

abbrev pub line : InvoiceItem
line = record {
  id = "item";
  tenant_id = "tenant";
  branch_id = "branch";
  invoice_id = "invoice";
  product_code = [];
  description = runes "paper";
  unit = [];
  quantity = no_amount;
  unit_price = no_amount;
  discount = no_amount;
  total_price = no_amount;
  asset_type = "expense";
  classified_by = "rule";
  created_at = 0;
  updated_at = 0;
}

abbrev pub one_invoice : Tables
one_invoice = record no_rows {
  tenants = company ∷ [];
  branches = head_office ∷ [];
  users = clerk ∷ [];
  invoices = receipt ∷ [];
  invoice_items = line ∷ [];
}
