-- ===== src/Examples/Jobs.antt =====
-- Jobs of the worker on the invoice of the company.
use tax_ocr.Prelude.{
  ◌-◌, ◌*◌, ◌/◌, ltb, ◌≡◌, refl, true, false, runes, is_empty, ◌=ₜ◌, none, some, [], ◌∷◌,
}
use tax_ocr.Float.Fractions.{fractions, Fraction}
use tax_ocr.GoStrings.Case.{ascii}
use tax_ocr.Db.Types.{Numeric, Vendor, Invoice}
use tax_ocr.Db.Rows.{find}
use tax_ocr.Db.Monad.{ok, err, not_found, Tables, Store, statement, failing, later}
use tax_ocr.Db.Keys.{vendor_keyed, invoice_keyed}
use tax_ocr.Db.Listings.{newest_first}
use tax_ocr.Db.TenantStore.{tenant_keyed, branch_keyed}
use tax_ocr.Db.InvoiceStore.{find_duplicate_invoice}
use tax_ocr.Db.VendorStore.Laws.{StaysVerified}
use tax_ocr.Ocr.Types.{LineItem, InvoiceData}
use tax_ocr.Ocr.CrossVerify.{cross_verify}
use tax_ocr.Ocr.Service.{
  ExtractionResult, Engines, no_data, is_image, has_config, dual_extract, extract,
}
use tax_ocr.Queue.Buyer.{validate_buyer}
use tax_ocr.Queue.Job.{ProcessInvoicePayload, Worker}
use tax_ocr.Queue.Worker.{handle_process_invoice}
use tax_ocr.Queue.Worker.Steps.{WasRead, next}
use tax_ocr.Queue.Worker.Vendors.{handle_process_invoice_verified}
use tax_ocr.Queue.Worker.Refused.{Unread, handle_process_invoice_invalid, buyer_check}
use tax_ocr.Queue.Worker.Duplicates.{NothingAdded, handle_process_invoice_duplicate}
use tax_ocr.Queue.Worker.Others.{OnlyThis, handle_process_invoice-OnlyThis}
use tax_ocr.Examples.Rows.{company, head_office, receipt, one_invoice}

-- A purchase that was made by another company.
abbrev paper : LineItem (fractions.F)
paper = record {
  product_code = [];
  description = runes "paper";
  unit = [];
  quantity = fractions.lit 1 0;
  unit_price = fractions.lit 100 0;
  discount = fractions.lit 0 0;
  total_price = fractions.lit 100 0;
}

abbrev reading : InvoiceData (fractions.F)
reading = record (no_data fractions) {
  doc_type = "tax_invoice";
  vendor_tax_id = runes "0107537000000";
  invoice_doc_no = runes "IV-1";
  buyer_tax_id = runes "0999999999999";
  total_before_vat = fractions.lit 100 0;
  vat_amount = fractions.lit 7 0;
  total_amount = fractions.lit 107 0;
  items = paper ∷ [];
}

abbrev engines : Engines fractions
engines = record {
  extract_text = λ key bytes. some (runes "invoice");
  extract_from_image = λ key bytes content_type. none;
  extract_from_text = λ key text. none;
  extract_from_text_with_context = λ key text doc_type vat_inclusive vision. some reading;
  parse_invoice_from_text = λ text. reading;
  classify_from_text = λ text. ("tax_invoice", false);
}

abbrev in_ten_thousandths : Fraction → Numeric
in_ten_thousandths x = record {
  is_negative = ltb x.plus x.minus;
  ten_thousandths = (x.plus - x.minus) * 10000 / x.over;
}

abbrev worker : Worker fractions
worker = record {
  download = λ path. some (1 ∷ []);
  clients = record { gpt = some "key"; vision = some "key" };
  engines = engines;
  has_key = false;
  ask = λ text. none;
  has_reviewers = true;
  expire_minutes = 30;
  has_line = true;
  to_float = λ x. fractions.lit x.ten_thousandths 4;
  to_numeric = λ decimals x. in_ten_thousandths x;
}

abbrev payload : ProcessInvoicePayload
payload = record {
  invoice_id = "invoice";
  document_import_id = "";
  tenant_id = "tenant";
  branch_id = "branch";
  file_path = "a.jpg";
  content_type = "image/png";
}

abbrev extracted : ExtractionResult fractions
extracted = record {
  invoice_data = reading;
  matched = true;
  vat_math_ok = true;
  raw_text = runes "invoice";
  confidence = fractions.lit 95 2;
  engine = "dual";
}

abbrev store_of : Tables → Store
store_of tables = record {
  tables = tables;
  now = 100;
  uuid = λ n. "new";
  serial = 0;
  invoice_numbers = 2;
  faults = [];
  outbox = [];
}

was_read : WasRead fractions ascii worker payload extracted
unfolding extract has_config is_image dual_extract cross_verify is_empty ◌=ₜ◌
was_read = record { bytes = 1 ∷ []; downloaded = refl; extracted = refl }

abbrev vendor : Vendor
vendor = record {
  id = "vendor";
  tax_id = runes "0107537000000";
  name = runes "Paper Co";
  address = [];
  branch_code = [];
  branch_name = [];
  phone = [];
  verified = true;
  verified_by = "u";
  verified_at = some 5;
  created_at = 0;
  updated_at = 5;
}

abbrev with_vendor : Store
with_vendor = store_of (record one_invoice { vendors = vendor ∷ [] })

vendor_found : find "vendor" with_vendor.tables.vendors ≡ some vendor
unfolding find
vendor_found = refl

handle_process_invoice_verified_example :
    StaysVerified "vendor" vendor
      (handle_process_invoice fractions ascii worker (some payload) with_vendor).1.tables
handle_process_invoice_verified_example =
    handle_process_invoice_verified fractions ascii worker (some payload) with_vendor "vendor"
      vendor vendor_found refl

abbrev start : Store
start = record (store_of one_invoice) { faults = false ∷ false ∷ false ∷ true ∷ [] }

first_answers : failing start.faults ≡ false
unfolding failing
first_answers = refl

second_answers : failing (later start.faults) ≡ false
unfolding failing later
second_answers = refl

company_found : find "tenant" start.tables.tenants ≡ some company
unfolding find
company_found = refl

branch_found : find "branch" start.tables.branches ≡ some head_office
unfolding find
branch_found = refl

receipt_found : find "invoice" start.tables.invoices ≡ some receipt
unfolding find
receipt_found = refl

not_our_invoice :
    (buyer_check fractions ascii worker payload extracted company head_office).0 ≡ "invalid"
unfolding validate_buyer ◌=ₜ◌ is_empty
not_our_invoice = refl

no_duplicate :
    (find_duplicate_invoice "tenant" reading.vendor_tax_id reading.invoice_doc_no "invoice"
      (next (next start))).0
    ≡ err not_found
unfolding later failing find_duplicate_invoice statement newest_first is_empty ◌=ₜ◌
no_duplicate = refl

handle_process_invoice_invalid_example :
    Unread "invoice" receipt
      (handle_process_invoice fractions ascii worker (some payload) start).1.tables
handle_process_invoice_invalid_example =
    handle_process_invoice_invalid fractions ascii worker payload extracted start company
      head_office receipt was_read first_answers second_answers company_found branch_found
      not_our_invoice no_duplicate receipt_found

abbrev earlier : Invoice
earlier = record receipt {
  id = "earlier";
  vendor_tax_id = runes "0107537000000";
  invoice_doc_no = runes "IV-1";
  status = "verified";
}

abbrev with_earlier : Store
with_earlier = record (store_of (record one_invoice { invoices = earlier ∷ receipt ∷ [] })) {
  faults = false ∷ false ∷ false ∷ true ∷ [];
}

duplicate_found :
    (find_duplicate_invoice "tenant" reading.vendor_tax_id reading.invoice_doc_no "invoice"
      (next (next with_earlier))).0
    ≡ ok earlier
unfolding later failing find_duplicate_invoice statement newest_first is_empty ◌=ₜ◌
duplicate_found = refl

handle_process_invoice_duplicate_example :
    NothingAdded with_earlier.tables
      (handle_process_invoice fractions ascii worker (some payload) with_earlier).1.tables
handle_process_invoice_duplicate_example =
    handle_process_invoice_duplicate fractions ascii worker payload extracted with_earlier earlier
      was_read first_answers second_answers duplicate_found

handle_process_invoice-OnlyThis_example :
    OnlyThis "invoice" with_earlier.tables
      (handle_process_invoice fractions ascii worker (some payload) with_earlier).1.tables
handle_process_invoice-OnlyThis_example =
    handle_process_invoice-OnlyThis fractions ascii worker payload with_earlier
