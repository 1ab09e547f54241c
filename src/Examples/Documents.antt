-- ===== src/Examples/Documents.antt =====
-- An invoice of a tenant, its dates, its classification and its extraction.
use tax_ocr.Prelude.{
  if◌then◌else◌, ◌=ₛ◌, ◌&&◌, ◌^◌, ◌<◌, ◌≤◌, ◌-◌, max, ◌≡◌, ◌↔◌, refl, true, false, runes, is_empty,
  length, none, some, [], ◌∷◌, arith, ◌⊎◌,
}
use tax_ocr.Float.Fractions.{fractions, fractions-IsIeee}
use tax_ocr.GoStrings.{trim_space, is_digit, contains, has_prefix}
use tax_ocr.GoStrings.Case.{ascii, ascii-IsUnicode}
use tax_ocr.Db.Types.{Tenant, Branch}
use tax_ocr.Ocr.Types.{InvoiceData}
use tax_ocr.Ocr.CrossVerify.{cross_verify, zero_amount}
use tax_ocr.Ocr.CrossVerify.Laws.{
  Consistent, Near, cross_verify-matched_iff, cross_verify_same_reading,
}
use tax_ocr.Ocr.Service.{
  Clients, ExtractionRequest, ExtractionResult, Engines, no_data, is_image, extract,
}
use tax_ocr.Ocr.Service.Laws.{AddsUp, extract_without_vision}
use tax_ocr.Queue.Similarity.{levenshtein, string_similarity}
use tax_ocr.Queue.Similarity.Script.{Script, edits}
use tax_ocr.Queue.Similarity.Laws.{
  backwards, differs, levenshtein_least, levenshtein_metric, string_similarity-lt,
}
use tax_ocr.Queue.BranchCode.{atoi, is_short_number, normalize_branch_code}
use tax_ocr.Queue.BranchCode.Laws.{normalize_same_number, normalize-normalize}
use tax_ocr.Queue.Buyer.{no_complaint, validate_buyer}
use tax_ocr.Queue.Buyer.Laws.{IsTaxInvoice, BuyerMatches, validate_buyer_iff}
use tax_ocr.Queue.Dates.{is_separator, common_era, parse_invoice_date}
use tax_ocr.Queue.Dates.Laws.{day_first, year_first, parse_invoice_date_numeric}
use tax_ocr.Classify.Keywords.{
  first_mentioned, asset_keywords, expense_keywords, mentions, classify_by_keywords,
}
use tax_ocr.Classify.Keywords.Laws.{Mentioned, classify_by_keywords_lem, repair_asset}
use tax_ocr.Classify.Service.{
  ClassificationRule, ClassificationInput, Reply, list_rules, first_rule, classify_with_db,
}
use tax_ocr.Classify.Service.Laws.{classify_with_db-learned}

abbrev tenant : Tenant
tenant = record {
  id = "t";
  name = runes "Somchai Co";
  tax_id = runes "0105551234567";
  address = [];
  status = "active";
  business_type = "service";
  suspended_at = none;
  suspension_reason = "";
  deleted_at = none;
  created_at = 0;
  updated_at = 0;
}

abbrev branch : Branch
branch = record {
  id = "b";
  tenant_id = "t";
  name = runes "Main";
  code = runes "1";
  address = [];
  phone = [];
  status = "active";
  created_at = 0;
  updated_at = 0;
}

name_is_short : length (trim_space (runes "Somchai Co.")) < 2 ^ 40
unfolding trim_space is_empty
name_is_short = omega arith

tenant_is_short : length (trim_space tenant.name) < 2 ^ 40
unfolding trim_space is_empty
tenant_is_short = omega arith

validate_buyer_iff_example :
    (validate_buyer fractions ascii "tax_invoice"
        (runes "0105551234567")
        (runes " 00001")
        (runes "Somchai Co.")
        tenant
        branch
      ≡ no_complaint)
    ↔ ((¬ IsTaxInvoice "tax_invoice")
        ⊎ BuyerMatches ascii
            (runes "0105551234567")
            (runes " 00001")
            (runes "Somchai Co.")
            tenant
            branch)
validate_buyer_iff_example =
    validate_buyer_iff fractions ascii fractions-IsIeee (runes "0105551234567") (runes " 00001")
      (runes "Somchai Co.") tenant branch name_is_short tenant_is_short "tax_invoice"

-- 1000.00 + 70.00 = 1070.00
abbrev reading : InvoiceData (fractions.F)
reading = record (no_data fractions) {
  doc_type = "tax_invoice";
  vendor_tax_id = runes "0105551234567";
  total_before_vat = fractions.lit 1000 0;
  vat_amount = fractions.lit 70 0;
  total_amount = fractions.lit 1070 0;
}

cross_verify-matched_iff_example :
    ((cross_verify fractions reading reading).matched ≡ true) ↔ Consistent fractions reading reading
cross_verify-matched_iff_example =
    cross_verify-matched_iff fractions fractions-IsIeee reading reading

cross_verify_same_reading_example : ((cross_verify fractions reading reading).matched ≡ true) ↔ (
    (fractions.lt (zero_amount fractions) reading.total_before_vat ≡ false)
    ⊎ (fractions.lt (zero_amount fractions) reading.total_amount ≡ false)
    ⊎ Near fractions
        (fractions.add reading.total_before_vat reading.vat_amount)
        reading.total_amount)
cross_verify_same_reading_example =
    cross_verify_same_reading fractions fractions-IsIeee reading reading refl refl refl tt tt

abbrev engines : Engines fractions
engines = record {
  extract_text = λ key bytes. some (runes "invoice");
  extract_from_image = λ key bytes content_type. none;
  extract_from_text = λ key text. none;
  extract_from_text_with_context = λ key text doc_type vat_inclusive vision. some reading;
  parse_invoice_from_text = λ text. reading;
  classify_from_text = λ text. ("tax_invoice", false);
}

abbrev clients : Clients
clients = record { gpt = some "key"; vision = some "key" }

abbrev request : ExtractionRequest
request = record { file_bytes = 1 ∷ []; content_type = "image/png" }

abbrev extracted : ExtractionResult fractions
extracted = record {
  invoice_data = reading;
  matched = true;
  vat_math_ok = true;
  raw_text = runes "invoice";
  confidence = fractions.lit 95 2;
  engine = "dual";
}

abbrev image_engines : Engines fractions
image_engines = record engines { extract_from_image = λ key bytes content_type. some reading }

abbrev gpt_only : Clients
gpt_only = record { gpt = some "key"; vision = none }

is_png : is_image "image/png" ≡ true
unfolding is_image
is_png = refl

has_bytes : is_empty request.file_bytes ≡ false
unfolding is_empty
has_bytes = refl

extract_without_vision_example :
    (r : ExtractionResult fractions) × (extract fractions image_engines gpt_only request ≡ some r)
    × (r.invoice_data ≡ reading)
    × (r.raw_text ≡ [])
    × ((r.matched ≡ true) ↔ AddsUp fractions fractions-IsIeee image_engines reading)
    × (r.confidence ≡ (if r.matched then fractions.lit 95 2 else fractions.lit 6 1))
extract_without_vision_example =
    extract_without_vision fractions fractions-IsIeee image_engines gpt_only request "key" reading
      refl refl is_png has_bytes refl

levenshtein_least_example :
    ((s : Script (backwards (runes "kitten")) (backwards (runes "sitting")))
      → levenshtein (runes "kitten") (runes "sitting") ≤ edits s)
    × ((s : Script (backwards (runes "kitten")) (backwards (runes "sitting"))) × (edits s
          ≡ levenshtein (runes "kitten") (runes "sitting")))
levenshtein_least_example = levenshtein_least (runes "kitten") (runes "sitting")

levenshtein_metric_example :
    (levenshtein (runes "kitten") (runes "sit") ≡ levenshtein (runes "sit") (runes "kitten"))
    × ((levenshtein (runes "kitten") (runes "sit") ≡ 0) ↔ (runes "kitten" ≡ runes "sit"))
    × (levenshtein (runes "kitten") (runes "sit")
        ≤ max (length (runes "kitten")) (length (runes "sit")))
    × (length (runes "kitten") - length (runes "sit") ≤ levenshtein (runes "kitten") (runes "sit"))
levenshtein_metric_example = levenshtein_metric (runes "kitten") (runes "sit")

string_similarity-lt_example :
    fractions.lt
      (string_similarity fractions (runes "Somchai Co.") tenant.name)
      (fractions.lit 85 2)
    ≡ differs (trim_space (runes "Somchai Co.")) (trim_space tenant.name)
string_similarity-lt_example =
    string_similarity-lt fractions fractions-IsIeee (runes "Somchai Co.") tenant.name name_is_short
      tenant_is_short

one_is_short : is_short_number (trim_space (runes " 1")) ≡ true
unfolding trim_space is_empty is_short_number is_digit
one_is_short = refl

five_is_short : is_short_number (trim_space (runes "00001")) ≡ true
unfolding trim_space is_empty is_short_number is_digit
five_is_short = refl

normalize_same_number_example :
    (normalize_branch_code ascii (runes " 1") ≡ normalize_branch_code ascii (runes "00001"))
    ↔ (atoi (trim_space (runes " 1")) ≡ atoi (trim_space (runes "00001")))
normalize_same_number_example =
    normalize_same_number ascii ascii-IsUnicode (runes " 1") (runes "00001") one_is_short
      five_is_short

normalize-normalize_example :
    normalize_branch_code ascii (normalize_branch_code ascii (runes "hq"))
    ≡ normalize_branch_code ascii (runes "hq")
normalize-normalize_example = normalize-normalize ascii ascii-IsUnicode (runes "hq")

slash : is_separator 47 ≡ true
unfolding is_separator
slash = refl

parse_invoice_date_numeric_example :
    (parse_invoice_date (day_first 47 2567 12 31)
      ≡ record { year = common_era 2567; month = 12; day = 31 })
    × (parse_invoice_date (year_first 47 2567 12 31)
        ≡ record { year = common_era 2567; month = 12; day = 31 })
parse_invoice_date_numeric_example =
    parse_invoice_date_numeric 47 2567 12 31 slash (omega arith) (omega arith) (omega arith)

classify_by_keywords_lem_example :
    let result = classify_by_keywords fractions ascii (runes "Office paper") in
    (result.asset_type ≡ "asset" ↔ Mentioned ascii (runes "Office paper") asset_keywords)
    × (result.asset_type ≡ "expense"
        ↔ (¬ Mentioned ascii (runes "Office paper") asset_keywords)
          × Mentioned ascii (runes "Office paper") expense_keywords)
    × (result.asset_type ≡ "pending"
        ↔ (¬ Mentioned ascii (runes "Office paper") asset_keywords)
          × (¬ Mentioned ascii (runes "Office paper") expense_keywords))
classify_by_keywords_lem_example = classify_by_keywords_lem ascii (runes "Office paper") fractions

repair_mentioned : mentions ascii (runes "Repair of a roof") (runes "repair") ≡ true
unfolding mentions contains has_prefix
repair_mentioned = refl

repair_asset_example :
    (classify_by_keywords fractions ascii (runes "Repair of a roof")).asset_type ≡ "asset"
repair_asset_example = repair_asset ascii fractions (runes "Repair of a roof") repair_mentioned

abbrev reply : Reply fractions
reply = record { asset_type = "expense"; confidence = fractions.lit 9 1; keyword = runes "toner" }

abbrev input : ClassificationInput fractions
input = record { tenant_id = "t"; description = runes "Toner X" }

abbrev rule : ClassificationRule fractions
rule = record {
  tenant_id = "t";
  keyword = runes "toner";
  asset_type = "expense";
  source = "ai";
  confidence = fractions.lit 9 1;
}

learns :
    (classify_with_db fractions ascii true true (λ d. some reply) (some []) input).1 ≡ some rule
unfolding classify_with_db classify_by_keywords list_rules first_rule first_mentioned mentions
    contains has_prefix is_empty
learns = refl

abbrev newer_rule : ClassificationRule fractions
newer_rule = record rule { keyword = runes "drum" }

no_drum : (("t" =ₛ "t") && mentions ascii (runes "Black toner") (runes "drum")) ≡ false
unfolding mentions contains has_prefix
no_drum = refl

toner_mentioned : mentions ascii (runes "Black toner") (runes "toner") ≡ true
unfolding mentions contains has_prefix
toner_mentioned = refl

classify_with_db-learned_example :
    ((a : Reply fractions) × (some reply ≡ some a)
      × (fractions.le (fractions.lit 8 1) a.confidence ≡ true)
      × (rule.keyword ≡ a.keyword)
      × (rule.asset_type ≡ a.asset_type))
    × (classify_with_db fractions ascii true false
          (λ d. none)
          (some (newer_rule ∷ rule ∷ []))
          (record input { description = runes "Black toner" })
        ≡ (
          record {
            asset_type = "expense";
            classified_by = "rule";
            confidence = fractions.lit 9 1;
            keyword = runes "toner";
          },
          none,
        ))
classify_with_db-learned_example =
    classify_with_db-learned fractions ascii true true (λ d. some reply) [] input rule learns
      (newer_rule ∷ []) [] rule refl refl refl false (λ d. none) (runes "Black toner") (no_drum, tt)
      toner_mentioned
