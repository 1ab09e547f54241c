-- ===== src/Ocr/Types.antt =====
-- backend/internal/ocr/types.go: what is read from an invoice. `F` is the type of float64.
use tax_ocr.Prelude.{String, Bool, Text, List}

pub record LineItem (F : Type 0) : Type 0 where
  pub product_code : Text
  pub description : Text
  pub unit : Text
  pub quantity : F
  pub unit_price : F
  pub discount : F
  pub total_price : F

pub record InvoiceData (F : Type 0) : Type 0 where
  pub doc_type : String
  pub vat_inclusive : Bool
  pub vat_rate : F
  pub vendor_name : Text
  pub vendor_tax_id : Text
  pub vendor_address : Text
  pub vendor_branch_code : Text
  pub buyer_name : Text
  pub buyer_tax_id : Text
  pub buyer_address : Text
  pub buyer_branch_code : Text
  pub invoice_doc_no : Text
  pub invoice_date : Text
  pub vat_exempt_amount : F
  pub vat_inclusive_subtotal : F
  pub discount_amount : F
  pub total_before_vat : F
  pub vat_amount : F
  pub total_amount : F
  pub items : List (LineItem F)
