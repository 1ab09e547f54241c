-- ===== src/Ocr/Service.antt =====
-- backend/internal/ocr/service.go. The calls of the two engines, of gpt.go and vision.go, and what
-- vision.go reads from the text are parameters.
pub mod Laws
use tax_ocr.Prelude.{
  ℕ, Bool, true, false, not, ◌&&◌, ◌||◌, if◌then◌else◌, String, ◌=ₛ◌, Text, is_empty, Option, none,
  some, List, [],
}
use tax_ocr.Float.{Float64}
use tax_ocr.Ocr.Types.{InvoiceData}
use tax_ocr.Ocr.CrossVerify.{VerifyResult, cross_verify}

pub record Config : Type 0 where
  pub openai_key : String
  pub gcv_key : String

-- The state: a client is its key, `none` where it is nil.
pub record Clients : Type 0 where
  pub gpt : Option String
  pub vision : Option String

client : String → Option String
client key = if not (key =ₛ "") then some key else none

-- applyConfig, which sets both whatever they were; NewServiceWithConfig and UpdateConfig call it.
unfoldable pub apply_config : Config → Clients → Clients
unfolding client
apply_config cfg s = record s { gpt = client cfg.openai_key; vision = client cfg.gcv_key }

is_set : Option String → Bool
is_set none = false
is_set (some key) = true

unfoldable pub has_config : Clients → Bool
unfolding is_set
has_config s = is_set s.gpt || is_set s.vision

pub record ExtractionRequest : Type 0 where
  pub file_bytes : Text
  pub content_type : String

unfoldable pub is_image : String → Bool
is_image content_type =
    content_type =ₛ "image/jpeg" || content_type =ₛ "image/png" || content_type =ₛ "image/jpg"

module _ (f : Float64) where
  open f use {F, lit}

  pub record ExtractionResult : Type 0 where
    pub invoice_data : InvoiceData F
    pub matched : Bool
    pub vat_math_ok : Bool
    pub raw_text : Text
    pub confidence : F
    pub engine : String

  pub record DebugResult : Type 0 where
    pub gpt : InvoiceData F
    pub vision : InvoiceData F
    pub matched : Bool
    pub raw_text : Text
    pub engine : String

  -- The engines, `none` where a call returns an error.
  pub record Engines : Type 0 where
    -- visionClient.extractText, with the key of the client
    pub extract_text : String → Text → Option Text
    pub extract_from_image : String → Text → String → Option (InvoiceData F)
    pub extract_from_text : String → Text → Option (InvoiceData F)
    pub extract_from_text_with_context :
        String → Text → String → Bool → InvoiceData F → Option (InvoiceData F)
    -- parseInvoiceFromText and classifyFromText
    pub parse_invoice_from_text : Text → InvoiceData F
    pub classify_from_text : Text → String × Bool

  -- InvoiceData{}
  abbrev pub no_data : InvoiceData F
  no_data = record {
    doc_type = "";
    vat_inclusive = false;
    vat_rate = lit 0 0;
    vendor_name = [];
    vendor_tax_id = [];
    vendor_address = [];
    vendor_branch_code = [];
    buyer_name = [];
    buyer_tax_id = [];
    buyer_address = [];
    buyer_branch_code = [];
    invoice_doc_no = [];
    invoice_date = [];
    vat_exempt_amount = lit 0 0;
    vat_inclusive_subtotal = lit 0 0;
    discount_amount = lit 0 0;
    total_before_vat = lit 0 0;
    vat_amount = lit 0 0;
    total_amount = lit 0 0;
    items = [];
  }

  stub : String → ExtractionResult
  stub engine = record {
    invoice_data = no_data;
    matched = false;
    vat_math_ok = false;
    raw_text = [];
    confidence = lit 0 0;
    engine = engine;
  }

  debug_stub : String → DebugResult
  debug_stub engine = record {
    gpt = no_data;
    vision = no_data;
    matched = false;
    raw_text = [];
    engine = engine;
  }

  module _ (engines : Engines) where
    parsed : Option Text → Option (Text × InvoiceData F)
    parsed none = none
    parsed (some text) = some (text, engines.parse_invoice_from_text text)

    -- `if vision != nil { … }`: the raw text and what was read from it
    pub read_vision : Option String → ExtractionRequest → Option (Text × InvoiceData F)
    read_vision none req = some ([], no_data)
    read_vision (some key) req = parsed (engines.extract_text key req.file_bytes)

    -- `if gpt != nil { … }` of dualExtract
    pub read_gpt : Option String → ExtractionRequest → Text → InvoiceData F → Option (InvoiceData F)
    read_gpt none req raw_text vision_data = some no_data
    read_gpt (some key) req raw_text vision_data =
        let (doc_type, vat_inclusive) = engines.classify_from_text raw_text in
        if not (is_empty raw_text)
        then engines.extract_from_text_with_context key raw_text doc_type vat_inclusive vision_data
        else if not (is_empty req.file_bytes)
        then engines.extract_from_image key req.file_bytes req.content_type
        else some no_data

    dual_result : Text → InvoiceData F → Option (InvoiceData F) → Option ExtractionResult
    dual_result raw_text vision_data none = none
    dual_result raw_text vision_data (some gpt_data) =
        let verify = cross_verify f gpt_data vision_data in
        some (record {
          invoice_data = gpt_data;
          matched = verify.matched;
          vat_math_ok = verify.vat_math_ok;
          raw_text = raw_text;
          confidence = if verify.matched then lit 95 2 else lit 6 1;
          engine = "dual";
        })

    with_vision :
        Option String → ExtractionRequest → Option (Text × InvoiceData F) → Option ExtractionResult
    with_vision gpt req none = none
    with_vision gpt req (some (raw_text, vision_data)) =
        dual_result raw_text vision_data (read_gpt gpt req raw_text vision_data)

    unfoldable pub dual_extract :
        ExtractionRequest → (gpt vision : Option String) → Option ExtractionResult
    unfolding parsed read_vision read_gpt dual_result with_vision
    dual_extract req gpt vision = with_vision gpt req (read_vision vision req)

    unfoldable pub extract : Clients → ExtractionRequest → Option ExtractionResult
    unfolding stub
    extract s req =
        if not (has_config s)
        then some (stub "stub")
        else if not (is_image req.content_type)
        then some (stub "stub-pdf")
        else dual_extract req s.gpt s.vision

    -- `if gpt != nil { … }` of ExtractDebug
    debug_gpt : Option String → ExtractionRequest → Text → Option (InvoiceData F)
    debug_gpt none req raw_text = some no_data
    debug_gpt (some key) req raw_text =
        if not (is_empty req.file_bytes)
        then engines.extract_from_image key req.file_bytes req.content_type
        else engines.extract_from_text key raw_text

    debug_result : Text → InvoiceData F → Option (InvoiceData F) → Option DebugResult
    debug_result raw_text vision_data none = none
    debug_result raw_text vision_data (some gpt_data) =
        let verify = cross_verify f gpt_data vision_data in
        some (record {
          gpt = gpt_data;
          vision = vision_data;
          matched = verify.matched;
          raw_text = raw_text;
          engine = "dual";
        })

    debug_with_vision :
        Option String → ExtractionRequest → Option (Text × InvoiceData F) → Option DebugResult
    debug_with_vision gpt req none = none
    debug_with_vision gpt req (some (raw_text, vision_data)) =
        debug_result raw_text vision_data (debug_gpt gpt req raw_text)

    unfoldable pub extract_debug : Clients → ExtractionRequest → Option DebugResult
    unfolding debug_stub parsed read_vision debug_gpt debug_result debug_with_vision
    extract_debug s req =
        if not (has_config s)
        then some (debug_stub "stub")
        else if not (is_image req.content_type)
        then some (debug_stub "stub-pdf")
        else debug_with_vision s.gpt req (read_vision s.vision req)
