-- ===== src/Classify/Keywords.antt =====
-- backend/internal/classify/service.go: the built-in keywords and `classifyByKeywords`.
pub mod Laws
use tax_ocr.Prelude.{
  Bool, if◌then◌else◌, Option, none, some, String, Text, List, [], ◌∷◌, map, runes,
}
use tax_ocr.Float.{Float64}
use tax_ocr.GoStrings.{contains}
use tax_ocr.GoStrings.Case.{UnicodeCase}

abbrev pub asset_keywords : List Text
asset_keywords =
    runes "computer"
    ∷ runes "คอมพิวเตอร์"
    ∷ runes "notebook"
    ∷ runes "laptop"
    ∷ runes "desktop"
    ∷ runes "printer"
    ∷ runes "เครื่องพิมพ์"
    ∷ runes "scanner"
    ∷ runes "projector"
    ∷ runes "server"
    ∷ runes "switch"
    ∷ runes "router"
    ∷ runes "network"
    ∷ runes "monitor"
    ∷ runes "จอ"
    ∷ runes "camera"
    ∷ runes "กล้อง"
    ∷ runes "vehicle"
    ∷ runes "รถ"
    ∷ runes "car"
    ∷ runes "truck"
    ∷ runes "machinery"
    ∷ runes "เครื่องจักร"
    ∷ runes "equipment"
    ∷ runes "furniture"
    ∷ runes "เฟอร์นิเจอร์"
    ∷ runes "chair"
    ∷ runes "desk"
    ∷ runes "table"
    ∷ runes "phone"
    ∷ runes "โทรศัพท์"
    ∷ runes "tablet"
    ∷ runes "air"
    ∷ runes "แอร์"
    ∷ runes "conditioner"
    ∷ []

abbrev pub expense_keywords : List Text
expense_keywords =
    runes "paper"
    ∷ runes "กระดาษ"
    ∷ runes "stationery"
    ∷ runes "เครื่องเขียน"
    ∷ runes "fuel"
    ∷ runes "น้ำมัน"
    ∷ runes "gasoline"
    ∷ runes "service"
    ∷ runes "ค่าบริการ"
    ∷ runes "maintenance"
    ∷ runes "ซ่อม"
    ∷ runes "electric"
    ∷ runes "ไฟฟ้า"
    ∷ runes "utility"
    ∷ runes "water"
    ∷ runes "น้ำ"
    ∷ runes "internet"
    ∷ runes "อินเตอร์เน็ต"
    ∷ runes "postage"
    ∷ runes "courier"
    ∷ runes "ขนส่ง"
    ∷ runes "food"
    ∷ runes "อาหาร"
    ∷ runes "meal"
    ∷ runes "advertising"
    ∷ runes "โฆษณา"
    ∷ runes "insurance"
    ∷ runes "ประกัน"
    ∷ []

-- strings.Contains(strings.ToLower(description), strings.ToLower(keyword))
unfoldable pub mentions : UnicodeCase → Text → Text → Bool
mentions u description keyword = contains (map u.lower description) (map u.lower keyword)

-- The first keyword of the list that the description mentions.
unfoldable pub first_mentioned : UnicodeCase → Text → List Text → Option Text
first_mentioned u description [] = none
first_mentioned u description (kw ∷ kws) =
    let rest = first_mentioned u description kws in
    if mentions u description kw then some kw else rest

module _ (f : Float64) where
  open f use {F, lit}

  pub record ClassificationResult : Type 0 where
    pub asset_type : String
    pub classified_by : String
    pub confidence : F
    pub keyword : Text

  by_expense : Option Text → ClassificationResult
  by_expense (some kw) = record {
    asset_type = "expense";
    classified_by = "rule";
    confidence = lit 88 2;
    keyword = kw;
  }
  by_expense none = record {
    asset_type = "pending";
    classified_by = "rule";
    confidence = lit 3 1;
    keyword = [];
  }

  by_asset : Option Text → ClassificationResult → ClassificationResult
  by_asset (some kw) otherwise = record {
    asset_type = "asset";
    classified_by = "rule";
    confidence = lit 92 2;
    keyword = kw;
  }
  by_asset none otherwise = otherwise

  unfoldable pub classify_by_keywords : UnicodeCase → Text → ClassificationResult
  unfolding by_expense by_asset
  classify_by_keywords u description =
      by_asset (first_mentioned u description asset_keywords)
        (by_expense (first_mentioned u description expense_keywords))
