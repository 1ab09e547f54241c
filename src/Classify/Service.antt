-- ===== src/Classify/Service.antt =====
-- backend/internal/classify/service.go: `ClassifyWithDB`, with the rules of
-- backend/internal/db/rules_store.go that it reads and adds to.
pub mod Laws
use tax_ocr.Prelude.{
  Bool, true, false, not, ◌&&◌, if◌then◌else◌, Option, none, some, String, ◌=ₛ◌, Text, is_empty,
  List, [], ◌∷◌,
}
use tax_ocr.Float.{Float64}
use tax_ocr.GoStrings.Case.{UnicodeCase}
use tax_ocr.Classify.Keywords.{ClassificationResult, mentions, classify_by_keywords}

module _ (f : Float64) where
  open f use {F, lit, le}

  -- The columns of a rule that are read; the rows of all tenants, the newest first.
  pub record ClassificationRule : Type 0 where
    pub tenant_id : String
    pub keyword : Text
    pub asset_type : String
    pub source : String
    pub confidence : F

  -- What the model of OpenAI replies, once it is parsed.
  pub record Reply : Type 0 where
    pub asset_type : String
    pub confidence : F
    pub keyword : Text

  pub record ClassificationInput : Type 0 where
    pub tenant_id : String
    pub description : Text

  -- ListRules
  unfoldable pub list_rules : String → List ClassificationRule → List ClassificationRule
  list_rules tenant_id [] = []
  list_rules tenant_id (r ∷ rs) =
      let rest = list_rules tenant_id rs in if r.tenant_id =ₛ tenant_id then r ∷ rest else rest

  by_rule : ClassificationRule → ClassificationResult f
  by_rule r = record {
    asset_type = r.asset_type;
    classified_by = "rule";
    confidence = r.confidence;
    keyword = r.keyword;
  }

  pending : ClassificationResult f
  pending = record {
    asset_type = "pending";
    classified_by = "rule";
    confidence = lit 3 1;
    keyword = [];
  }

  by_ai : Reply → ClassificationResult f
  by_ai a = record {
    asset_type = a.asset_type;
    classified_by = "ai";
    confidence = a.confidence;
    keyword = a.keyword;
  }

  learned_rule : String → Reply → ClassificationRule
  learned_rule tenant_id a = record {
    tenant_id = tenant_id;
    keyword = a.keyword;
    asset_type = a.asset_type;
    source = "ai";
    confidence = a.confidence;
  }

  -- The first rule whose keyword the description mentions.
  unfoldable pub first_rule :
      UnicodeCase → Text → List ClassificationRule → Option ClassificationRule
  first_rule u description [] = none
  first_rule u description (r ∷ rs) =
      let rest = first_rule u description rs in
      if mentions u description r.keyword then some r else rest

  -- The result, and the rule that CreateRule is asked to add.
  abbrev pub Outcome : Type 0
  Outcome = ClassificationResult f × Option ClassificationRule

  learn : (has_store : Bool) → String → Reply → Option ClassificationRule
  learn has_store tenant_id a =
      if has_store && le (lit 8 1) a.confidence && not (tenant_id =ₛ "") && not (is_empty a.keyword)
      then some (learned_rule tenant_id a)
      else none

  from_reply : (has_store : Bool) → String → Option Reply → Outcome
  from_reply has_store tenant_id none = (pending, none)
  from_reply has_store tenant_id (some a) = (by_ai a, learn has_store tenant_id a)

  -- What comes after the rules of the tenant. `ask` is classifyWithAI, `none` for an error of it.
  without_rules :
      UnicodeCase
      → (has_store has_key : Bool) → (Text → Option Reply)
      → ClassificationInput
      → Outcome
  without_rules u has_store has_key ask input =
      let result = classify_by_keywords f u input.description in
      if not (result.asset_type =ₛ "pending")
      then (result, none)
      else if not has_key
      then (pending, none)
      else from_reply has_store input.tenant_id (ask input.description)

  or_without : Option ClassificationRule → Outcome → Outcome
  or_without (some r) otherwise = (by_rule r, none)
  or_without none otherwise = otherwise

  -- `rules` is the table, `none` where the query of ListRules fails.
  matching :
      UnicodeCase
      → (has_store : Bool) → Option (List ClassificationRule)
      → ClassificationInput
      → Option ClassificationRule
  matching u has_store none input = none
  matching u has_store (some table) input =
      if has_store && not (input.tenant_id =ₛ "")
      then first_rule u input.description (list_rules input.tenant_id table)
      else none

  unfoldable pub classify_with_db :
      UnicodeCase
      → (has_store has_key : Bool) → (ask : Text → Option Reply)
      → (rules : Option (List ClassificationRule)) → ClassificationInput
      → Outcome
  unfolding by_rule pending by_ai learned_rule learn from_reply without_rules or_without matching
  classify_with_db u has_store has_key ask rules input =
      or_without (matching u has_store rules input) (without_rules u has_store has_key ask input)
