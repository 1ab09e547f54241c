-- ===== src/Classify/Learning.antt =====
-- backend/internal/classify/service.go: `ClassifyWithDB` as the worker calls it, with the statements
-- that it makes. `to_float` reads a NUMERIC column as a float64 and `to_numeric` is the way back, to
-- a number of decimals.
pub mod Laws
use tax_ocr.Prelude.{
  ℕ, Bool, true, if◌then◌else◌, Option, none, some, String, ◌=ₛ◌, Text, List, map,
}
use tax_ocr.Float.{Float64}
use tax_ocr.GoStrings.Case.{UnicodeCase}
use tax_ocr.Db.Types.{Numeric, ClassificationRule as RuleRow}
use tax_ocr.Db.Monad.{Result, ok, err, Db, pure, try, ◌>>=◌, ◌>>◌}
use tax_ocr.Db.RulesStore.{list_rules, create_rule}
use tax_ocr.Classify.Keywords.{ClassificationResult}
use tax_ocr.Classify.Service.{
  ClassificationRule, ClassificationInput, Reply, Outcome, classify_with_db,
}

module _ (f : Float64) (u : UnicodeCase) (to_float : Numeric → f.F)
    (to_numeric : ℕ → f.F → Numeric) where
  rule_of : RuleRow → ClassificationRule f
  rule_of r = record {
    tenant_id = r.tenant_id;
    keyword = r.keyword;
    asset_type = r.asset_type;
    source = r.source;
    confidence = to_float r.confidence;
  }

  -- `none` is an error of the query.
  rules_read : Result (List RuleRow) → Option (List (ClassificationRule f))
  rules_read (ok rows) = some (map rule_of rows)
  rules_read (err e) = none

  -- ListRules, which is not called for a tenant without an id.
  tenant_rules : String → Db (Option (List (ClassificationRule f)))
  tenant_rules tenant_id =
      if tenant_id =ₛ ""
      then pure none
      else do rows ← try (list_rules tenant_id); pure (rules_read rows)

  -- CreateRule, whose error is dropped.
  learn_rule : Option (ClassificationRule f) → Db (Unit {0})
  learn_rule none = pure tt
  learn_rule (some r) = do
    created ←
        try (create_rule r.tenant_id r.keyword r.asset_type r.source (to_numeric 4 r.confidence))
    pure tt

  learned : Outcome f → Db (ClassificationResult f)
  learned outcome = learn_rule outcome.1 >> pure outcome.0

  unfoldable pub classify_and_learn :
      (has_key : Bool) (ask : Text → Option (Reply f))
      → ClassificationInput f
      → Db (ClassificationResult f)
  unfolding rule_of rules_read tenant_rules learn_rule learned
  classify_and_learn has_key ask input = do
    rules ← tenant_rules input.tenant_id
    learned (classify_with_db f u true has_key ask rules input)
