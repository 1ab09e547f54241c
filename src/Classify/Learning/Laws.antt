-- ===== src/Classify/Learning/Laws.antt =====
-- What a classification keeps: it writes to classification_rules alone.
use tax_ocr.Prelude.{
  ℕ, String, ◌=ₛ◌, Bool, true, Option, none, some, Text, List, Bool-cases, inl, inr,
}
use tax_ocr.Float.{Float64}
use tax_ocr.GoStrings.Case.{UnicodeCase}
use tax_ocr.Db.Types.{Numeric, ClassificationRule as RuleRow}
use tax_ocr.Db.Monad.{Tables}
use tax_ocr.Db.Monad.Keeps.{Keeps, Keeps-pure, Keeps-try, Keeps-bind}
use tax_ocr.Db.RulesStore.Laws.{list_rules-keeps, create_rule-keeps}
use tax_ocr.Classify.Service.{ClassificationRule, ClassificationInput, Reply, classify_with_db}
use tax_ocr.Classify.Learning.{rules_read, tenant_rules, learn_rule, learned, classify_and_learn}

module _ {P : Tables → Type 0}
    (free : (t : Tables) (rs : List RuleRow) → P t → P (record t { classification_rules = rs }))
    (f : Float64) (u : UnicodeCase) (to_float : Numeric → f.F)
    (to_numeric : ℕ → f.F → Numeric) where
  tenant_rules-keeps :
      (tenant_id : String) → Keeps P (tenant_rules f u to_float to_numeric tenant_id)
  unfolding tenant_rules
  tenant_rules-keeps tenant_id = elim (Bool-cases (tenant_id =ₛ "")) [
    | inl e ↦ rw e (Keeps-pure none)
    | inr e ↦ rw e (
        Keeps-bind (Keeps-try (list_rules-keeps free tenant_id))
          λ rows. Keeps-pure (rules_read f u to_float to_numeric rows))
  ]

  learn_rule-keeps :
      (o : Option (ClassificationRule f)) → Keeps P (learn_rule f u to_float to_numeric o)
  unfolding learn_rule
  learn_rule-keeps none = Keeps-pure tt
  learn_rule-keeps (some r) =
      Keeps-bind (Keeps-try (create_rule-keeps free r.tenant_id r.keyword r.asset_type r.source _))
        λ x. Keeps-pure tt

  pub classify_and_learn-keeps :
      (has_key : Bool) (ask : Text → Option (Reply f)) (input : ClassificationInput f)
      → Keeps P (classify_and_learn f u to_float to_numeric has_key ask input)
  unfolding classify_and_learn learned
  classify_and_learn-keeps has_key ask input =
      Keeps-bind (tenant_rules-keeps input.tenant_id) λ rules.
        Keeps-bind (learn_rule-keeps (classify_with_db f u true has_key ask rules input).1)
          λ x. Keeps-pure _
