-- ===== src/Db/RulesStore/Laws.antt =====
-- What the statements on classification_rules keep.
use tax_ocr.Prelude.{
  String, ◌=ₛ◌, ◌≡◌, ◌||◌, subst, Text, is_empty, List, [], ◌∷◌, ◌++◌, Bool-cases, inl, inr, arith,
}
use tax_ocr.Db.Types.{ClassificationRule, Numeric}
use tax_ocr.Db.Monad.{ok, Tables}
use tax_ocr.Db.Monad.Keeps.{
  ok_tables, Keeps, Keeps-raise, Keeps-new_id, Keeps-bind, Keeps-statement,
}
use tax_ocr.Db.RulesStore.{list_rules, insert_rule, new_rule, create_rule}

insert_rule_tables :
    (r : ClassificationRule) (t t' : Tables) (a : ClassificationRule)
    → insert_rule r t ≡ ok (a, t')
    → t' ≡ record t { classification_rules = t.classification_rules ++ r ∷ [] }
unfolding insert_rule
insert_rule_tables r t t' a e = ground arith

module _ {P : Tables → Type 0}
    (free : (t : Tables) (rs : List ClassificationRule)
      → P t
      → P (record t { classification_rules = rs })) where
  pub list_rules-keeps : (tenant_id : String) → Keeps P (list_rules tenant_id)
  unfolding list_rules
  list_rules-keeps tenant_id = Keeps-statement _ λ now t a t' h e. subst P (ok_tables _ a t t' e) h

  pub create_rule-keeps :
      (tenant_id : String) (keyword : Text) (asset_type source : String) (confidence : Numeric)
      → Keeps P (create_rule tenant_id keyword asset_type source confidence)
  unfolding create_rule
  create_rule-keeps tenant_id keyword asset_type source confidence =
      elim (Bool-cases (tenant_id =ₛ "" || is_empty keyword || asset_type =ₛ "")) [
        | inl e ↦ rw e (Keeps-raise _)
        | inr e ↦ rw e (
            Keeps-bind Keeps-new_id λ new. Keeps-statement _ λ now t a t' h q.
              rw
                (insert_rule_tables
                  (new_rule now new tenant_id keyword asset_type source confidence) t t' a q)
                (free t _ h))
      ]
