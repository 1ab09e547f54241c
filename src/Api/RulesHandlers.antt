-- ===== src/Api/RulesHandlers.antt =====
-- backend/internal/api/rules_handler.go and vendor_handler.go. A body that readJSON refuses is `none`; the
-- conversion of a float64 to NUMERIC is a parameter.
use tax_ocr.Prelude.{ℕ, if◌then◌else◌, String, Text, is_empty, Option, none, some, List, [], ◌∷◌}
use tax_ocr.GoStrings.Case.{UnicodeCase}
use tax_ocr.Db.Types.{ClassificationRule, Vendor, Numeric}
use tax_ocr.Db.Monad.{DbError, not_found, duplicate_keyword, Result, ok, err, Db, pure, try, ◌>>=◌}
use tax_ocr.Db.RulesStore.{list_rules, get_rule, create_rule, update_rule, delete_rule, test_rule}
use tax_ocr.Db.VendorStore.{get_vendor, find_vendor_by_tax_id, verify_vendor}
use tax_ocr.Api.ReviewerHandlers.{Response, answering, bad_request, always_not_found}
use tax_ocr.Api.Auth.{Claims, replied, replied_with}
use tax_ocr.Api.InvoiceHandlers.{not_found_or_server_error}

unavailable : DbError → ℕ
unavailable e = 500

unfoldable pub handle_list_rules : (tenant_id : String) → Db (Response (List ClassificationRule))
unfolding unavailable
handle_list_rules tenant_id = answering 200 unavailable (list_rules tenant_id)

unfoldable pub handle_get_rule : (id : String) → Db (Response ClassificationRule)
handle_get_rule id = answering 200 always_not_found (get_rule id)

-- http.StatusConflict for ErrDuplicateKeyword
conflict_for_keyword : (otherwise : ℕ) → DbError → ℕ
conflict_for_keyword otherwise duplicate_keyword = 409
conflict_for_keyword otherwise e = otherwise

unfoldable pub handle_delete_rule : (id : String) → Db (Response (Unit {0}))
handle_delete_rule id = answering 204 always_not_found (delete_rule id)

-- An error is dropped, and null is sent.
exported : Result (List ClassificationRule) → List ClassificationRule
exported (err e) = []
exported (ok rules) = rules

unfoldable pub handle_export_rules : (tenant_id : String) → Db (List ClassificationRule)
unfolding exported
handle_export_rules tenant_id = do r ← try (list_rules tenant_id); pure (exported r)

-- What is sent as `matched` is the error of TestRule, null if there is none.
pub record TestedRule : Type 0 where
  pub matched : Option DbError
  pub rule : Option ClassificationRule

tested : Result (Option ClassificationRule) → TestedRule
tested (err e) = record { matched = some e; rule = none }
tested (ok rule) = record { matched = none; rule = rule }

-- The body is the tenant and the keyword.
unfoldable pub handle_test_rule : UnicodeCase → Option (String × Text) → Db (Response TestedRule)
unfolding tested
handle_test_rule u none = bad_request
handle_test_rule u (some (tenant_id, keyword)) = do
  r ← try (test_rule u tenant_id keyword)
  replied_with 200 (tested r)

module _ {F : Type 0} (to_numeric : ℕ → F → Numeric) where
  pub record RuleItem : Type 0 where
    pub keyword : Text
    pub asset_type : String
    pub source : String
    pub confidence : F

  pub record RuleUpdateBody : Type 0 where
    pub keyword : Text
    pub asset_type : String
    pub confidence : F

  created_rule : (tenant_id : String) → RuleItem → Db ClassificationRule
  created_rule tenant_id req =
      create_rule tenant_id req.keyword req.asset_type req.source (to_numeric 4 req.confidence)

  -- The body is the tenant and the rule.
  unfoldable pub handle_create_rule : Option (String × RuleItem) → Db (Response ClassificationRule)
  unfolding created_rule conflict_for_keyword
  handle_create_rule none = bad_request
  handle_create_rule (some (tenant_id, req)) =
      answering 201 (conflict_for_keyword 400) (created_rule tenant_id req)

  unfoldable pub handle_update_rule :
      (id : String) → Option RuleUpdateBody → Db (Response ClassificationRule)
  unfolding conflict_for_keyword
  handle_update_rule id none = bad_request
  handle_update_rule id (some req) =
      answering 200 (conflict_for_keyword 404)
        (update_rule id req.keyword req.asset_type "" (to_numeric 4 req.confidence))

  and_created : Result ClassificationRule → List ClassificationRule → List ClassificationRule
  and_created (err e) rules = rules
  and_created (ok rule) rules = rule ∷ rules

  -- A rule that is refused is skipped.
  imported : (tenant_id : String) → List RuleItem → Db (List ClassificationRule)
  imported tenant_id [] = pure []
  imported tenant_id (x ∷ xs) = do
    rule ← try (created_rule tenant_id x)
    rest ← imported tenant_id xs
    pure (and_created rule rest)

  unfoldable pub handle_import_rules :
      Option (String × List RuleItem) → Db (Response (List ClassificationRule))
  unfolding created_rule and_created imported
  handle_import_rules none = bad_request
  handle_import_rules (some (tenant_id, rules)) = do
    created ← imported tenant_id rules
    replied_with 200 created

unfoldable pub handle_get_vendor : (id : String) → Db (Response Vendor)
handle_get_vendor id = answering 200 always_not_found (get_vendor id)

looked_up : Result Vendor → Db (Response (Option Vendor))
looked_up (ok v) = replied_with 200 (some v)
looked_up (err not_found) = replied_with 200 none
looked_up (err e) = replied 500

unfoldable pub handle_lookup_vendor_by_tax_id : (tax_id : Text) → Db (Response (Option Vendor))
unfolding looked_up
handle_lookup_vendor_by_tax_id tax_id =
    if is_empty tax_id then replied 400 else do v ← try (find_vendor_by_tax_id tax_id); looked_up v

pub record VendorBody : Type 0 where
  pub name : Text
  pub address : Text
  pub branch_code : Text
  pub branch_name : Text
  pub phone : Text

-- userIDFromContext
user_id_of : Option Claims → String
user_id_of none = ""
user_id_of (some claims) = claims.user_id

unfoldable pub handle_verify_vendor :
    (id : String) → Option Claims → Option VendorBody → Db (Response Vendor)
unfolding user_id_of
handle_verify_vendor id claims none = bad_request
handle_verify_vendor id claims (some body) = answering 200 not_found_or_server_error (
    verify_vendor id (user_id_of claims) body.name body.address body.branch_code body.branch_name
      body.phone)
