-- ===== src/Db/RulesStore.antt =====
-- backend/internal/db/rules_store.go, with the constraints of migration 008.
pub mod Laws
use tax_ocr.Prelude.{
  ℕ, String, ◌=ₛ◌, Bool, true, ◌&&◌, ◌||◌, not, if◌then◌else◌, Option, none, some, Text, ◌=ₜ◌,
  is_empty, List, [], ◌∷◌, ◌++◌, ltb,
}
use tax_ocr.GoStrings.{contains}
use tax_ocr.GoStrings.Case.{UnicodeCase}
use mathlib.Core.List.{map}
use tax_ocr.Db.Types.{ClassificationRule, Numeric}
use tax_ocr.Db.Rows.{find, exists, delete_rows, update_row}
use tax_ocr.Db.Monad.{
  not_found, invalid_input, duplicate_keyword, query_failed, Result, ok, err, Tables, Db, pure,
  raise, statement, ◌>>=◌, new_id,
}
use tax_ocr.Db.ReviewerStore.{row_or_not_found, unless_empty}
use tax_ocr.Db.TenantStore.{unless_empty_text, tenant_keyed}
use tax_ocr.Db.UserStore.{first_row}
use tax_ocr.Db.Keys.{rule_keyed, refers, fits, in_range}
use tax_ocr.Db.Listings.{newest_first}

unfoldable pub list_rules : (tenant_id : String) → Db (List ClassificationRule)
list_rules tenant_id = statement λ now t.
    ok (newest_first (λ r. r.tenant_id =ₛ tenant_id) (λ r. r.created_at) t.classification_rules, t)

unfoldable pub get_rule : String → Db ClassificationRule
get_rule id = statement (λ now t. row_or_not_found (find id t.classification_rules) t)

-- The CHECK constraints, and VARCHAR(255) and NUMERIC(5, 4)
rule_allowed : ClassificationRule → Bool
rule_allowed r =
    (r.asset_type =ₛ "asset" || r.asset_type =ₛ "expense")
    && (r.source =ₛ "ai" || r.source =ₛ "human")
    && fits 255 r.keyword
    && in_range 1 r.confidence

-- UNIQUE (tenant_id, keyword)
same_keyword : ClassificationRule → ClassificationRule → Bool
same_keyword r x = x.tenant_id =ₛ r.tenant_id && x.keyword =ₜ r.keyword

insert_rule : ClassificationRule → Tables → Result (ClassificationRule × Tables)
insert_rule r t =
    if not (rule_allowed r)
    then err query_failed
    else if refers r.id t.classification_rules || exists (same_keyword r) t.classification_rules
    then err duplicate_keyword
    else if not (refers r.tenant_id t.tenants)
    then err query_failed
    else ok (r, record t { classification_rules = t.classification_rules ++ r ∷ [] })

new_rule :
    ℕ
    → (id tenant_id : String) (keyword : Text) (asset_type source : String) → Numeric
    → ClassificationRule
new_rule now id tenant_id keyword asset_type source confidence = record {
  id = id;
  tenant_id = tenant_id;
  keyword = keyword;
  asset_type = asset_type;
  source = source;
  confidence = confidence;
  created_at = now;
  updated_at = now;
}

unfoldable pub create_rule :
    (tenant_id : String) (keyword : Text) (asset_type source : String) (confidence : Numeric)
    → Db ClassificationRule
unfolding rule_allowed same_keyword insert_rule new_rule in_range
create_rule tenant_id keyword asset_type source confidence =
    if tenant_id =ₛ "" || is_empty keyword || asset_type =ₛ "" then raise invalid_input else do
      id ← new_id
      statement
          λ now t. insert_rule (new_rule now id tenant_id keyword asset_type source confidence) t

is_positive : Numeric → Bool
is_positive n = not n.is_negative && ltb 0 n.ten_thousandths

revise_rule :
    ℕ
    → (keyword : Text) (asset_type source : String) (confidence : Numeric) → ClassificationRule
    → ClassificationRule
revise_rule now keyword asset_type source confidence r = record r {
  keyword = unless_empty_text keyword r.keyword;
  asset_type = unless_empty asset_type r.asset_type;
  source = unless_empty source r.source;
  confidence = if is_positive confidence then confidence else r.confidence;
  updated_at = now;
}

-- Here a keyword that another rule has is an error like any other.
store_rule :
    Option (ClassificationRule × List ClassificationRule)
    → Tables
    → Result (ClassificationRule × Tables)
store_rule none t = err not_found
store_rule (some (r, rs)) t =
    if rule_allowed r
      && not (exists (λ x. same_keyword r x && not (x.id =ₛ r.id)) t.classification_rules)
    then ok (r, record t { classification_rules = rs })
    else err query_failed

-- `confidence` is the parameter as the database reads it.
unfoldable pub update_rule :
    (id : String) (keyword : Text) (asset_type source : String) (confidence : Numeric)
    → Db ClassificationRule
unfolding is_positive revise_rule store_rule rule_allowed same_keyword
update_rule id keyword asset_type source confidence = statement λ now t.
    store_rule
      (update_row id (λ r. true) (revise_rule now keyword asset_type source confidence)
        t.classification_rules)
      t

remove_rule : String → Option ClassificationRule → Tables → Result (Unit {0} × Tables)
remove_rule id none t = err not_found
remove_rule id (some r) t =
    ok
      (tt, record t { classification_rules = delete_rows (λ x. x.id =ₛ id) t.classification_rules })

unfoldable pub delete_rule : String → Db (Unit {0})
unfolding remove_rule
delete_rule id = statement (λ now t. remove_rule id (find id t.classification_rules) t)

-- LOWER of the database is taken to be strings.ToLower.
exactly : UnicodeCase → (tenant_id : String) (keyword : Text) → ClassificationRule → Bool
exactly u tenant_id keyword r =
    r.tenant_id =ₛ tenant_id && map u.lower r.keyword =ₜ map u.lower keyword

partly : UnicodeCase → (tenant_id : String) (keyword : Text) → ClassificationRule → Bool
partly u tenant_id keyword r =
    r.tenant_id =ₛ tenant_id && contains (map u.lower keyword) (map u.lower r.keyword)

matched_or :
    Option ClassificationRule → Db (Option ClassificationRule) → Db (Option ClassificationRule)
matched_or (some r) otherwise = pure (some r)
matched_or none otherwise = otherwise

unfoldable pub test_rule :
    UnicodeCase → (tenant_id : String) (keyword : Text) → Db (Option ClassificationRule)
unfolding exactly partly matched_or
test_rule u tenant_id keyword = do
  exact ←
      statement (λ now t. ok (first_row (exactly u tenant_id keyword) t.classification_rules, t))
  matched_or exact
      (statement λ now t. ok (first_row (partly u tenant_id keyword) t.classification_rules, t))
