-- ===== src/Classify/Service/Laws.antt =====
-- What the service learns.
use tax_ocr.Prelude.{
  ◌≡◌, ◌≢◌, refl, sym, ap, Bool, true, false, not, &&-eq_true, Bool-cases, inl, inr, if◌then◌else◌,
  eq_iff, Option, none, some, String, ◌=ₛ◌, Text, is_empty, List, ◌∷◌, arith, ◌++◌, [], All, ◌&&◌,
  ◌∙◌,
}
use mathlib.Core.Option.{some-injective}
use tax_ocr.Float.{Float64}
use tax_ocr.GoStrings.Case.{UnicodeCase}
use tax_ocr.Classify.Keywords.{mentions, classify_by_keywords}
use tax_ocr.Classify.Service.{
  ClassificationRule, Reply, ClassificationInput, list_rules, by_rule, learned_rule, first_rule,
  Outcome, learn, from_reply, without_rules, or_without, matching, classify_with_db,
}

if_some :
    {A : Type 0} (b : Bool) (x r : A)
    → ◌≡◌ {A = Option A} (if b then some x else none) (some r)
    → (b ≡ true) × (r ≡ x)
if_some true x r e = (refl, sym (some-injective x r e))
if_some false x r e = cc

not-true : (b : Bool) → not b ≡ true → b ≡ false
not-true b h = ground arith

not_empty : (s : String) → not (s =ₛ "") ≡ true → s ≢ ""
not_empty s h e = absurd (ground (arith, (eq_iff s "").1 e))

not_there : {A : Type 0} (r : A) → ◌≢◌ {A = Option A} none (some r)
not_there r e = cc

module _ (f : Float64) (u : UnicodeCase) where
  open f use {lit, le}

  -- A rule is learned from a reply that is sure enough and has a keyword, for a tenant.
  Learned : Bool → String → Option (Reply f) → ClassificationRule f → Type 0
  Learned has_store tenant_id reply r =
      (a : Reply f) × (reply ≡ some a)
      × (le (lit 8 1) a.confidence ≡ true)
      × (has_store ≡ true)
      × (tenant_id ≢ "")
      × (is_empty a.keyword ≡ false)
      × (r ≡ learned_rule f tenant_id a)

  learn-some :
      (has_store : Bool) (tenant_id : String) (a : Reply f) (r : ClassificationRule f)
      → learn f has_store tenant_id a ≡ some r
      → Learned has_store tenant_id (some a) r
  unfolding learn Learned
  learn-some has_store tenant_id a r e =
      let (p, same) = if_some _ _ r e in
      let (p2, keyed) = &&-eq_true _ _ p in
      let (p3, tenant) = &&-eq_true _ _ p2 in
      let (store, sure) = &&-eq_true _ _ p3 in
      (a, refl, sure, store, not_empty tenant_id tenant, not-true (is_empty a.keyword) keyed, same)

  from_reply-Learned :
      (has_store : Bool) (tenant_id : String) (o : Option (Reply f)) (r : ClassificationRule f)
      → (from_reply f has_store tenant_id o).1 ≡ some r
      → Learned has_store tenant_id o r
  unfolding from_reply
  from_reply-Learned has_store tenant_id none r e = cc
  from_reply-Learned has_store tenant_id (some a) r e = learn-some has_store tenant_id a r e

  without_rules-Learned :
      (has_store has_key : Bool) (ask : Text → Option (Reply f)) (input : ClassificationInput f)
      (r : ClassificationRule f)
      → (without_rules f u has_store has_key ask input).1 ≡ some r
      → Learned has_store input.tenant_id (ask input.description) r
  unfolding without_rules
  without_rules-Learned has_store has_key ask input r e =
      elim (Bool-cases
        (not ((classify_by_keywords f u input.description).asset_type =ₛ "pending"))) [
          | inl p ↦ absurd (not_there r (rw p at e))
          | inr p ↦ elim (Bool-cases (not has_key)) [
            | inl q ↦ absurd (not_there r (rw (p, q) at e))
            | inr q ↦
                from_reply-Learned has_store input.tenant_id (ask input.description) r
                  (rw (p, q) at e)
          ]
        ]

  or_without_learned :
      (o : Option (ClassificationRule f)) (w : Outcome f) (r : ClassificationRule f)
      → (or_without f o w).1 ≡ some r
      → (o ≡ none) × (w.1 ≡ some r)
  unfolding or_without
  or_without_learned none w r e = (refl, e)
  or_without_learned (some x) w r e = cc

  -- No rule of the tenant in the list has a keyword that the description mentions.
  abbrev pub NoneMentioned :
      (tenant_id : String) (description : Text) → List (ClassificationRule f) → Type 0
  NoneMentioned tenant_id description rules =
      All (λ x. (x.tenant_id =ₛ tenant_id && mentions u description x.keyword) ≡ false) rules

  first_matches :
      (tenant_id : String) (description : Text) (newer older : List (ClassificationRule f))
      (r : ClassificationRule f)
      → NoneMentioned tenant_id description newer
      → (r.tenant_id =ₛ tenant_id) ≡ true
      → mentions u description r.keyword ≡ true
      → first_rule f u description (list_rules f tenant_id (newer ++ r ∷ older)) ≡ some r
  unfolding list_rules first_rule
  first_matches tenant_id description [] older r h same mentioned = rw same (rw mentioned refl)
  first_matches tenant_id description (x ∷ newer) older r h same mentioned =
      let rest = first_matches tenant_id description newer older r h.1 same mentioned in
      elim (Bool-cases (x.tenant_id =ₛ tenant_id)) [
        | inl e ↦ rw e (rw (rw e at h.0) rest)
        | inr e ↦ rw e rest
      ]

  -- The newest of the rules of a tenant that a description mentions decides.
  newest_matches :
      (newer older : List (ClassificationRule f)) (r : ClassificationRule f)
      (input : ClassificationInput f)
      → NoneMentioned input.tenant_id input.description newer
      → r.tenant_id ≡ input.tenant_id
      → input.tenant_id ≢ ""
      → mentions u input.description r.keyword ≡ true
      → matching f u true (some (newer ++ r ∷ older)) input ≡ some r
  unfolding matching
  newest_matches newer older r input none_newer same tenant h =
      let found =
        first_matches input.tenant_id input.description newer older r none_newer
          ((eq_iff r.tenant_id input.tenant_id).1 same) h in
      rw found (ground (arith, eq_iff input.tenant_id ""))

  -- What was learned is used. If a description has a rule learned, then the model has replied with
  -- that keyword and type, at a confidence of at least 0.8; and where a rule with this tenant, keyword
  -- and type is stored, at whatever confidence, every description of the tenant's that mentions the
  -- keyword, and the keyword of no newer rule of the tenant, is classified by the rule as that type,
  -- whatever the model would reply, and nothing more is learned from it.
  pub classify_with_db-learned :
      (has_store has_key : Bool) (ask : Text → Option (Reply f))
      (table : List (ClassificationRule f)) (input : ClassificationInput f)
      (r : ClassificationRule f)
      → (classify_with_db f u has_store has_key ask (some table) input).1 ≡ some r
      → (newer older : List (ClassificationRule f)) (stored : ClassificationRule f)
      → stored.tenant_id ≡ r.tenant_id
      → stored.keyword ≡ r.keyword
      → stored.asset_type ≡ r.asset_type
      → (has_key' : Bool) (ask' : Text → Option (Reply f)) (description : Text)
      → NoneMentioned input.tenant_id description newer
      → mentions u description r.keyword ≡ true
      → ((a : Reply f) × (ask input.description ≡ some a)
          × (le (lit 8 1) a.confidence ≡ true)
          × (r.keyword ≡ a.keyword)
          × (r.asset_type ≡ a.asset_type))
        × (classify_with_db f u has_store has_key' ask'
              (some (newer ++ stored ∷ older))
              (record input { description = description })
            ≡ (
              record {
                asset_type = r.asset_type;
                classified_by = "rule";
                confidence = stored.confidence;
                keyword = r.keyword;
              },
              none,
            ))
  unfolding classify_with_db Learned by_rule or_without
  classify_with_db-learned has_store has_key ask table input r e newer older stored tenant_same
        keyword_same type_same has_key' ask' description none_newer h =
      let (_, e') = or_without_learned _ _ r e in
      let (a, replied, sure, store, tenant, keyed, same) =
        without_rules-Learned has_store has_key ask input r e' in
      (
        (a, replied, sure, ap (λ x. x.keyword) same, ap (λ x. x.asset_type) same),
        rw
            (
              store,
              newest_matches newer older stored (record input { description = description })
                  none_newer (tenant_same ∙ ap (λ x. x.tenant_id) same) tenant
                  (ap (mentions u description) keyword_same ∙ h),
            )
            (rw (keyword_same, type_same) refl),
      )
