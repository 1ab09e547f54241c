-- ===== src/Api/Audit/Laws.antt =====
-- What an audit entry takes from the path of a request.
use tax_ocr.Prelude.{ℕ, ◌≡◌, refl, true, false, Text, [], ◌∷◌, ◌++◌, runes, ◌=ₜ◌, is_empty, arith}
use tax_ocr.GoStrings.Case.{UnicodeCase}
use tax_ocr.GoStrings.Split.{
  trim_prefix-append, IsWhole, split-join, split_whole, trim_both-join, trim_both-join_two,
  byte_length,
}
use tax_ocr.Api.Audit.{
  looks_like_id, resource_to_entity_type, special_actions, is_one_of, method_action, action_of,
  parse_audit_info, info_of, second_id, last_of,
}

id_not_empty : (id : Text) → looks_like_id id ≡ true → is_empty id ≡ false
unfolding looks_like_id byte_length is_empty
id_not_empty [] h = absurd (ground arith)
id_not_empty (c ∷ id) h = refl

special_not_empty : (s : Text) → is_one_of special_actions s ≡ true → is_empty s ≡ false
unfolding is_one_of ◌=ₜ◌ is_empty
special_not_empty [] h = absurd (ground arith)
special_not_empty (c ∷ s) h = refl

-- Where no part has a slash in it, and the id looks like one and is not named like a special action,
-- the audit entry of a call of /api/v1/RESOURCE/ID names the type of the resource, the id, and as the
-- action what the method does, and that of /api/v1/RESOURCE/ID/ACTION with a special action names the
-- action itself.
pub parse_audit_info_path :
    (u : UnicodeCase) (method : Text) (c : ℕ) (resource id last : Text)
    → IsWhole 47 (c ∷ resource)
    → IsWhole 47 id
    → IsWhole 47 last
    → looks_like_id id ≡ true
    → is_one_of special_actions id ≡ false
    → is_one_of special_actions last ≡ true
    → (parse_audit_info u method (runes "/api/v1/" ++ c ∷ (resource ++ (47 ∷ id))) ≡ record {
      action = method_action u method;
      entity_type = resource_to_entity_type (c ∷ resource);
      entity_id = id;
    })
      × (parse_audit_info u method
            (runes "/api/v1/" ++ c ∷ (resource ++ (47 ∷ (id ++ (47 ∷ last)))))
          ≡ record {
            action = last;
            entity_type = resource_to_entity_type (c ∷ resource);
            entity_id = id;
          })
unfolding parse_audit_info info_of second_id last_of action_of
parse_audit_info_path u method c resource id last hr hi hl looks plain special = (
  rw
      (
        trim_prefix-append (runes "/api/v1/") (c ∷ (resource ++ (47 ∷ id))),
        trim_both-join 47 (c ∷ resource) id hi (id_not_empty id looks) c (resource ++ 47 ∷ id) refl
            hr.0,
        split-join 47 (c ∷ resource) id hr,
        split_whole 47 id hi,
        plain,
        looks,
      )
      refl,
  rw
      (
        trim_prefix-append (runes "/api/v1/") (c ∷ (resource ++ (47 ∷ (id ++ (47 ∷ last))))),
        trim_both-join_two 47 (c ∷ resource) id last hl (special_not_empty last special) c resource
            refl hr.0,
        split-join 47 (c ∷ resource) (id ++ 47 ∷ last) hr,
        split-join 47 id last hi,
        split_whole 47 last hl,
        special,
        looks,
      )
      refl,
)
