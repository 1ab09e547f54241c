-- ===== src/Api/Audit.antt =====
-- backend/internal/api/audit_middleware.go
pub mod Laws
use tax_ocr.Prelude.{
  ℕ, suc, ◌+◌, ◌==◌, ltb, leb, not, Bool, true, false, ◌&&◌, ◌||◌, if◌then◌else◌, Option, none,
  some, String, Text, List, [], ◌∷◌, map, runes, ◌=ₜ◌, is_empty,
}
use tax_ocr.GoStrings.Case.{UnicodeCase}
use tax_ocr.GoStrings.Split.{trim_prefix, trim_both, split, first_part, before_last, byte_length}

-- What the middleware reads of a request; `forwarded_for` and `real_ip` are the headers
-- X-Forwarded-For and X-Real-Ip, empty where they are missing.
pub record Request : Type 0 where
  pub method : Text
  pub path : Text
  pub forwarded_for : Text
  pub real_ip : Text
  pub remote_addr : Text
  pub user_agent : Text

-- The claims of the token that the request came with.
pub record Claims : Type 0 where
  pub tenant_id : String
  pub user_id : String

pub record AuditLog : Type 0 where
  pub tenant_id : String
  pub user_id : String
  pub action : Text
  pub entity_type : Text
  pub entity_id : Text
  pub ip_address : Text
  pub device_info : Text

dashes : Text → ℕ
dashes [] = 0
dashes (c ∷ s) = let n = dashes s in if c == 45 then suc n else n

unfoldable pub looks_like_id : Text → Bool
unfolding dashes
looks_like_id s = byte_length s == 36 && dashes s == 4

abbrev pub entity_types : List (Text × Text)
entity_types =
    (runes "invoices", runes "invoice")
    ∷ (runes "documents", runes "document_import")
    ∷ (runes "users", runes "user")
    ∷ (runes "tenants", runes "tenant")
    ∷ (runes "branches", runes "branch")
    ∷ (runes "rules", runes "classification_rule")
    ∷ (runes "hitl", runes "hitl_queue")
    ∷ (runes "reviewers", runes "reviewer")
    ∷ (runes "reviewer-tasks", runes "reviewer_task")
    ∷ (runes "conversations", runes "conversation")
    ∷ (runes "messages", runes "message")
    ∷ (runes "archive", runes "archive")
    ∷ (runes "storage", runes "tenant_storage_config")
    ∷ (runes "reward", runes "reward_config")
    ∷ (runes "ocr", runes "ocr_config")
    ∷ (runes "auth", runes "auth")
    ∷ []

entity_type_in : Text → List (Text × Text) → Text
entity_type_in resource [] = resource
entity_type_in resource ((name, type) ∷ rest) =
    let other = entity_type_in resource rest in if name =ₜ resource then type else other

unfoldable pub resource_to_entity_type : Text → Text
unfolding entity_type_in
resource_to_entity_type resource = entity_type_in resource entity_types

-- The labels of the first `switch`: the action is the label.
abbrev pub special_actions : List Text
special_actions =
    runes "upload"
    ∷ runes "import"
    ∷ runes "export"
    ∷ runes "resolve"
    ∷ runes "reject"
    ∷ runes "accept"
    ∷ runes "complete"
    ∷ runes "restore"
    ∷ runes "payout"
    ∷ runes "test"
    ∷ runes "verify"
    ∷ []

unfoldable pub is_one_of : List Text → Text → Bool
is_one_of [] s = false
is_one_of (n ∷ ns) s = n =ₜ s || is_one_of ns s

module _ (u : UnicodeCase) where
  unfoldable pub method_action : Text → Text
  method_action method =
      if method =ₜ runes "POST"
      then runes "create"
      else if method =ₜ runes "PUT" || method =ₜ runes "PATCH"
      then runes "update"
      else if method =ₜ runes "DELETE"
      then runes "delete"
      else map u.lower method

  unfoldable pub action_of : (last method : Text) → Text
  action_of last method = if is_one_of special_actions last then last else method_action method

last_of : Text → List Text → Text
last_of s [] = s
last_of s (t ∷ ts) = last_of t ts

second_id : List Text → Text
second_id [] = []
second_id (s ∷ ss) = if looks_like_id s then s else []

pub record AuditInfo : Type 0 where
  pub action : Text
  pub entity_type : Text
  pub entity_id : Text

-- The segments are never none: `split` of the empty text is one empty segment.
info_of : UnicodeCase → Text → List Text → AuditInfo
info_of u method [] = record { action = method_action u method; entity_type = []; entity_id = [] }
info_of u method (s ∷ ss) = record {
  action = action_of u (last_of s ss) method;
  entity_type = resource_to_entity_type s;
  entity_id = second_id ss;
}

-- parseAuditInfo
unfoldable pub parse_audit_info : UnicodeCase → (method path : Text) → AuditInfo
unfolding last_of second_id info_of
parse_audit_info u method path =
    info_of u method (split 47 (trim_both 47 (trim_prefix path (runes "/api/v1/"))))

-- extractIP: the first part of X-Forwarded-For, X-Real-Ip, or the remote address without its port
unfoldable pub extract_ip : Request → Text
extract_ip r =
    if not (is_empty r.forwarded_for)
    then first_part 44 r.forwarded_for
    else if not (is_empty r.real_ip)
    then r.real_ip
    else before_last 58 r.remote_addr

entry : UnicodeCase → Request → Option Claims → Option AuditLog
entry u r none = none
entry u r (some claims) =
    let info = parse_audit_info u r.method r.path in
    some (record {
      tenant_id = claims.tenant_id;
      user_id = claims.user_id;
      action = info.action;
      entity_type = info.entity_type;
      entity_id = info.entity_id;
      ip_address = extract_ip r;
      device_info = r.user_agent;
    })

-- What auditMiddleware hands to CreateAuditLog for a request to which the handler has answered with
-- this status. The database may refuse the row, such as for an address of more than 45 runes or an id
-- that is no UUID; the error is only logged, and the table of the entries is not modelled.
unfoldable pub audit : UnicodeCase → Request → Option Claims → (status_code : ℕ) → Option AuditLog
unfolding entry
audit u r claims status_code =
    if r.method =ₜ runes "GET"
    then none
    else if ltb status_code 200 || leb 300 status_code
    then none
    else entry u r claims
