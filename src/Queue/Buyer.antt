-- ===== src/Queue/Buyer.antt =====
-- backend/internal/queue/worker.go: `validateBuyer`.
pub mod Laws
use tax_ocr.Prelude.{String, ◌=ₛ◌, if◌then◌else◌, not, ◌&&◌, Text, ◌=ₜ◌, is_empty}
use tax_ocr.Float.{Float64}
use tax_ocr.GoStrings.Case.{UnicodeCase}
use tax_ocr.Db.Types.{Tenant, Branch}
use tax_ocr.Queue.Similarity.{string_similarity}
use tax_ocr.Queue.BranchCode.{normalize_branch_code}

-- (status, reason); no complaint is two empty strings.
abbrev pub Verdict : Type 0
Verdict = String × String

abbrev pub no_complaint : Verdict
no_complaint = ("", "")

abbrev pub invalid : String → Verdict
invalid reason = ("invalid", reason)

module _ (f : Float64) (u : UnicodeCase) where
  unfoldable pub validate_buyer : String → Text → Text → Text → Tenant → Branch → Verdict
  validate_buyer doc_type buyer_tax_id buyer_branch_code buyer_name tenant branch =
      let norm_buyer = normalize_branch_code u buyer_branch_code in
      let norm_branch = normalize_branch_code u branch.code in
      if not (doc_type =ₛ "tax_invoice") && not (doc_type =ₛ "")
      then no_complaint
      else if not (is_empty buyer_tax_id) && not (buyer_tax_id =ₜ tenant.tax_id)
      then invalid "buyer_tax_id_mismatch"
      else if not (is_empty norm_buyer)
          && (not (is_empty norm_branch) && not (norm_buyer =ₜ norm_branch))
      then invalid "buyer_branch_code_mismatch"
      else if (not (is_empty buyer_name) && not (is_empty tenant.name))
          && f.lt (string_similarity f buyer_name tenant.name) (f.lit 85 2)
      then invalid "buyer_name_mismatch"
      else no_complaint
