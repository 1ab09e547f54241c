-- ===== src/Queue/BranchCode.antt =====
-- backend/internal/queue/worker.go: `normalizeBranchCode`.
pub mod Laws
use tax_ocr.Prelude.{
  ℕ, zero, suc, ◌+◌, ◌-◌, ◌*◌, ◌/◌, ◌%◌, ◌==◌, leb, if◌then◌else◌, Bool, true, false, ◌&&◌, ◌||◌,
  Text, List, [], ◌∷◌, map, runes, ◌=ₜ◌, length,
}
use tax_ocr.GoStrings.{trim_space, is_digit}
use tax_ocr.GoStrings.Case.{UnicodeCase}

abbrev pub head_office_code : Text
head_office_code = runes "00000"

-- The labels of the `switch`.
abbrev pub head_office_names : List Text
head_office_names =
    runes "สำนักงานใหญ่"
    ∷ runes "สนญ."
    ∷ runes "สนญ"
    ∷ runes "HEAD OFFICE"
    ∷ runes "HQ"
    ∷ runes "HEADQUARTER"
    ∷ runes "00000"
    ∷ runes "0"
    ∷ []

pub is_one_of : List Text → Text → Bool
is_one_of [] s = false
is_one_of (n ∷ ns) s = n =ₜ s || is_one_of ns s

all_digits : Text → Bool
all_digits [] = true
all_digits (c ∷ s) = is_digit c && all_digits s

-- The pattern ^\d{1,5}$
unfoldable pub is_short_number : Text → Bool
unfolding all_digits
is_short_number s = all_digits s && leb 1 (length s) && leb (length s) 5

-- strconv.Atoi of digits.
atoi_from : ℕ → Text → ℕ
atoi_from n [] = n
atoi_from n (c ∷ s) = atoi_from (n * 10 + (c - 48)) s

unfoldable pub atoi : Text → ℕ
unfolding atoi_from
atoi s = atoi_from 0 s

-- fmt.Sprintf("%05d", n) for n below 100000.
pub five_digits : ℕ → Text
five_digits n =
    (48 + n / 10000 % 10)
    ∷ (48 + n / 1000 % 10)
    ∷ (48 + n / 100 % 10)
    ∷ (48 + n / 10 % 10)
    ∷ (48 + n % 10)
    ∷ []

module _ (u : UnicodeCase) where
  unfoldable pub is_head_office : Text → Bool
  is_head_office code = is_one_of head_office_names (map u.upper code)

  unfoldable pub normalize_branch_code : Text → Text
  normalize_branch_code code =
      let code = trim_space code in
      if is_head_office code
      then head_office_code
      else if is_short_number code
      then five_digits (atoi code)
      else code
