-- ===== src/GoStrings/Case.antt =====
-- Letter case. The tables of Unicode are not part of the program: they are a parameter.
use tax_ocr.Prelude.{ℕ, ◌≡◌, ◌≤◌, leb, if◌then◌else◌, ◌&&◌, arith, ◌+◌, ◌-◌}

pub record UnicodeCase : Type 0 where
  -- unicode.ToUpper and unicode.ToLower
  pub upper : ℕ → ℕ
  pub lower : ℕ → ℕ

-- What is known of them: digits have no case.
pub record IsUnicode (u : UnicodeCase) : Type 0 where
  pub upper-digit : (c : ℕ) → 48 ≤ c → c ≤ 57 → u.upper c ≡ c

-- The ASCII part of the tables.
abbrev pub ascii : UnicodeCase
ascii = record {
  upper = λ c. if leb 97 c && leb c 122 then c - 32 else c;
  lower = λ c. if leb 65 c && leb c 90 then c + 32 else c;
}

upper_digit : (c : ℕ) → 48 ≤ c → c ≤ 57 → ascii.upper c ≡ c
upper_digit c p q = ground arith

pub ascii-IsUnicode : IsUnicode ascii
ascii-IsUnicode = record { upper-digit = upper_digit }
