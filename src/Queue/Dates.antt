-- ===== src/Queue/Dates.antt =====
-- backend/internal/queue/worker.go: `parseInvoiceDate`. The three regular expressions are written as
-- functions. In each of them a group is followed by what it cannot match itself, so the longest match
-- of a group is the only one, and the search takes the first position that matches.
pub mod Laws
use tax_ocr.Prelude.{
  ℕ, suc, ◌+◌, ◌-◌, ◌*◌, ◌==◌, leb, if◌then◌else◌, Bool, true, false, ◌&&◌, ◌||◌, not, Option, none,
  some, Text, List, [], ◌∷◌, runes, ◌=ₜ◌, is_empty,
}
use tax_ocr.GoStrings.{trim_space, is_digit}

pub record Date : Type 0 where
  pub year : ℕ
  pub month : ℕ
  pub day : ℕ

-- A value that was matched, and the text behind it.
abbrev Match : Type 0 → Type 0
Match A = Option (A × Text)

value : ℕ → ℕ
value c = c - 48

-- (\d{1,2}), and its number
one_or_two_from : ℕ → Text → Match ℕ
one_or_two_from n [] = some (n, [])
one_or_two_from n (c ∷ s) = if is_digit c then some (n * 10 + value c, s) else some (n, c ∷ s)

one_or_two : Text → Match ℕ
one_or_two [] = none
one_or_two (c ∷ s) = if is_digit c then one_or_two_from (value c) s else none

-- (\d{4}), and its number
four : Text → Match ℕ
four (a ∷ b ∷ c ∷ d ∷ s) =
    if is_digit a && is_digit b && is_digit c && is_digit d
    then some (((value a * 10 + value b) * 10 + value c) * 10 + value d, s)
    else none
four (a ∷ b ∷ c ∷ []) = none
four (a ∷ b ∷ []) = none
four (a ∷ []) = none
four [] = none

-- [/\-.]
unfoldable pub is_separator : ℕ → Bool
is_separator c = c == 47 || c == 45 || c == 46

separator : Text → Match (Unit {0})
separator [] = none
separator (c ∷ s) = if is_separator c then some (tt, s) else none

-- \s
is_blank : ℕ → Bool
is_blank c = c == 9 || c == 10 || c == 12 || c == 13 || c == 32

skip_blanks : Text → Text
skip_blanks [] = []
skip_blanks (c ∷ s) = if is_blank c then skip_blanks s else c ∷ s

-- \s+
blanks : Text → Match (Unit {0})
blanks [] = none
blanks (c ∷ s) = if is_blank c then some (tt, skip_blanks s) else none

word_of : Text → Text × Text
word_of [] = ([], [])
word_of (c ∷ s) = let (w, rest) = word_of s in if is_blank c then ([], c ∷ s) else (c ∷ w, rest)

-- (\S+)
word : Text → Match Text
word s = let (w, rest) = word_of s in if is_empty w then none else some (w, rest)

infixl 10 ◌then◌
abbrev ◌then◌ : {A B : Type 0} → Match A → (A → Text → Option B) → Option B
none then k = none
some (a, s) then k = k a s

-- `if year >= 2400 { year -= 543 }`
unfoldable pub common_era : ℕ → ℕ
common_era year = if leb 2400 year then year - 543 else year

-- (\d{1,2})[/\-.](\d{1,2})[/\-.](\d{4}) at the start of the text
day_first_here : Text → Option Date
day_first_here s = one_or_two s then λ day s. separator s then λ _ s. one_or_two s then λ month s.
    separator s then λ _ s.
    four s then λ year s. some (record { year = common_era year; month = month; day = day })

-- (\d{4})[/\-.](\d{1,2})[/\-.](\d{1,2}) at the start of the text
year_first_here : Text → Option Date
year_first_here s = four s then λ year s. separator s then λ _ s. one_or_two s then λ month s.
    separator s then λ _ s.
    one_or_two s then λ day s. some (record { year = common_era year; month = month; day = day })

abbrev pub thai_months : List (Text × ℕ)
thai_months =
    (runes "มกราคม", 1)
    ∷ (runes "กุมภาพันธ์", 2)
    ∷ (runes "มีนาคม", 3)
    ∷ (runes "เมษายน", 4)
    ∷ (runes "พฤษภาคม", 5)
    ∷ (runes "มิถุนายน", 6)
    ∷ (runes "กรกฎาคม", 7)
    ∷ (runes "สิงหาคม", 8)
    ∷ (runes "กันยายน", 9)
    ∷ (runes "ตุลาคม", 10)
    ∷ (runes "พฤศจิกายน", 11)
    ∷ (runes "ธันวาคม", 12)
    ∷ (runes "ม.ค.", 1)
    ∷ (runes "ก.พ.", 2)
    ∷ (runes "มี.ค.", 3)
    ∷ (runes "เม.ย.", 4)
    ∷ (runes "พ.ค.", 5)
    ∷ (runes "มิ.ย.", 6)
    ∷ (runes "ก.ค.", 7)
    ∷ (runes "ส.ค.", 8)
    ∷ (runes "ก.ย.", 9)
    ∷ (runes "ต.ค.", 10)
    ∷ (runes "พ.ย.", 11)
    ∷ (runes "ธ.ค.", 12)
    ∷ []

month_named : Text → List (Text × ℕ) → Option ℕ
month_named w [] = none
month_named w ((name, n) ∷ months) =
    let rest = month_named w months in if name =ₜ w then some n else rest

-- (\d{1,2})\s+(\S+)\s+(\d{4}) at the start of the text: the match, before the month is looked up
long_here : Text → Option (ℕ × Text × ℕ)
long_here s = one_or_two s then λ day s. blanks s then λ _ s.
    word s then λ name s. blanks s then λ _ s. four s then λ year s. some (day, name, year)

or_later : {A : Type 0} → Option A → Option A → Option A
or_later none later = later
or_later (some a) later = some a

-- The match at the first position that has one.
unfoldable pub search_for : {A : Type 0} → (Text → Option A) → Text → Option A
unfolding or_later
search_for here [] = here []
search_for here (c ∷ s) = or_later (here (c ∷ s)) (search_for here s)

no_date : Date
no_date = record { year = 0; month = 0; day = 0 }

dated : ℕ → ℕ → Option ℕ → Date
dated day year none = no_date
dated day year (some month) = record { year = common_era year; month = month; day = day }

from_long : Option (ℕ × Text × ℕ) → Date
from_long none = no_date
from_long (some (day, name, year)) = dated day year (month_named name thai_months)

from_year_first : Option Date → Text → Date
from_year_first (some d) s = d
from_year_first none s = from_long (search_for long_here s)

from_day_first : Option Date → Text → Date
from_day_first (some d) s = d
from_day_first none s = from_year_first (search_for year_first_here s) s

-- The date; 0 for all three where there is none.
unfoldable pub parse_invoice_date : Text → Date
unfolding value one_or_two_from one_or_two four is_separator separator is_blank skip_blanks blanks
    word_of word day_first_here year_first_here month_named long_here or_later no_date dated
    from_long from_year_first from_day_first
parse_invoice_date s =
    let s = trim_space s in
    if is_empty s then no_date else from_day_first (search_for day_first_here s) s
