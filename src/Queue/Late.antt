-- ===== src/Queue/Late.antt =====
-- backend/internal/queue/worker.go: the test of `handleProcessInvoice` whether an invoice is late.
-- `time.Date` takes month 0 as December of the year before and day 0 as the last day of the month
-- before, and a month above 12 or a day above the month's last as later ones.
use tax_ocr.Prelude.{
  ℕ, ◌+◌, ◌-◌, ◌*◌, ◌/◌, ◌%◌, ◌==◌, ltb, leb, Bool, ◌&&◌, ◌||◌, not, if◌then◌else◌, ◌≡◌, refl,
}
use tax_ocr.Queue.Dates.{Date}

unfoldable pub is_leap : ℕ → Bool
is_leap y = y % 4 == 0 && (not (y % 100 == 0) || y % 400 == 0)

-- The days before the first of January of year `y`, since that of year 0.
unfoldable pub days_before_year : ℕ → ℕ
days_before_year y = y * 365 + (y + 3) / 4 - (y + 99) / 100 + (y + 399) / 400

-- The days before a month of a year that is no leap year.
unfoldable pub days_before_month : ℕ → ℕ
days_before_month m =
    if leb m 1
    then 0
    else if m == 2
    then 31
    else if m == 3
    then 59
    else if m == 4
    then 90
    else if m == 5
    then 120
    else if m == 6
    then 151
    else if m == 7
    then 181
    else if m == 8
    then 212
    else if m == 9
    then 243
    else if m == 10
    then 273
    else if m == 11
    then 304
    else 334

-- The days before the day of a date, 1 more than their number so that day 0 has one; `y` and `m`
-- are such that 1 ≤ m ≤ 12.
civil_days : (y m d : ℕ) → ℕ
civil_days y m d =
    days_before_year y + days_before_month m + (if is_leap y && ltb 2 m then 1 else 0) + d

-- The days from the day before 0000-01-01 to the date, for a year that is not 0.
unfoldable pub day_number : Date → ℕ
unfolding civil_days
day_number date =
    if date.month == 0
    then civil_days (date.year - 1) 12 date.day
    else civil_days (date.year + (date.month - 1) / 12) ((date.month - 1) % 12 + 1) date.day

-- 1970-01-01 is day 719529. time.Since(invoiceDate) > 90*24*time.Hour, for `now` in seconds.
unfoldable pub is_late : (now : ℕ) → Date → Bool
is_late now date = ltb ((day_number date + 90) * 86400) (now + 719529 * 86400)

epoch : day_number (record { year = 1970; month = 1; day = 1 }) ≡ 719529
unfolding day_number days_before_year days_before_month is_leap
epoch = refl
