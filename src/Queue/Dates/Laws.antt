-- ===== src/Queue/Dates/Laws.antt =====
-- The two numeric forms of a date are read as the same date.
use tax_ocr.Prelude.{
  ℕ, ◌+◌, ◌*◌, ◌/◌, ◌%◌, ◌<◌, ◌≡◌, refl, true, false, Text, [], ◌∷◌, arith, none, some, is_empty,
}
use tax_ocr.GoStrings.{trim_space, is_digit, is_space}
use tax_ocr.GoStrings.Trim.{trim_space_bare, is_space-digit}
use tax_ocr.Queue.Dates.{
  value, one_or_two, one_or_two_from, four, is_separator, separator, common_era, day_first_here,
  year_first_here, or_later, search_for, from_day_first, from_year_first, parse_invoice_date,
}

-- n as two digits, and as four, before the text s
abbrev pub two_digits : ℕ → Text → Text
two_digits n s = (48 + n / 10 % 10) ∷ (48 + n % 10) ∷ s

abbrev pub four_digits : ℕ → Text → Text
four_digits n s =
    (48 + n / 1000 % 10) ∷ (48 + n / 100 % 10) ∷ (48 + n / 10 % 10) ∷ (48 + n % 10) ∷ s

-- DD/MM/YYYY and YYYY/MM/DD with a separator of one's choice
abbrev pub day_first : (separator : ℕ) (year month day : ℕ) → Text
day_first c year month day = two_digits day (c ∷ two_digits month (c ∷ four_digits year []))

abbrev pub year_first : (separator : ℕ) (year month day : ℕ) → Text
year_first c year month day = four_digits year (c ∷ two_digits month (c ∷ two_digits day []))

-- What the pattern [/\-.] matches.
abbrev pub IsSeparator : ℕ → Type 0
IsSeparator c = is_separator c ≡ true

separator_facts : (c : ℕ) → IsSeparator c → (is_digit c ≡ false) × (is_space c ≡ false)
unfolding is_separator is_digit is_space
separator_facts c h = ground arith

digit_facts : (n : ℕ) → n < 10 → (is_digit (48 + n) ≡ true) × (is_separator (48 + n) ≡ false)
unfolding is_separator is_digit
digit_facts n h = ground arith

-- A rune that is a digit and no separator.
Plain : ℕ → Type 0
Plain c = (is_digit c ≡ true) × (is_separator c ≡ false)

module _ (a b c d e f g h p : ℕ) (da : Plain a) (db : Plain b) (dc : Plain c) (dd : Plain d)
    (de : Plain e) (df : Plain f) (dg : Plain g) (dh : Plain h) (sep : IsSeparator p)
    (other : is_digit p ≡ false) where
  read_day_first :
      search_for day_first_here (a ∷ b ∷ p ∷ c ∷ d ∷ p ∷ e ∷ f ∷ g ∷ h ∷ [])
      ≡ some (record {
        year = common_era (((value e * 10 + value f) * 10 + value g) * 10 + value h);
        month = value c * 10 + value d;
        day = value a * 10 + value b;
      })
  unfolding search_for day_first_here one_or_two one_or_two_from separator four or_later Plain
  read_day_first = simp (da.0, db.0, dc.0, dd.0, de.0, df.0, dg.0, dh.0, sep)

  read_year_first :
      search_for year_first_here (a ∷ b ∷ c ∷ d ∷ p ∷ e ∷ f ∷ p ∷ g ∷ h ∷ [])
      ≡ some (record {
        year = common_era (((value a * 10 + value b) * 10 + value c) * 10 + value d);
        month = value e * 10 + value f;
        day = value g * 10 + value h;
      })
  unfolding search_for year_first_here one_or_two one_or_two_from separator four or_later Plain
  read_year_first = simp (da.0, db.0, dc.0, dd.0, de.0, df.0, dg.0, dh.0, sep)

  not_day_first : search_for day_first_here (a ∷ b ∷ c ∷ d ∷ p ∷ e ∷ f ∷ p ∷ g ∷ h ∷ []) ≡ none
  unfolding search_for day_first_here one_or_two one_or_two_from separator four or_later Plain
  not_day_first = simp (da.0, db.0, dc.0, dd.0, de.0, df.0, dg.0, dh.0, sep, other, dc.1, dd.1)

two_value : (n : ℕ) → n < 100 → value (48 + n / 10 % 10) * 10 + value (48 + n % 10) ≡ n
unfolding value
two_value n h = omega arith

four_value :
    (n : ℕ)
    → n < 10000
    → ((value (48 + n / 1000 % 10) * 10 + value (48 + n / 100 % 10)) * 10
            + value (48 + n / 10 % 10))
          * 10
        + value (48 + n % 10)
      ≡ n
unfolding value
four_value n h = omega arith

digit_at : (n : ℕ) → Plain (48 + n % 10)
unfolding Plain
digit_at n = digit_facts (n % 10) (omega arith)

bare_digit : (n : ℕ) → is_space (48 + n % 10) ≡ false
bare_digit n = is_space-digit (n % 10) (omega arith)

module _ (c year month day : ℕ) (sep : IsSeparator c) where
  day_first-trim_space : trim_space (day_first c year month day) ≡ day_first c year month day
  day_first-trim_space =
      let p = (separator_facts c sep).1 in
      trim_space_bare _ (
        bare_digit (day / 10),
        (
          bare_digit day,
          (
            p,
            (
              bare_digit (month / 10),
              (
                bare_digit month,
                (
                  p,
                  (
                    bare_digit (year / 1000),
                    (bare_digit (year / 100), (bare_digit (year / 10), (bare_digit year, tt))),
                  ),
                ),
              ),
            ),
          ),
        ),
      )

  year_first-trim_space : trim_space (year_first c year month day) ≡ year_first c year month day
  year_first-trim_space =
      let p = (separator_facts c sep).1 in
      trim_space_bare _ (
        bare_digit (year / 1000),
        (
          bare_digit (year / 100),
          (
            bare_digit (year / 10),
            (
              bare_digit year,
              (
                p,
                (
                  bare_digit (month / 10),
                  (bare_digit month, (p, (bare_digit (day / 10), (bare_digit day, tt)))),
                ),
              ),
            ),
          ),
        ),
      )

-- A date of a day and a month below 100 and a year below 10000, written with two and four digits, is
-- read back, day first or year first, with any of the three separators; a year of the Buddhist era,
-- from 2400 on, is read as the year 543 before it.
pub parse_invoice_date_numeric :
    (c year month day : ℕ)
    → IsSeparator c
    → year < 10000
    → month < 100
    → day < 100
    → (parse_invoice_date (day_first c year month day)
        ≡ record { year = common_era year; month = month; day = day })
      × (parse_invoice_date (year_first c year month day)
          ≡ record { year = common_era year; month = month; day = day })
unfolding parse_invoice_date from_day_first from_year_first is_empty
parse_invoice_date_numeric c year month day sep y m d =
    let other = (separator_facts c sep).0 in
    let y1 = digit_at (year / 1000) in
    let y2 = digit_at (year / 100) in
    let y3 = digit_at (year / 10) in
    let y4 = digit_at year in
    let m1 = digit_at (month / 10) in
    let m2 = digit_at month in
    let d1 = digit_at (day / 10) in
    let d2 = digit_at day in
    (
      rw
          (
            day_first-trim_space c year month day sep,
            read_day_first _ _ _ _ _ _ _ _ c d1 d2 m1 m2 y1 y2 y3 y4 sep other,
            two_value day d,
            two_value month m,
            four_value year y,
          )
          refl,
      rw
          (
            year_first-trim_space c year month day sep,
            not_day_first _ _ _ _ _ _ _ _ c y1 y2 y3 y4 m1 m2 d1 d2 sep other,
            read_year_first _ _ _ _ _ _ _ _ c y1 y2 y3 y4 m1 m2 d1 d2 sep other,
            two_value day d,
            two_value month m,
            four_value year y,
          )
          refl,
    )
