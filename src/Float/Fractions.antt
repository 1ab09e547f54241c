-- ===== src/Float/Fractions.antt =====
-- Exact fractions as an instance of the interface: what the examples compute with.
use tax_ocr.Prelude.{
  ℕ, ◌+◌, ◌-◌, ◌*◌, ◌^◌, ◌≤◌, ◌<◌, ◌≡◌, Bool, true, ltb, leb, ◌==◌, if◌then◌else◌, arith, refl,
}
use tax_ocr.Float.Base.{Float64, IsIeee}

-- (plus - minus) / over
pub record Fraction : Type 0 where
  pub plus : ℕ
  pub minus : ℕ
  pub over : ℕ

abbrev pub frac : ℕ → ℕ → ℕ → Fraction
frac p n d = record { plus = p; minus = n; over = d }

abbrev pub sub_frac : Fraction → Fraction → Fraction
sub_frac x y =
    frac (x.plus * y.over + y.minus * x.over) (x.minus * y.over + y.plus * x.over) (x.over * y.over)

abbrev pub div_frac : Fraction → Fraction → Fraction
div_frac x y =
    if leb y.minus y.plus
    then frac (x.plus * y.over) (x.minus * y.over) (x.over * (y.plus - y.minus))
    else frac (x.minus * y.over) (x.plus * y.over) (x.over * (y.minus - y.plus))

abbrev pub abs_frac : Fraction → Fraction
abs_frac x =
    if leb x.minus x.plus
    then frac (x.plus - x.minus) 0 x.over
    else frac (x.minus - x.plus) 0 x.over

abbrev pub lt_frac : Fraction → Fraction → Bool
lt_frac x y = ltb (x.plus * y.over + y.minus * x.over) (y.plus * x.over + x.minus * y.over)

abbrev pub le_frac : Fraction → Fraction → Bool
le_frac x y = leb (x.plus * y.over + y.minus * x.over) (y.plus * x.over + x.minus * y.over)

abbrev pub fractions : Float64
fractions = record {
  F = Fraction;
  lit = λ n k. frac n 0 (10 ^ k);
  of_int = λ n. frac n 0 1;
  add = λ x y.
      frac (x.plus * y.over + y.plus * x.over) (x.minus * y.over + y.minus * x.over)
        (x.over * y.over);
  sub = sub_frac;
  mul = λ x y.
      frac (x.plus * y.plus + x.minus * y.minus) (x.plus * y.minus + x.minus * y.plus)
        (x.over * y.over);
  div = div_frac;
  abs = abs_frac;
  lt = lt_frac;
  le = le_frac;
  eq = λ x y. x.plus * y.over + y.minus * x.over == y.plus * x.over + x.minus * y.over;
}

pub abs_sub_self :
    (x : Fraction) (n k : ℕ) → le_frac (abs_frac (sub_frac x x)) (frac n 0 (10 ^ k)) ≡ true
abs_sub_self x n k = ground arith

pub ratio_lt :
    (d m : ℕ)
    → 0 < m
    → d ≤ m
    → lt_frac (sub_frac (frac 10 0 10) (div_frac (frac d 0 1) (frac m 0 1))) (frac 85 0 100)
      ≡ ltb (3 * m) (20 * d)
ratio_lt d m p q = ground arith

abbrev pub fractions-IsIeee : IsIeee fractions
fractions-IsIeee = record {
  IsFinite = λ x. Unit;
  abs-sub_self = λ x n k h. abs_sub_self x n k;
  eq-zero = refl;
  zero-lt = refl;
  one-lt = refl;
  ratio-lt = λ d m p q r. ratio_lt d m p q;
}
