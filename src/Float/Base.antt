-- ===== src/Float/Base.antt =====
-- Go's float64 as an interface: the operations that the program calls and the facts of IEEE 754
-- arithmetic that it relies on. The type and its operations are parameters of the modules that
-- use it.

use tax_ocr.Prelude.{ℕ, ◌*◌, ◌^◌, ◌≤◌, ◌<◌, ◌≡◌, Bool, true, false, ltb}

-- The operations on float64. `lit n k` is the constant that Go source writes with the digits `n`
-- and `k` decimals: 0.85 is `lit 85 2`.
pub record Float64 : Type 1 where
  pub F : Type 0
  pub lit : ℕ → ℕ → F
  -- float64(n) for an int n that is at least 0
  pub of_int : ℕ → F
  pub add : F → F → F
  pub sub : F → F → F
  pub mul : F → F → F
  pub div : F → F → F
  -- math.Abs
  pub abs : F → F
  pub lt : F → F → Bool
  pub le : F → F → Bool
  -- `==`
  pub eq : F → F → Bool

-- What is known of them. `IsFinite` excludes the infinities and NaN.
module _ (f : Float64) where
  open f use {F, lit, of_int, sub, div, abs, lt, le, eq}

  pub record IsIeee : Type 1 where
    pub IsFinite : F → Type 0
    -- a finite number less itself is 0, and 0 is within every constant tolerance
    pub abs-sub_self : (x : F) (n k : ℕ) → IsFinite x → le (abs (sub x x)) (lit n k) ≡ true
    -- constants compare as the numbers that they stand for
    pub eq-zero : eq (lit 0 0) (lit 0 0) ≡ true
    pub zero-lt : lt (lit 0 1) (lit 85 2) ≡ true
    pub one-lt : lt (lit 10 1) (lit 85 2) ≡ false
    -- 1.0 - d/m compares with 0.85 as the exact fraction does, for a fraction of small integers
    pub ratio-lt :
        (d m : ℕ)
        → 0 < m
        → d ≤ m
        → m < 2 ^ 40
        → lt (sub (lit 10 1) (div (of_int d) (of_int m))) (lit 85 2) ≡ ltb (3 * m) (20 * d)
