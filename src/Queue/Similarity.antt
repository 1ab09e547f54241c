-- ===== src/Queue/Similarity.antt =====
-- backend/internal/queue/worker.go: `min3` and the edit distance inside `stringSimilarity`.
-- The rows of the table are lists; the loop over `j` walks the previous row, whose head is
-- `prev[j-1]`, beside the runes of `b`.
pub mod Script
mod Rows
pub mod Laws
use tax_ocr.Prelude.{ℕ, suc, ◌+◌, ltb, ◌==◌, if◌then◌else◌, ◌&&◌, ◌||◌, List, [], ◌∷◌, Text, length}
use tax_ocr.Float.{Float64}
use tax_ocr.GoStrings.{trim_space}

pub min3 : ℕ → ℕ → ℕ → ℕ
min3 a b c = if ltb a b then (if ltb a c then a else c) else (if ltb b c then b else c)

-- `cost` of the loop body.
pub cost : ℕ → ℕ → ℕ
cost x y = if x == y then 0 else 1

-- `prev[j] = j`, from `j` on.
count_from : ℕ → Text → List ℕ
count_from j [] = j ∷ []
count_from j (y ∷ ys) = j ∷ count_from (suc j) ys

-- The loop over `j`: `left` is `curr[j-1]`, already written; `diag` is `prev[j-1]`.
fill_row : (x left diag : ℕ) → List ℕ → Text → List ℕ
fill_row x left diag (above ∷ prev) (y ∷ ys) =
    let cell = min3 (left + 1) (above + 1) (diag + cost x y) in cell ∷ fill_row x cell above prev ys
fill_row x left diag _ _ = []

-- One round of the loop over `i`, whose rune is `x`.
next_row : (i x : ℕ) → List ℕ → Text → List ℕ
next_row i x [] ys = i ∷ []
next_row i x (diag ∷ prev) ys = i ∷ fill_row x i diag prev ys

-- The loop over `i`, from `i` on; the result is the last `prev`.
fill_rows : ℕ → Text → List ℕ → Text → List ℕ
fill_rows i [] prev ys = prev
fill_rows i (x ∷ xs) prev ys = fill_rows (suc i) xs (next_row i x prev ys) ys

-- `prev[lb]`
last : List ℕ → ℕ
last [] = 0
last (d ∷ []) = d
last (d ∷ e ∷ r) = last (e ∷ r)

-- `dist`
pub levenshtein : Text → Text → ℕ
levenshtein a b = last (fill_rows 1 a (count_from 0 b) b)

module _ (f : Float64) where
  open f use {F, lit, of_int, sub, div}

  -- The ratio, from 0.0 to 1.0.
  unfoldable pub string_similarity : Text → Text → F
  string_similarity a b =
      let ra = trim_space a in
      let rb = trim_space b in
      let la = length ra in
      let lb = length rb in
      if la == 0 && lb == 0
      then lit 10 1
      else if la == 0 || lb == 0
      then lit 0 1
      else (let max_len = if ltb la lb then lb else la in
          sub (lit 10 1) (div (of_int (levenshtein ra rb)) (of_int max_len)))
