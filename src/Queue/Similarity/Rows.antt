-- ===== src/Queue/Similarity/Rows.antt =====
-- The rows of the table hold the distances between prefixes. A prefix that the loops have passed
-- is kept backwards, so that its last rune stands at its head.
use tax_ocr.Prelude.{ℕ, suc, ◌+◌, ◌≡◌, refl, ap, List, Text, [], ◌∷◌, length, arith}
use tax_ocr.Queue.Similarity.{count_from, fill_row, next_row, fill_rows, last, levenshtein}
use tax_ocr.Queue.Similarity.Script.{distance, min3-eq-min}

-- The first text backwards, on top of the second.
abbrev pub onto : Text → Text → Text
onto [] p = p
onto (x ∷ xs) p = onto xs (x ∷ p)

-- Row `p` right of the column `q`, and with that column.
abbrev row_right : Text → Text → Text → List ℕ
row_right p q [] = []
row_right p q (y ∷ ys) = distance p (y ∷ q) ∷ row_right p (y ∷ q) ys

abbrev row : Text → Text → Text → List ℕ
row p q ys = distance p q ∷ row_right p q ys

count_from-eq-row : (q ys : Text) → count_from (length q) ys ≡ row [] q ys
unfolding count_from distance
count_from-eq-row q [] = refl
count_from-eq-row q (y ∷ ys) = ap (λ r. length q ∷ r) (count_from-eq-row (y ∷ q) ys)

fill_row-eq-row :
    (x : ℕ) (p q ys : Text)
    → fill_row x (distance (x ∷ p) q) (distance p q) (row_right p q ys) ys ≡ row_right (x ∷ p) q ys
unfolding fill_row distance
fill_row-eq-row x p q [] = refl
fill_row-eq-row x p q (y ∷ ys) =
    rw min3-eq-min (ap (λ r. distance (x ∷ p) (y ∷ q) ∷ r) (fill_row-eq-row x p (y ∷ q) ys))

next_row-eq-row :
    (x : ℕ) (p ys : Text) → next_row (suc (length p)) x (row p [] ys) ys ≡ row (x ∷ p) [] ys
unfolding next_row distance
next_row-eq-row x p ys = ap (λ r. suc (length p) ∷ r) (fill_row-eq-row x p [] ys)

fill_rows-eq-row :
    (xs p ys : Text) → fill_rows (suc (length p)) xs (row p [] ys) ys ≡ row (onto xs p) [] ys
unfolding fill_rows
fill_rows-eq-row [] p ys = refl
fill_rows-eq-row (x ∷ xs) p ys = rw (next_row-eq-row x p ys) (fill_rows-eq-row xs (x ∷ p) ys)

last-row : (p q ys : Text) → last (row p q ys) ≡ distance p (onto ys q)
unfolding last
last-row p q [] = refl
last-row p q (y ∷ ys) = last-row p (y ∷ q) ys

pub levenshtein-eq-distance : (a b : Text) → levenshtein a b ≡ distance (onto a []) (onto b [])
unfolding levenshtein
levenshtein-eq-distance a b =
    rw (count_from-eq-row [] b, fill_rows-eq-row a [] b) (last-row (onto a []) [] b)

pub length-onto : (a p : Text) → length (onto a p) ≡ length a + length p
length-onto [] p = omega arith
length-onto (x ∷ a) p = omega (arith, length-onto a (x ∷ p))
