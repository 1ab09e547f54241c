-- ===== src/Db/Listings/Laws.antt =====
-- What a listing shows, and in which order.
use tax_ocr.Prelude.{ℕ, ◌+◌, ◌≤◌, Bool, if◌then◌else◌, List, [], ◌∷◌, All}

module _ {A : Type 0} where
  -- No row is older than one behind it.
  abbrev pub IsNewestFirst : (A → ℕ) → List A → Type 0
  IsNewestFirst time [] = Unit
  IsNewestFirst time (x ∷ xs) = All (λ y. time y ≤ time x) xs × IsNewestFirst time xs

  -- How many rows satisfy a test.
  unfoldable pub count : (A → Bool) → List A → ℕ
  count p [] = 0
  count p (x ∷ xs) = (if p x then 1 else 0) + count p xs
