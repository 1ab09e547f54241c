-- ===== src/Prelude/Runes.antt =====
-- Text as the sequence of its runes: the values of Go strings that the program walks through.
use Prim.Native.Nat.{ℕ}
use Prim.Native.Char.{code}
use Prim.Native.String.{String}
use mathlib.Core.Path.{◌≡◌, refl, ap₂}
use mathlib.Core.Logic.{◌↔◌}
use mathlib.Core.Bool.{Bool, true, false, ◌&&◌}
use mathlib.Core.List.{List, [], ◌∷◌}
use native.Mathlib.Omega.{arith}
use tax_ocr.Prelude.Tests.{◌==◌, ==→eq, &&-eq_true, ==_refl}

abbrev pub Text : Type 0
Text = List ℕ

-- The runes of a literal.
abbrev pub runes : String → Text
runes String.[] = []
runes (String.◌∷◌ c s) = code c ∷ runes s

-- Go's `==` on strings.
infix 50 ◌=ₜ◌
unfoldable pub ◌=ₜ◌ : Text → Text → Bool
[] =ₜ [] = true
[] =ₜ (y ∷ ys) = false
(x ∷ xs) =ₜ [] = false
(x ∷ xs) =ₜ (y ∷ ys) = x == y && xs =ₜ ys

pub =ₜ_refl : (s : Text) → (s =ₜ s) ≡ true
unfolding ◌=ₜ◌
=ₜ_refl [] = refl
=ₜ_refl (x ∷ xs) = ground (arith, =ₜ_refl xs, ==_refl x)

pub =ₜ→eq : (s t : Text) → (s =ₜ t) ≡ true → s ≡ t
unfolding ◌=ₜ◌
=ₜ→eq [] [] h = refl
=ₜ→eq [] (y ∷ ys) h = cc
=ₜ→eq (x ∷ xs) [] h = cc
=ₜ→eq (x ∷ xs) (y ∷ ys) h =
    let (p, q) = &&-eq_true (x == y) (xs =ₜ ys) h in
    ap₂ (λ a b. a ∷ b) (==→eq x y p) (=ₜ→eq xs ys q)

-- `s == ""`
unfoldable pub is_empty : Text → Bool
is_empty [] = true
is_empty (x ∷ xs) = false

pub =ₜ_iff : (s t : Text) → ((s =ₜ t) ≡ true) ↔ (s ≡ t)
=ₜ_iff s t = (=ₜ→eq s t, λ e. rw e (=ₜ_refl t))

pub is_empty_iff : (s : Text) → (is_empty s ≡ true) ↔ (s ≡ [])
unfolding is_empty
is_empty_iff [] = (λ h. refl, λ h. refl)
is_empty_iff (x ∷ xs) = (λ h. cc, λ h. cc)
