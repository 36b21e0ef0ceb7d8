-- ===== src/Base/Sort.antt =====
-- Insertion sort by a Boolean order. It is stable, so that it stands for `sort_by` as well.
use Prim.Native.Nat.{ℕ, ◌+◌}
use mathlib.Core.Bool.{Bool, ◌&&◌, ◌||◌}
use mathlib.Core.List.{List, [], ◌∷◌}
use mathlib.Core.Logic.{inl, inr}
use mathlib.Core.Path.{◌≡◌, refl, ◌∙◌}
use native.Mathlib.Omega.{arith}
use peony.Base.Lists.{length}
use peony.Base.Tests.{if◌then◌else◌, ltb, leb, ◌==◌, Bool-cases}

module _ {ℓ} {A : Type ℓ} (le : A → A → Bool) where
  unfoldable pub insert_by : A → List A → List A
  insert_by x [] = x ∷ []
  insert_by x (y ∷ ys) = let rest = insert_by x ys in if le x y then x ∷ y ∷ ys else y ∷ rest

  unfoldable pub sort_unstable_by : List A → List A
  sort_unstable_by [] = []
  sort_unstable_by (x ∷ xs) = insert_by x (sort_unstable_by xs)

  length-insert_by : (x : A) (ys : List A) → length (insert_by x ys) ≡ length ys + 1
  unfolding insert_by
  length-insert_by x [] = refl
  length-insert_by x (y ∷ ys) = elim (Bool-cases (le x y)) [
    | inl h ↦ rw (h, insert_by) (ground arith)
    | inr h ↦ rw (h, insert_by) (ground (arith, length-insert_by x ys))
  ]

  pub length-sort_unstable_by : (xs : List A) → length (sort_unstable_by xs) ≡ length xs
  unfolding sort_unstable_by
  length-sort_unstable_by [] = refl
  length-sort_unstable_by (x ∷ xs) =
      length-insert_by x (sort_unstable_by xs) ∙ ground (arith, length-sort_unstable_by xs)

-- The lexicographic order of pairs of words.
abbrev pub pair_le : ℕ × ℕ → ℕ × ℕ → Bool
pair_le (a, b) (c, d) = ltb a c || (a == c && leb b d)
