-- ===== src/Emit/Ranges/Sort.antt =====
-- `WorkRange` and its order in peony-emit/src/input_work/ranges.rs: ranges are sorted by the key
-- `(start, end, item_index)`, which `sort_unstable_by_key` does; here by insertion.
use peony.Base.{
  ℕ, ◌≤◌, ◌⊎◌, inl, inr, Bool, true, false, List, [], ◌∷◌, arith, ltb, leb, if◌then◌else◌, All,
}

pub record WorkRange : Type 0 where
  pub item_index : ℕ
  pub start : ℕ
  pub end : ℕ

-- Lexicographic order on the keys.
unfoldable pub key_le : WorkRange → WorkRange → Bool
key_le a b =
    if ltb a.start b.start
    then true
    else if ltb b.start a.start
    then false
    else if ltb a.end b.end
    then true
    else if ltb b.end a.end
    then false
    else leb a.item_index b.item_index

unfoldable pub insert : WorkRange → List WorkRange → List WorkRange
insert r [] = r ∷ []
insert r (x ∷ xs) = if key_le r x then r ∷ x ∷ xs else x ∷ insert r xs

unfoldable pub sort : List WorkRange → List WorkRange
unfolding insert key_le
sort [] = []
sort (x ∷ xs) = insert x (sort xs)

-- The ranges share no byte.
abbrev pub Disjoint : WorkRange → WorkRange → Type 0
Disjoint a b = (a.end ≤ b.start) ⊎ (b.end ≤ a.start)

pub Disjoint-sym : (a b : WorkRange) → Disjoint a b → Disjoint b a
Disjoint-sym a b (inl h) = inr h
Disjoint-sym a b (inr h) = inl h

-- Any two ranges of the list, at different places, share no byte.
abbrev pub Apart : List WorkRange → Type 0
Apart [] = Unit {0}
Apart (r ∷ rs) = All (Disjoint r) rs × Apart rs

-- A list in the order of the sort, as far as the starts go.
abbrev pub Ascending : List WorkRange → Type 0
Ascending [] = Unit {0}
Ascending (r ∷ rs) = All (λ x. r.start ≤ x.start) rs × Ascending rs

module _ {κ} (P : WorkRange → Type κ) where
  pub All-insert : (r : WorkRange) (xs : List WorkRange) → P r → All P xs → All P (insert r xs)
  unfolding insert
  All-insert r [] h a = (h, a)
  All-insert r (x ∷ xs) h a = ground (arith, All-insert r xs h a.1)

  pub All-uninsert : (r : WorkRange) (xs : List WorkRange) → All P (insert r xs) → P r × All P xs
  unfolding insert
  All-uninsert r [] a = a
  All-uninsert r (x ∷ xs) a = ground (arith, All-uninsert r xs)

  pub All-sort : (xs : List WorkRange) → All P xs → All P (sort xs)
  unfolding sort
  All-sort [] a = a
  All-sort (x ∷ xs) a = All-insert x (sort xs) a.0 (All-sort xs a.1)

  pub All-unsort : (xs : List WorkRange) → All P (sort xs) → All P xs
  unfolding sort
  All-unsort [] a = a
  All-unsort (x ∷ xs) a = let (h, t) = All-uninsert x (sort xs) a in (h, All-unsort xs t)
