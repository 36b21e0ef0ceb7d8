-- ===== src/Emit/Ranges/Disjoint.antt =====
-- `validate_work_ranges` (peony-emit/src/input_work/ranges.rs) accepts exactly the lists of ranges
-- of which no two share a byte.
use peony.Base.{
  ◌≤◌, ◌<◌, ◌≡◌, refl, inl, inr, ◌↔◌, true, false, List, [], ◌∷◌, none, some, arith, Bool-cases,
  All,
}
use peony.Emit.Errors.{ok}
use peony.Emit.Ranges.Sort.{
  WorkRange, sort, insert, key_le, Disjoint, Apart, Ascending, Disjoint-sym, All-insert,
  All-uninsert, All-sort, All-unsort,
}
use peony.Emit.Ranges.{AcceptedWorkRanges, all_placed, check_overlap, validate_work_ranges}

-- A range of at least one byte.
abbrev pub IsFull : WorkRange → Type 0
IsFull r = r.start < r.end

All-imp {κ μ} :
    {P : WorkRange → Type κ} {Q : WorkRange → Type μ} (xs : List WorkRange)
    → ((x : WorkRange) → P x → Q x)
    → All P xs
    → All Q xs
All-imp [] f a = tt
All-imp (x ∷ xs) f a = (f x a.0, All-imp xs f a.1)

Apart-insert :
    (r : WorkRange) (xs : List WorkRange) → All (Disjoint r) xs → Apart xs → Apart (insert r xs)
unfolding insert
Apart-insert r [] h a = (tt, tt)
Apart-insert r (x ∷ xs) h a = elim (Bool-cases (key_le r x)) [
  | inl e ↦ rw e (h, a)
  | inr e ↦ rw e (All-insert (Disjoint x) r xs (omega arith) a.0, Apart-insert r xs h.1 a.1)
]

Apart-uninsert :
    (r : WorkRange) (xs : List WorkRange) → Apart (insert r xs) → All (Disjoint r) xs × Apart xs
unfolding insert
Apart-uninsert r [] a = (tt, tt)
Apart-uninsert r (x ∷ xs) a = elim (Bool-cases (key_le r x)) [
  | inl e ↦ rw e at a
  | inr e ↦
      let b : All (Disjoint x) (insert r xs) × Apart (insert r xs) = rw e at a in
      let (here, there) = All-uninsert (Disjoint x) r xs b.0 in
      let (away, apart) = Apart-uninsert r xs b.1 in ((Disjoint-sym x r here, away), (there, apart))
]

Apart-sort : (xs : List WorkRange) → Apart xs → Apart (sort xs)
unfolding sort
Apart-sort [] a = tt
Apart-sort (x ∷ xs) a = Apart-insert x (sort xs) (All-sort (Disjoint x) xs a.0) (Apart-sort xs a.1)

Apart-unsort : (xs : List WorkRange) → Apart (sort xs) → Apart xs
unfolding sort
Apart-unsort [] a = tt
Apart-unsort (x ∷ xs) a =
    let (h, t) = Apart-uninsert x (sort xs) a in (All-unsort (Disjoint x) xs h, Apart-unsort xs t)

key_le_start : (a b : WorkRange) → key_le a b ≡ true → a.start ≤ b.start
unfolding key_le
key_le_start a b h = ground arith

key_gt_start : (a b : WorkRange) → key_le a b ≡ false → b.start ≤ a.start
unfolding key_le
key_gt_start a b h = ground arith

Ascending-insert : (r : WorkRange) (xs : List WorkRange) → Ascending xs → Ascending (insert r xs)
unfolding insert
Ascending-insert r [] a = (tt, tt)
Ascending-insert r (x ∷ xs) a = elim (Bool-cases (key_le r x)) [
  | inl e ↦ let le = key_le_start r x e in rw e ((le, All-imp xs (λ y h. omega arith) a.0), a)
  | inr e ↦
      let le = key_gt_start r x e in
      rw e (All-insert (λ y. x.start ≤ y.start) r xs le a.0, Ascending-insert r xs a.1)
]

sort-Ascending : (xs : List WorkRange) → Ascending (sort xs)
unfolding sort
sort-Ascending [] = tt
sort-Ascending (x ∷ xs) = Ascending-insert x (sort xs) (sort-Ascending xs)

-- After a successful check every range starts behind the range before the list.
check_overlap_behind :
    (p : WorkRange) (xs : List WorkRange)
    → All IsFull xs
    → check_overlap (some p) xs ≡ ok tt
    → All (λ x. p.end ≤ x.start) xs
unfolding check_overlap
check_overlap_behind p [] f e = tt
check_overlap_behind p (x ∷ xs) f e =
    let le : p.end ≤ x.start = ground arith in
    (le, All-imp xs (λ y h. omega arith) (check_overlap_behind x xs f.1 (ground arith)))

check_overlap-Apart :
    (p : WorkRange) (xs : List WorkRange)
    → All IsFull xs
    → check_overlap (some p) xs ≡ ok tt
    → Apart xs
unfolding check_overlap
check_overlap-Apart p [] f e = tt
check_overlap-Apart p (x ∷ xs) f e =
    let rest : check_overlap (some x) xs ≡ ok tt = ground arith in
    (
      All-imp xs (λ y h. inl h) (check_overlap_behind x xs f.1 rest),
      check_overlap-Apart x xs f.1 rest,
    )

check_overlap_complete :
    (p : WorkRange) (xs : List WorkRange)
    → All IsFull xs
    → All (λ x. p.start ≤ x.start) xs
    → All (Disjoint p) xs
    → Ascending xs
    → Apart xs
    → check_overlap (some p) xs ≡ ok tt
unfolding check_overlap
check_overlap_complete p [] f lo d s a = refl
check_overlap_complete p (x ∷ xs) f lo d s a =
    ground (arith, check_overlap_complete x xs f.1 s.0 a.0 s.1 a.1)

sorted_check :
    (xs : List WorkRange)
    → All IsFull xs
    → Ascending xs
    → (check_overlap none xs ≡ ok tt) ↔ Apart xs
unfolding check_overlap
sorted_check [] f s = (λ e. tt, λ a. refl)
sorted_check (x ∷ xs) f s = (
  λ e.
      (All-imp xs (λ y h. inl h) (check_overlap_behind x xs f.1 e), check_overlap-Apart x xs f.1 e),
  λ a. check_overlap_complete x xs f.1 s.0 a.0 s.1 a.1,
)

pub check_sort :
    (ranges : List WorkRange)
    → All IsFull ranges
    → (check_overlap none (sort ranges) ≡ ok tt) ↔ Apart ranges
check_sort ranges f =
    let iff = sorted_check (sort ranges) (All-sort IsFull ranges f) (sort-Ascending ranges) in
    (λ e. Apart-unsort ranges (iff.0 e), λ a. iff.1 (Apart-sort ranges a))

-- For ranges of at least one byte: `validate_work_ranges` succeeds if and only if no two of them
-- share a byte.
pub validate_work_ranges-Apart :
    (ranges : List WorkRange)
    → All IsFull ranges
    → ((a : AcceptedWorkRanges) × (validate_work_ranges ranges ≡ ok a)) ↔ Apart ranges
unfolding validate_work_ranges
validate_work_ranges-Apart ranges f = (
  λ (a, e). (check_sort ranges f).0 (ground arith),
  λ a.
      let e = (check_sort ranges f).1 a in (all_placed (sort ranges), rw (e, validate_work_ranges)),
)
