-- ===== src/Object/Index.antt =====
-- peony-object/src/model.rs, `IndexLookup`: from raw ELF indices to positions, as a dense vector
-- that turns into a hash map when an index falls outside it.
use peony.Base.{
  ℕ, zero, suc, ◌+◌, ◌<◌, ◌≡◌, refl, ◌∙◌, ◌≢◌, inl, inr, List, [], ◌∷◌, Option, none, some, arith,
  Bool-cases, ltb, ◌==◌, if◌then◌else◌, length, get_elem?, set, replicate, get_elem?-set_self,
  get_elem?-set_ne,
}
use peony.Base.Word.{usize_max}
use peony.Base.Map.{get, insert, get-insert, nat_eq}

abbrev pub missing_index : ℕ
missing_index = usize_max

pub data IndexLookup : Type 0 where
  dense : List ℕ → IndexLookup
  sparse : List (ℕ × ℕ) → IndexLookup

unfoldable pub empty : IndexLookup
empty = sparse []

unfoldable pub with_dense_len : ℕ → IndexLookup
with_dense_len len = dense (replicate len missing_index)

-- A dense slot, `none` if it holds the marker of a missing entry.
abbrev present : Option ℕ → Option ℕ
present none = none
present (some pos) = if pos == missing_index then none else some pos

-- The loop of `insert` that moves the dense entries from index `k` on into the map.
unfoldable pub collect : List (ℕ × ℕ) → ℕ → List ℕ → List (ℕ × ℕ)
collect m k [] = m
collect m k (pos ∷ d) = collect (if pos == missing_index then m else insert k pos m) (k + 1) d

-- The method `insert`.
unfoldable pub put : IndexLookup → ℕ → ℕ → IndexLookup
put (dense d) raw pos =
    if ltb raw (length d) then dense (set d raw pos) else sparse (insert raw pos (collect [] 0 d))
put (sparse m) raw pos = sparse (insert raw pos m)

unfoldable pub position : IndexLookup → ℕ → Option ℕ
position (dense d) raw = present (get_elem? d raw)
position (sparse m) raw = get raw m

abbrev or_else : Option ℕ → Option ℕ → Option ℕ
or_else none b = b
or_else (some a) b = some a

collect_before :
    (m : List (ℕ × ℕ)) (k : ℕ) (d : List ℕ) (j : ℕ) → j < k → get j (collect m k d) ≡ get j m
unfolding collect
collect_before m k [] j h = refl
collect_before m k (pos ∷ d) j h =
    collect_before (if pos == missing_index then m else insert k pos m) (k + 1) d j (omega arith)
    ∙ ground (arith, get-insert k j pos m)

collect_from :
    (m : List (ℕ × ℕ)) (k : ℕ) (d : List ℕ) (i : ℕ)
    → get (k + i) (collect m k d) ≡ or_else (present (get_elem? d i)) (get (k + i) m)
unfolding collect
collect_from m k [] i = refl
collect_from m k (pos ∷ d) zero =
    collect_before (if pos == missing_index then m else insert k pos m) (k + 1) d (k + 0)
      (omega arith)
    ∙ ground (arith, get-insert k (k + 0) pos m)
collect_from m k (pos ∷ d) (suc i) = ground (
  arith,
  collect_from (if pos == missing_index then m else insert k pos m) (k + 1) d i,
  get-insert k (k + suc i) pos m,
)

or_else-none : (a : Option ℕ) → or_else a none ≡ a
or_else-none none = refl
or_else-none (some x) = refl

get-collect : (d : List ℕ) (j : ℕ) → get j (collect [] 0 d) ≡ present (get_elem? d j)
unfolding get
get-collect d j = ground (arith, collect_from [] 0 d j, or_else-none (present (get_elem? d j)))

-- After `insert` of a position other than the marker of a missing entry the new index reads back its
-- position and every other index reads as before,
-- whichever representation the table has and whether or not the insertion changes it.
pub position-put :
    (l : IndexLookup) (raw pos j : ℕ)
    → pos ≢ missing_index
    → position (put l raw pos) j ≡ (if raw == j then some pos else position l j)
unfolding position put
position-put (sparse m) raw pos j h = get-insert raw j pos m
position-put (dense d) raw pos j h = elim (Bool-cases (ltb raw (length d))) [
  | inl e ↦ rw e (ground (arith, get_elem?-set_self d raw pos, get_elem?-set_ne d raw j pos))
  | inr e ↦ rw e (ground (arith, get-insert raw j pos (collect [] 0 d), get-collect d j))
]
