-- ===== src/Emit/Ranges/Items.antt =====
-- `validate_work_item_ranges` (peony-emit/src/input_work/ranges.rs): what an accepted list of work
-- items satisfies.
use peony.Base.{
  ℕ, zero, suc, ◌+◌, ◌≤◌, ◌<◌, ◌≡◌, refl, sym, ◌∙◌, ap, ◌≢◌, ◌⊎◌, inl, inr, List, [], ◌∷◌, ◌++◌,
  some, arith, All, length, get_elem?, set, length-set, get_elem?-set_self, get_elem?-set_ne, subst,
}
use peony.Object.{InputReloc}
use peony.Emit.Errors.{ok}
use peony.Emit.Footprints.{RelocationFootprint, relocation_footprint}
use peony.Emit.Ranges.Sort.{WorkRange, Disjoint, Disjoint-sym, Apart}
use peony.Emit.Ranges.Disjoint.{IsFull}
use peony.Emit.Ranges.{
  WorkItem, Collected, accepted, from_parts, check_reloc, check_relocs, validate_item_containment,
  collect,
}

-- The range that a work item at index `k` asks for.
abbrev pub range_of : ℕ → WorkItem → WorkRange
range_of k item = record {
  item_index = k;
  start = item.file_off;
  end = item.file_off + item.file_len;
}

abbrev pub In : WorkRange → List WorkRange → Type 0
In r [] = ⊥
In r (x ∷ xs) = (r ≡ x) ⊎ In r xs

In-append_left : (r : WorkRange) (xs ys : List WorkRange) → In r xs → In r (xs ++ ys)
In-append_left r (x ∷ xs) ys (inl e) = inl e
In-append_left r (x ∷ xs) ys (inr i) = inr (In-append_left r xs ys i)
In-append_left r [] ys h = absurd h

In-append_last : (r : WorkRange) (xs : List WorkRange) → In r (xs ++ r ∷ [])
In-append_last r [] = inl refl
In-append_last r (x ∷ xs) = inr (In-append_last r xs)

All-append_last {κ} :
    (P : WorkRange → Type κ) (xs : List WorkRange) (r : WorkRange)
    → All P xs
    → P r
    → All P (xs ++ r ∷ [])
All-append_last P [] r a h = (h, tt)
All-append_last P (x ∷ xs) r a h = (a.0, All-append_last P xs r a.1 h)

All-In {κ} :
    (P : WorkRange → Type κ) (xs : List WorkRange) (r : WorkRange) → All P xs → In r xs → P r
All-In P [] r a h = absurd h
All-In P (x ∷ xs) r a (inl e) = subst P (sym e) a.0
All-In P (x ∷ xs) r a (inr i) = All-In P xs r a.1 i

-- Two ranges of a list without overlaps that belong to different items share no byte.
pub Apart-In :
    (xs : List WorkRange) (r q : WorkRange)
    → Apart xs
    → In r xs
    → In q xs
    → r.item_index ≢ q.item_index
    → Disjoint r q
Apart-In [] r q a h k n = absurd h
Apart-In (x ∷ xs) r q a (inl e) (inl f) n = absurd (n (ap (λ w. w.item_index) (e ∙ sym f)))
Apart-In (x ∷ xs) r q a (inl e) (inr k) n =
    subst (λ w. Disjoint w q) (sym e) (All-In (Disjoint x) xs q a.0 k)
Apart-In (x ∷ xs) r q a (inr h) (inl f) n =
    subst (λ w. Disjoint r w) (sym f) (Disjoint-sym x r (All-In (Disjoint x) xs r a.0 h))
Apart-In (x ∷ xs) r q a (inr h) (inr k) n = Apart-In xs r q a.1 h k n

-- One round of the loop of `validate_work_item_ranges`, where the whole loop succeeds.
module _ (n k : ℕ) (item : WorkItem) (items : List WorkItem) (c c' : Collected) where
  abbrev taken : Collected
  taken = record {
    slots = set c.slots k (some (accepted (range_of k item)));
    ranges = c.ranges ++ range_of k item ∷ [];
  }

  collect_step :
      collect n k (item ∷ items) c ≡ ok c'
      → ((item.file_len ≡ 0) × (collect n (k + 1) items c ≡ ok c'))
        ⊎ ((0 < item.file_len)
            × (item.file_off + item.file_len ≤ n)
            × (validate_item_containment k item.isec (range_of k item) ≡ ok tt)
            × (collect n (k + 1) items taken ≡ ok c'))
  unfolding collect from_parts
  collect_step e = ground arith

collect-In :
    (n k : ℕ) (items : List WorkItem) (c c' : Collected) (r : WorkRange)
    → collect n k items c ≡ ok c'
    → In r c.ranges
    → In r c'.ranges
unfolding collect
collect-In n k [] c c' r e h = let same : c ≡ c' = ground arith in subst (λ d. In r d.ranges) same h
collect-In n k (item ∷ items) c c' r e h = elim (collect_step n k item items c c' e) [
  | inl (_, rest) ↦ collect-In n (k + 1) items c c' r rest h
  | inr (_, _, _, rest) ↦
      collect-In n (k + 1) items (taken n k item items c c') c' r rest
        (In-append_left r c.ranges (range_of k item ∷ []) h)
]

pub collect-IsFull :
    (n k : ℕ) (items : List WorkItem) (c c' : Collected)
    → collect n k items c ≡ ok c'
    → All IsFull c.ranges
    → All IsFull c'.ranges
unfolding collect
collect-IsFull n k [] c c' e h =
    let same : c ≡ c' = ground arith in subst (λ d. All IsFull d.ranges) same h
collect-IsFull n k (item ∷ items) c c' e h = elim (collect_step n k item items c c' e) [
  | inl (_, rest) ↦ collect-IsFull n (k + 1) items c c' rest h
  | inr (full, _, _, rest) ↦
      collect-IsFull n (k + 1) items (taken n k item items c c') c' rest
        (All-append_last IsFull c.ranges (range_of k item) h (omega arith))
]

-- Later rounds leave the slots of earlier items alone.
collect_before :
    (n k : ℕ) (items : List WorkItem) (c c' : Collected) (j : ℕ)
    → collect n k items c ≡ ok c'
    → j < k
    → get_elem? c'.slots j ≡ get_elem? c.slots j
unfolding collect
collect_before n k [] c c' j e h =
    let same : c ≡ c' = ground arith in ap (λ d. get_elem? d.slots j) (sym same)
collect_before n k (item ∷ items) c c' j e h = elim (collect_step n k item items c c' e) [
  | inl (_, rest) ↦ collect_before n (k + 1) items c c' j rest (omega arith)
  | inr (_, _, _, rest) ↦
      collect_before n (k + 1) items (taken n k item items c c') c' j rest (omega arith)
      ∙ get_elem?-set_ne c.slots k j (some (accepted (range_of k item))) (omega arith)
]

-- What the loop has established of a non-empty item at index `k`.
pub record IsTaken (n k : ℕ) (item : WorkItem) (c : Collected) : Type 0 where
  pub slot : get_elem? c.slots k ≡ some (some (accepted (range_of k item)))
  pub listed : In (range_of k item) c.ranges
  pub within : item.file_off + item.file_len ≤ n
  pub contained : validate_item_containment k item.isec (range_of k item) ≡ ok tt

pub collect-IsTaken :
    (n k : ℕ) (items : List WorkItem) (c c' : Collected) (j : ℕ) (item : WorkItem)
    → collect n k items c ≡ ok c'
    → k + length items ≤ length c.slots
    → get_elem? items j ≡ some item
    → 0 < item.file_len
    → IsTaken n (k + j) item c'
collect-IsTaken n k [] c c' j item e room at full = cc
collect-IsTaken n k (first ∷ items) c c' zero item e room at full =
    elim (collect_step n k first items c c' e) [
      | inl (empty, _) ↦ absurd (
          let same : first ≡ item = ground arith in
          let z = ap (λ w. w.file_len) same in omega arith)
      | inr (_, within, contained, rest) ↦
          let same : first ≡ item = ground arith in
          let here : k + 0 ≡ k = omega arith in
          rw (here, ← same)
            (record {
              slot =
                  collect_before n (k + 1) items (taken n k first items c c') c' k rest
                    (omega arith)
                  ∙ get_elem?-set_self c.slots k (some (accepted (range_of k first))) (omega arith);
              listed =
                  collect-In n (k + 1) items (taken n k first items c c') c' (range_of k first) rest
                    (In-append_last (range_of k first) c.ranges);
              within = within;
              contained = contained;
            })
    ]
collect-IsTaken n k (first ∷ items) c c' (suc j) item e room at full =
    let there : k + suc j ≡ k + 1 + j = omega arith in
    rw there (elim (collect_step n k first items c c' e) [
      | inl (_, rest) ↦ collect-IsTaken n (k + 1) items c c' j item rest (omega arith) at full
      | inr (_, _, _, rest) ↦
          collect-IsTaken n (k + 1) items (taken n k first items c c') c' j item rest
            (omega (arith, length-set c.slots k (some (accepted (range_of k first))))) at full
    ])

-- The bytes of every footprint of the section's relocations lie in the section's data.
abbrev pub Footprints : ℕ → ℕ → ℕ → List InputReloc → Type 0
Footprints item_index section_len k [] = Unit {0}
Footprints item_index section_len k (reloc ∷ relocs) =
    ((fp : RelocationFootprint)
      → relocation_footprint item_index k reloc ≡ ok (some fp)
      → fp.start + fp.len ≤ section_len)
    × Footprints item_index section_len (k + 1) relocs

pub check_relocs-Footprints :
    (item_index section_len k : ℕ) (relocs : List InputReloc)
    → check_relocs item_index section_len k relocs ≡ ok tt
    → Footprints item_index section_len k relocs
unfolding check_relocs check_reloc
check_relocs-Footprints item_index section_len k [] e = tt
check_relocs-Footprints item_index section_len k (reloc ∷ relocs) e = (
  λ fp found. ground arith,
  check_relocs-Footprints item_index section_len (k + 1) relocs (ground arith),
)
