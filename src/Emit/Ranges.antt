-- ===== src/Emit/Ranges.antt =====
-- peony-emit/src/input_work.rs and input_work/ranges.rs: the byte ranges of the work items, and
-- their validation before the items are written in parallel.
pub mod Sort
pub mod Disjoint
pub mod Items
pub mod Plan
use peony.Base.{
  ℕ, ◌+◌, ◌-◌, ◌^◌, Bool, List, [], ◌∷◌, ◌++◌, Option, none, some, ltb, leb, ◌==◌, if◌then◌else◌,
  length, get_elem?, set, replicate, max, not, ◌&&◌,
}
use peony.Base.Word.{usize_max}
use peony.Object.{InputObject, InputSection, InputReloc}
use peony.Emit.Errors.{
  WorkRangeError, overflow, out_of_bounds, overlap, relocation_out_of_bounds, Result, ok, err,
  ◌>>=◌,
}
use peony.Emit.Footprints.{RelocationFootprint, relocation_footprint}
use Sort.{WorkRange, sort}

pub record WorkItem : Type 0 where
  pub file_off : ℕ
  pub file_len : ℕ
  pub section_va : ℕ
  pub obj : InputObject
  pub isec : InputSection
  pub obj_id : ℕ
  pub input_section_index : ℕ
  pub reloc_count : ℕ

-- An accepted range has the fields of the range that it was made from.
pub record AcceptedWorkItemRange : Type 0 where
  pub item_index : ℕ
  pub start : ℕ
  pub end : ℕ

pub record AcceptedWorkRanges : Type 0 where
  pub item_ranges : List (Option AcceptedWorkItemRange)

unfoldable pub accepted : WorkRange → AcceptedWorkItemRange
accepted r = record { item_index = r.item_index; start = r.start; end = r.end }

unfoldable pub len : AcceptedWorkItemRange → ℕ
len r = r.end - r.start

unfoldable pub contains : AcceptedWorkItemRange → ℕ → ℕ → Bool
contains r start end = leb r.start start && leb end r.end

-- `get(i).copied().flatten()`.
abbrev pub flatten : Option (Option AcceptedWorkItemRange) → Option AcceptedWorkItemRange
flatten none = none
flatten (some o) = o

unfoldable pub range_for_item : AcceptedWorkRanges → ℕ → Option AcceptedWorkItemRange
range_for_item r item_index = flatten (get_elem? r.item_ranges item_index)

unfoldable pub from_parts : ℕ → ℕ → ℕ → ℕ → Result (Option WorkRange)
from_parts item_index file_off file_len buf_len =
    if file_len == 0
    then ok none
    else if ltb usize_max (file_off + file_len)
    then err (overflow item_index file_off file_len)
    else if ltb buf_len (file_off + file_len)
    then err (out_of_bounds item_index file_off file_len buf_len)
    else ok (some (record { item_index = item_index; start = file_off; end = file_off + file_len }))

-- The loop over the sorted ranges, with the range before the current one.
unfoldable pub check_overlap : Option WorkRange → List WorkRange → Result (Unit {0})
check_overlap previous [] = ok tt
check_overlap none (current ∷ rest) = check_overlap (some current) rest
check_overlap (some first) (current ∷ rest) =
    let more = check_overlap (some current) rest in
    if ltb current.start first.end
    then err (
        overlap first.item_index first.start first.end current.item_index current.start current.end)
    else more

unfoldable pub max_index : List WorkRange → Option ℕ
max_index [] = none
max_index (r ∷ rs) = elim (max_index rs) [
  | none ↦ some r.item_index
  | some m ↦ some (max r.item_index m)
]

abbrev pub range_count : Option ℕ → ℕ
range_count none = 0
range_count (some m) = if m == usize_max then m else m + 1

unfoldable pub place_all :
    List (Option AcceptedWorkItemRange) → List WorkRange → List (Option AcceptedWorkItemRange)
place_all slots [] = slots
place_all slots (r ∷ rs) = place_all (set slots r.item_index (some (accepted r))) rs

abbrev pub all_placed : List WorkRange → AcceptedWorkRanges
all_placed ranges = record {
  item_ranges = place_all (replicate (range_count (max_index ranges)) none) ranges;
}

unfoldable pub validate_work_ranges : List WorkRange → Result AcceptedWorkRanges
validate_work_ranges ranges =
    check_overlap none (sort ranges) >>= λ _. ok (all_placed (sort ranges))

-- One round of the loop over the relocations.
unfoldable pub check_reloc : ℕ → ℕ → ℕ → InputReloc → Result (Unit {0})
check_reloc item_index section_len reloc_index reloc =
    relocation_footprint item_index reloc_index reloc >>= λ o. elim o [
      | none ↦ ok tt
      | some footprint ↦
          if ltb usize_max (footprint.start + footprint.len)
          then err (
              relocation_out_of_bounds item_index reloc_index reloc.r_type reloc.offset
                footprint.len section_len)
          else if ltb section_len (footprint.start + footprint.len)
          then err (
              relocation_out_of_bounds item_index reloc_index reloc.r_type reloc.offset
                footprint.len section_len)
          else ok tt
    ]

unfoldable pub check_relocs : ℕ → ℕ → ℕ → List InputReloc → Result (Unit {0})
check_relocs item_index section_len reloc_index [] = ok tt
check_relocs item_index section_len reloc_index (reloc ∷ relocs) =
    check_reloc item_index section_len reloc_index reloc >>= λ _.
    check_relocs item_index section_len (reloc_index + 1) relocs

unfoldable pub validate_item_containment : ℕ → InputSection → WorkRange → Result (Unit {0})
validate_item_containment item_index isec accepted_range =
    let accepted_len = accepted_range.end - accepted_range.start in
    if ltb accepted_len (length isec.bytes)
    then err (out_of_bounds item_index accepted_range.start (length isec.bytes) accepted_len)
    else check_relocs item_index (length isec.bytes) 0 isec.relocs

pub record Collected : Type 0 where
  pub slots : List (Option AcceptedWorkItemRange)
  pub ranges : List WorkRange

-- The loop of `validate_work_item_ranges` over the items from index `item_index` on.
unfoldable pub collect : ℕ → ℕ → List WorkItem → Collected → Result Collected
collect buf_len item_index [] c = ok c
collect buf_len item_index (item ∷ items) c =
    from_parts item_index item.file_off item.file_len buf_len >>= λ o. elim o [
      | none ↦ collect buf_len (item_index + 1) items c
      | some range ↦ validate_item_containment item_index item.isec range >>= λ _.
          collect buf_len (item_index + 1) items (record {
            slots = set c.slots item_index (some (accepted range));
            ranges = c.ranges ++ range ∷ [];
          })
    ]

unfoldable pub validate_work_item_ranges : List WorkItem → ℕ → Result AcceptedWorkRanges
validate_work_item_ranges items buf_len =
    collect buf_len 0 items (record { slots = replicate (length items) none; ranges = [] }) >>= λ c.
    validate_work_ranges c.ranges >>= λ _. ok (record { item_ranges = c.slots })
