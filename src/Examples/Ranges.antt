-- ===== src/Examples/Ranges.antt =====
-- Runs of the validation of work items (peony-emit/src/input_work/ranges.rs).
use peony.Base.{ℕ, ◌+◌, ◌≤◌, ◌≡◌, refl, ◌↔◌, List, [], ◌∷◌, some, arith}
use peony.Reloc.Types.{code_of}
use peony.Emit.Errors.{ok, err, overlap}
use peony.Emit.Footprints.{relocation_footprint, window}
use peony.Emit.Ranges.{
  WorkItem, AcceptedWorkRanges, accepted, from_parts, check_overlap, max_index, place_all,
  range_for_item, validate_work_ranges, check_reloc, check_relocs, validate_item_containment,
  collect, validate_work_item_ranges,
}
use peony.Emit.Ranges.Sort.{WorkRange, key_le, insert, sort, Disjoint, Apart}
use peony.Emit.Ranges.Disjoint.{validate_work_ranges-Apart}
use peony.Emit.Ranges.Items.{range_of, Footprints}
use peony.Emit.Ranges.Plan.{range_for_item_lem, items-Disjoint}
use peony.Examples.Data.{reloc, code, first_object}

abbrev item : ℕ → WorkItem
item file_off = record {
  file_off = file_off;
  file_len = 8;
  section_va = 4096;
  obj = first_object;
  isec = code;
  obj_id = 0;
  input_section_index = 1;
  reloc_count = 2;
}

abbrev items : List WorkItem
items = item 8 ∷ item 0 ∷ []

abbrev plan : AcceptedWorkRanges
plan = record {
  item_ranges = some (accepted (range_of 0 (item 8))) ∷ some (accepted (range_of 1 (item 0))) ∷ [];
}

accepts_items : validate_work_item_ranges items 16 ≡ ok plan
unfolding validate_work_item_ranges collect from_parts validate_item_containment check_relocs
    check_reloc relocation_footprint window peony.Reloc.Types.reloc_type code_of
    validate_work_ranges sort insert key_le check_overlap max_index place_all accepted
accepts_items = refl

abbrev crossing : List WorkRange
crossing = range_of 0 (item 4) ∷ range_of 1 (item 0) ∷ []

rejects_overlap : validate_work_ranges crossing ≡ err (overlap 1 0 8 0 4 12)
unfolding validate_work_ranges sort insert key_le check_overlap
rejects_overlap = refl

validate_work_ranges-Apart_example :
    ((a : AcceptedWorkRanges) × (validate_work_ranges crossing ≡ ok a)) ↔ Apart crossing
validate_work_ranges-Apart_example =
    validate_work_ranges-Apart crossing (omega arith, (omega arith, tt))

range_for_item_lem_example :
    (range_for_item plan 1 ≡ some (accepted (range_of 1 (item 0))))
    × (0 + 8 ≤ 16)
    × (8 ≤ 8)
    × Footprints 1 8 0 (reloc 2 0 0 ∷ reloc 9 4 1 ∷ [])
range_for_item_lem_example =
    range_for_item_lem items 16 plan accepts_items 1 (item 0) refl (omega arith)

items-Disjoint_example : Disjoint (range_of 0 (item 8)) (range_of 1 (item 0))
items-Disjoint_example =
    items-Disjoint items 16 plan accepts_items 0 1 (item 8) (item 0) refl refl (omega arith)
      (omega arith) (λ e. omega arith)
