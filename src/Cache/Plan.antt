-- ===== src/Cache/Plan.antt =====
-- The plan of a partial relink (peony-cache/src/lib.rs). Names are byte lists; a hash set is a map to the unit.
pub mod Colors
pub mod Moved
pub mod Steps
pub mod Accepted
use peony.Base.{
  ℕ, Bool, true, false, ◌||◌, ◌⊎◌, inl, inr, List, [], ◌∷◌, Option, none, some, not, ◌==◌, ltb,
  if◌then◌else◌, get_elem?, is_some,
}
use peony.Base.Bytes.{Bytes, bytes_eq}
use peony.Base.Map.{get, insert, bytes_key}
use peony.Cache.Index.{RelocReverseIndex, iter_relocs}

pub data SectionColor : Type 0 where
  green : SectionColor
  red : SectionColor

pub record Fingerprint : Type 0 where
  pub len : ℕ
  pub hash : ℕ

pub record SectionRecord : Type 0 where
  pub name : Bytes
  pub fingerprint : Fingerprint
  pub file_offset : ℕ
  pub size : ℕ
  pub capacity : ℕ
  pub virtual_address : ℕ

pub record PatchSectionRecord : Type 0 where
  pub name : Bytes
  pub file_offset : ℕ
  pub size : ℕ
  pub virtual_address : ℕ
  pub input_changed : Bool

pub data PartialRelinkFallback : Type 0 where
  missing_section_metadata : PartialRelinkFallback
  missing_previous_section : (section : Bytes) → PartialRelinkFallback
  section_file_offset_changed : (section : Bytes) (previous current : ℕ) → PartialRelinkFallback
  section_virtual_address_changed : (section : Bytes) (previous current : ℕ) → PartialRelinkFallback
  section_capacity_exceeded : (section : Bytes) (capacity size : ℕ) → PartialRelinkFallback
  section_size_changed : (section : Bytes) (previous current : ℕ) → PartialRelinkFallback

abbrev pub Names : Type 0
Names = List (Bytes × Unit)

unfoldable pub contains : Bytes → Names → Bool
contains name names = is_some (get name names)

pub record PartialRelinkPlan : Type 0 where
  pub colors : List (Bytes × SectionColor)
  pub red_sections : Names
  pub green_sections : Names

abbrev pub is_red : PartialRelinkPlan → Bytes → Bool
is_red plan section = contains section plan.red_sections

abbrev pub is_green : PartialRelinkPlan → Bytes → Bool
is_green plan section = contains section plan.green_sections

-- The inner loop of `moved_reloc_sections`.
unfoldable pub add_reloc_sections : List Bytes → List ℕ → Names → Names
add_reloc_sections reloc_sections [] sections = sections
add_reloc_sections reloc_sections (reloc_id ∷ reloc_ids) sections =
    add_reloc_sections reloc_sections reloc_ids (elim (get_elem? reloc_sections reloc_id) [
      | none ↦ sections
      | some section ↦ insert section tt sections
    ])

unfoldable pub moved_sections_from : RelocReverseIndex → List Bytes → List ℕ → Names → Names
moved_sections_from rev_index reloc_sections [] sections = sections
moved_sections_from rev_index reloc_sections (sym_id ∷ moved_ids) sections =
    moved_sections_from rev_index reloc_sections moved_ids
      (add_reloc_sections reloc_sections (iter_relocs rev_index sym_id) sections)

abbrev pub moved_reloc_sections : List ℕ → RelocReverseIndex → List Bytes → Names
moved_reloc_sections moved_ids rev_index reloc_sections =
    moved_sections_from rev_index reloc_sections moved_ids []

-- The inner loop of `section_references_moved_checked`.
unfoldable pub any_in_section : Bytes → List Bytes → List ℕ → Bool
any_in_section section_name reloc_sections [] = false
any_in_section section_name reloc_sections (reloc_id ∷ reloc_ids) =
    (elim (get_elem? reloc_sections reloc_id) [
      | none ↦ false
      | some section ↦ bytes_eq section section_name
    ])
    || any_in_section section_name reloc_sections reloc_ids

unfoldable pub section_references_moved_checked :
    Bytes → RelocReverseIndex → List Bytes → List ℕ → Bool
section_references_moved_checked section_name rev_index reloc_sections [] = false
section_references_moved_checked section_name rev_index reloc_sections (sym_id ∷ moved_ids) =
    any_in_section section_name reloc_sections (iter_relocs rev_index sym_id)
    || section_references_moved_checked section_name rev_index reloc_sections moved_ids

-- The collected map of the cached sections: a later section replaces an earlier one of its name.
unfoldable pub previous_sections :
    List SectionRecord → List (Bytes × SectionRecord) → List (Bytes × SectionRecord)
previous_sections [] previous = previous
previous_sections (sec ∷ sections) previous =
    previous_sections sections (insert sec.name sec previous)

-- The checks of a section against its cached record, in order.
unfoldable pub section_fallback : SectionRecord → PatchSectionRecord → Option PartialRelinkFallback
section_fallback previous current =
    if not (previous.file_offset == current.file_offset)
    then some (section_file_offset_changed current.name previous.file_offset current.file_offset)
    else if not (previous.virtual_address == current.virtual_address)
    then some (
        section_virtual_address_changed current.name previous.virtual_address
          current.virtual_address)
    else if ltb previous.capacity current.size
    then some (section_capacity_exceeded current.name previous.capacity current.size)
    else if not (current.size == previous.size)
    then some (section_size_changed current.name previous.size current.size)
    else none

unfoldable pub colored : PartialRelinkPlan → Bytes → Bool → PartialRelinkPlan
colored plan name true = record {
  colors = insert name red plan.colors;
  red_sections = insert name tt plan.red_sections;
  green_sections = plan.green_sections;
}
colored plan name false = record {
  colors = insert name green plan.colors;
  red_sections = plan.red_sections;
  green_sections = insert name tt plan.green_sections;
}

-- The loop over the current sections.
unfoldable pub plan_sections :
    List (Bytes × SectionRecord)
    → Names
    → List PatchSectionRecord
    → PartialRelinkPlan
    → PartialRelinkFallback ⊎ PartialRelinkPlan
plan_sections previous moved_sections [] plan = inr plan
plan_sections previous moved_sections (current ∷ sections) plan =
    let rest =
      plan_sections previous moved_sections sections (
        colored plan current.name
          (current.input_changed || contains current.name moved_sections)) in
    elim (get current.name previous) [
      | none ↦ inl (missing_previous_section current.name)
      | some cached ↦ elim (section_fallback cached current) [
        | none ↦ rest
        | some fallback ↦ inl fallback
      ]
    ]

unfoldable pub plan_partial_relink :
    List SectionRecord
    → List PatchSectionRecord
    → List ℕ
    → RelocReverseIndex
    → List Bytes
    → PartialRelinkFallback ⊎ PartialRelinkPlan
plan_partial_relink [] current_sections moved_symbol_ids rev_index reloc_sections =
    inl missing_section_metadata
plan_partial_relink (sec ∷ cached) [] moved_symbol_ids rev_index reloc_sections =
    inl missing_section_metadata
plan_partial_relink (sec ∷ cached) (current ∷ sections) moved_symbol_ids rev_index reloc_sections =
    plan_sections (previous_sections (sec ∷ cached) [])
      (moved_reloc_sections moved_symbol_ids rev_index reloc_sections) (current ∷ sections)
      (record { colors = []; red_sections = []; green_sections = [] })
