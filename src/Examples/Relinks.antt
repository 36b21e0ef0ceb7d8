-- ===== src/Examples/Relinks.antt =====
-- Runs of the reverse index and of the planner of a partial relink (peony-cache/src/lib.rs).
use peony.Base.{
  ℕ, ◌+◌, Nodup, ◌≡◌, ◌<◌, ◌↔◌, refl, arith, true, false, ◌⊎◌, inl, inr, List, [], ◌∷◌, length,
}
use peony.Base.Bytes.{Bytes, bytes_eq}
use peony.Base.Map.{get, insert, bytes_key}
use peony.Cache.Index
use peony.Cache.Index.{RelocReverseIndex, no_entry, new, insert_all, iter_relocs, chain_from}
use peony.Cache.Index.Contents.{relocs_of, reloc_ids, iter_relocs-insert_all}
use peony.Cache.Plan.{
  SectionRecord, PatchSectionRecord, PartialRelinkFallback, PartialRelinkPlan, section_size_changed,
  red, green, is_red, is_green, contains, add_reloc_sections, moved_sections_from, any_in_section,
  section_references_moved_checked, previous_sections, section_fallback, colored, plan_sections,
  plan_partial_relink,
}
use peony.Cache.Plan.Accepted.{AllAccepted, plan_partial_relink-AllAccepted}
use peony.Cache.Plan.Colors.{has_color, plan_partial_relink-has_color}
use peony.Examples.Data.{f_name}

-- Three relocations, of the symbols 0, 1 and 0.
abbrev entries : List (ℕ × ℕ)
entries = (0, 0) ∷ (1, 1) ∷ (0, 2) ∷ []

abbrev index : RelocReverseIndex
index = insert_all (new 2 3) entries

distinct : Nodup (reloc_ids entries)
unfolding reloc_ids
distinct = (ground arith, (ground arith, (ground arith, tt)))

iter_relocs-insert_all_example : iter_relocs index 0 ≡ 2 ∷ 0 ∷ []
unfolding relocs_of
iter_relocs-insert_all_example =
    iter_relocs-insert_all 2 3 entries 0
      ((
        omega arith,
        omega arith,
        omega arith,
        (omega arith, omega arith, omega arith, (omega arith, omega arith, omega arith, tt)),
      ))
      distinct (omega arith) (omega arith)

-- The relocation 1 lies in the section `f`, the others in `g`.
abbrev g_name : Bytes
g_name = 103 ∷ []

abbrev cached_section : Bytes → ℕ → SectionRecord
cached_section name offset = record {
  name = name;
  fingerprint = record { len = 8; hash = 1 };
  file_offset = offset;
  size = 8;
  capacity = 16;
  virtual_address = 4096 + offset;
}

abbrev current_section : Bytes → ℕ → ℕ → PatchSectionRecord
current_section name offset size = record {
  name = name;
  file_offset = offset;
  size = size;
  virtual_address = 4096 + offset;
  input_changed = false;
}

abbrev cached : List SectionRecord
cached = cached_section f_name 64 ∷ cached_section g_name 128 ∷ []

abbrev sections : List PatchSectionRecord
sections = current_section f_name 64 8 ∷ current_section g_name 128 8 ∷ []

abbrev reloc_sections : List Bytes
reloc_sections = g_name ∷ f_name ∷ g_name ∷ []

-- The symbol 1 moved.
abbrev outcome : List PatchSectionRecord → PartialRelinkFallback ⊎ PartialRelinkPlan
outcome current = plan_partial_relink cached current (1 ∷ []) index reloc_sections

-- A section that grew within its capacity is refused too.
grown : outcome (current_section f_name 64 9 ∷ []) ≡ inl (section_size_changed f_name 8 9)
unfolding bytes_eq get insert previous_sections section_fallback plan_sections plan_partial_relink
grown = refl

-- The two sections are in place.
in_place : AllAccepted (previous_sections cached []) sections
unfolding bytes_eq get insert previous_sections
in_place = (
  (cached_section f_name 64, refl, (refl, refl, omega arith, refl)),
  ((cached_section g_name 128, refl, (refl, refl, omega arith, refl)), tt),
)

plan_partial_relink-AllAccepted_example :
    ((plan : PartialRelinkPlan) × (outcome sections ≡ inr plan)) ↔ (
      (0 < length cached)
      × (0 < length sections)
      × AllAccepted (previous_sections cached []) sections)
plan_partial_relink-AllAccepted_example =
    plan_partial_relink-AllAccepted cached sections (1 ∷ []) index reloc_sections

-- The plan of it.
abbrev plan : PartialRelinkPlan
plan = record {
  colors = (f_name, red) ∷ (g_name, green) ∷ [];
  red_sections = (f_name, tt) ∷ [];
  green_sections = (g_name, tt) ∷ [];
}

planned : outcome sections ≡ inr plan
unfolding bytes_eq get insert contains colored iter_relocs chain_from new insert_all Index.insert
    add_reloc_sections moved_sections_from previous_sections section_fallback plan_sections
    plan_partial_relink
planned = refl

plan_partial_relink-has_color_example : (is_red plan f_name ≡ true) × (is_green plan f_name ≡ false)
unfolding bytes_eq iter_relocs chain_from new insert_all Index.insert any_in_section
    section_references_moved_checked has_color
plan_partial_relink-has_color_example =
    plan_partial_relink-has_color cached sections (1 ∷ []) index reloc_sections plan f_name planned
