-- ===== src/Cache/Plan/Moved.antt =====
-- The set of sections with a relocation of a moved symbol, and the test of one section (peony-cache/src/lib.rs).
use peony.Base.{
  ℕ, ◌≡◌, refl, ap, ◌∙◌, ◌||◌, List, [], ◌∷◌, arith, get_elem?, is_some, Option-cases, inl, inr,
}
use peony.Base.Bytes.{Bytes, bytes_eq}
use peony.Base.Map.{get, insert, bytes_key, get-insert}
use peony.Cache.Index.{RelocReverseIndex, iter_relocs}
use peony.Cache.Plan.{
  Names, contains, add_reloc_sections, moved_sections_from, moved_reloc_sections, any_in_section,
  section_references_moved_checked,
}

pub contains-insert :
    (name other : Bytes) (names : Names)
    → contains other (insert name tt names) ≡ (bytes_eq name other || contains other names)
unfolding contains get
contains-insert name other names = ap is_some (get-insert name other tt names) ∙ ground arith

any_in_section-add :
    (name : Bytes) (reloc_sections : List Bytes) (reloc_ids : List ℕ) (sections : Names)
    → contains name (add_reloc_sections reloc_sections reloc_ids sections)
      ≡ (any_in_section name reloc_sections reloc_ids || contains name sections)
unfolding add_reloc_sections any_in_section
any_in_section-add name reloc_sections [] sections = refl
any_in_section-add name reloc_sections (reloc_id ∷ reloc_ids) sections =
    elim (Option-cases (get_elem? reloc_sections reloc_id)) [
      | inl none_there ↦ rw none_there (any_in_section-add name reloc_sections reloc_ids sections)
      | inr (section, there) ↦ rw there (
          any_in_section-add name reloc_sections reloc_ids (insert section tt sections)
          ∙ ground (arith, contains-insert section name sections))
    ]

moved_sections_from-contains :
    (name : Bytes) (rev_index : RelocReverseIndex) (reloc_sections : List Bytes)
    (moved_ids : List ℕ) (sections : Names)
    → contains name (moved_sections_from rev_index reloc_sections moved_ids sections) ≡ (
        section_references_moved_checked name rev_index reloc_sections moved_ids
        || contains name sections)
unfolding moved_sections_from section_references_moved_checked
moved_sections_from-contains name rev_index reloc_sections [] sections = refl
moved_sections_from-contains name rev_index reloc_sections (sym_id ∷ moved_ids) sections =
    let relocs = iter_relocs rev_index sym_id in
    moved_sections_from-contains name rev_index reloc_sections moved_ids
      (add_reloc_sections reloc_sections relocs sections)
    ∙ ground (arith, any_in_section-add name reloc_sections relocs sections)

-- The set of the sections with a relocation of a moved symbol holds a name just when the test of that one
-- section succeeds.
pub contains-moved_reloc_sections :
    (name : Bytes) (rev_index : RelocReverseIndex) (reloc_sections : List Bytes)
    (moved_ids : List ℕ)
    → contains name (moved_reloc_sections moved_ids rev_index reloc_sections)
      ≡ section_references_moved_checked name rev_index reloc_sections moved_ids
unfolding contains get
contains-moved_reloc_sections name rev_index reloc_sections moved_ids =
    moved_sections_from-contains name rev_index reloc_sections moved_ids [] ∙ ground arith
