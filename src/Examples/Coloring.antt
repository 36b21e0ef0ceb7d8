-- ===== src/Examples/Coloring.antt =====
-- A run of the red-green pass (peony-cache/src/lib.rs).
use peony.Base.{ℕ, ◌≡◌, ◌≢◌, refl, List, [], ◌∷◌, some, arith, Nodup, Mem, get_elem?}
use peony.Base.Bytes.{Bytes, bytes_eq}
use peony.Base.Map.{get, insert, bytes_key}
use peony.Cache.Index
use peony.Cache.Index.{RelocReverseIndex, new, insert_all, iter_relocs, chain_from}
use peony.Cache.Index.Contents.{reloc_ids}
use peony.Cache.Plan.{
  SectionColor, green, red, Fingerprint, SectionRecord, any_in_section,
  section_references_moved_checked,
}
use peony.Cache.RedGreen.{
  decoded, cache_version, fingerprint_eq, prev_fps, fingerprint_unchanged, color_sections,
  compute_red_green,
}
use peony.Cache.RedGreen.Entries.{IsLastOf, compute_red_green-green}
use peony.Examples.Data.{f_name}

abbrev print : Fingerprint
print = record { len = 8; hash = 1 }

-- The manifest has the section `f` as it is now.
abbrev manifest : List SectionRecord
manifest =
    record {
      name = f_name;
      fingerprint = print;
      file_offset = 64;
      size = 8;
      capacity = 16;
      virtual_address = 4096;
    }
    ∷ []

-- The relocation 0 is of the symbol 0 and lies in `f`, the relocation 1 of the symbol 1, which moved, and lies in `g`.
abbrev entries : List (ℕ × ℕ)
entries = (0, 0) ∷ (1, 1) ∷ []

abbrev index : RelocReverseIndex
index = insert_all (new 2 2) entries

abbrev reloc_sections : List Bytes
reloc_sections = f_name ∷ (103 ∷ []) ∷ []

abbrev sections : List (Bytes × Fingerprint)
sections = (f_name, print) ∷ (103 ∷ [], print) ∷ []

abbrev coloring : List (Bytes × SectionColor)
coloring = (f_name, green) ∷ (103 ∷ [], red) ∷ []

colored_so :
    compute_red_green (decoded cache_version manifest) sections (1 ∷ []) index reloc_sections
    ≡ some coloring
unfolding bytes_eq get insert new insert_all Index.insert iter_relocs chain_from any_in_section
    section_references_moved_checked fingerprint_eq prev_fps fingerprint_unchanged color_sections
    compute_red_green
colored_so = refl

green_f : get f_name coloring ≡ some green
unfolding bytes_eq get
green_f = refl

distinct : Nodup (reloc_ids entries)
unfolding reloc_ids
distinct = (ground arith, (ground arith, tt))

compute_red_green-green_example :
    ((records : List SectionRecord) × (decoded cache_version manifest
        ≡ decoded cache_version records)
      × ((fp : Fingerprint) × Mem (f_name, fp) sections × IsLastOf f_name fp records))
    × ((s r : ℕ) → Mem s (1 ∷ []) → Mem (s, r) entries → get_elem? reloc_sections r ≢ some f_name)
compute_red_green-green_example =
    compute_red_green-green (decoded cache_version manifest) sections (1 ∷ []) 2 2 entries
      reloc_sections coloring f_name
      ((omega arith, omega arith, omega arith, (omega arith, omega arith, omega arith, tt)))
      distinct (omega arith) colored_so green_f
