-- ===== src/Cache/RedGreen.antt =====
-- The red-green pass over the output sections (peony-cache/src/lib.rs). The manifest file, which is read and
-- decoded outside, comes as what the read gives; of a decoded manifest the pass uses the version and the sections.
pub mod Entries
pub mod Green
use peony.Base.{
  ℕ, ◌≡◌, refl, ap, sym, ◌∙◌, Bool, true, false, ◌&&◌, not, ◌⊎◌, inl, inr, List, [], ◌∷◌, Option,
  none, some, ◌==◌, arith, if◌then◌else◌, Mem, Bool-cases, Option-cases,
}
use peony.Base.Bytes.{Bytes, bytes_eq, bytes_eq_iff}
use peony.Base.Map.{get, insert, bytes_key, get-insert}
use peony.Cache.Index.{RelocReverseIndex}
use peony.Cache.Plan.{
  SectionColor, green, red, Fingerprint, SectionRecord, section_references_moved_checked,
}

abbrev pub cache_version : ℕ
cache_version = 7

pub data ManifestFile : Type 0 where
  absent : ManifestFile
  unreadable : ManifestFile
  undecodable : ManifestFile
  decoded : (version : ℕ) (sections : List SectionRecord) → ManifestFile

abbrev pub Coloring : Type 0
Coloring = List (Bytes × SectionColor)

unfoldable pub all_red : List (Bytes × Fingerprint) → Coloring → Coloring
all_red [] coloring = coloring
all_red ((name, fp) ∷ sections) coloring = all_red sections (insert name red coloring)

unfoldable pub fingerprint_eq : Fingerprint → Fingerprint → Bool
fingerprint_eq a b = (a.len == b.len) && (a.hash == b.hash)

unfoldable pub prev_fps :
    List SectionRecord → List (Bytes × Fingerprint) → List (Bytes × Fingerprint)
prev_fps [] fps = fps
prev_fps (s ∷ sections) fps = prev_fps sections (insert s.name s.fingerprint fps)

unfoldable pub fingerprint_unchanged : List (Bytes × Fingerprint) → Bytes → Fingerprint → Bool
fingerprint_unchanged fps name fp = elim (get name fps) [
  | none ↦ false
  | some prev ↦ fingerprint_eq prev fp
]

module _ (fps : List (Bytes × Fingerprint)) (moved_symbol_ids : List ℕ)
    (rev_index : RelocReverseIndex) (reloc_sections : List Bytes) where
  abbrev pub color_of : Bytes → Fingerprint → SectionColor
  color_of name fp =
      if fingerprint_unchanged fps name fp
        && not (section_references_moved_checked name rev_index reloc_sections moved_symbol_ids)
      then green
      else red

  -- The loop over the current sections.
  unfoldable pub color_sections : List (Bytes × Fingerprint) → Coloring → Coloring
  color_sections [] coloring = coloring
  color_sections ((name, fp) ∷ sections) coloring =
      color_sections sections (insert name (color_of name fp) coloring)

-- `none` is the error of a manifest that cannot be read.
unfoldable pub compute_red_green :
    ManifestFile
    → List (Bytes × Fingerprint)
    → List ℕ
    → RelocReverseIndex
    → List Bytes
    → Option Coloring
compute_red_green absent sections ids index rs = some (all_red sections [])
compute_red_green unreadable sections ids index rs = none
compute_red_green undecodable sections ids index rs = some (all_red sections [])
compute_red_green (decoded version manifest_sections) sections ids index rs =
    if not (version == cache_version)
    then some (all_red sections [])
    else some (color_sections (prev_fps manifest_sections []) ids index rs sections [])
