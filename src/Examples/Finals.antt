-- ===== src/Examples/Finals.antt =====
-- Runs of the alignment of addresses, of the placement, and of the addresses of symbols
-- (peony-layout/src/lib.rs).
use peony.Base.{ℕ, ◌+◌, ◌*◌, ◌≤◌, ◌<◌, ◌≡◌, refl, arith, true, false, ◌⊎◌, inl, [], ◌∷◌, none, some}
use peony.Base.Bytes.{bytes_eq}
use peony.Base.Map.{get, bytes_key, pair_eq}
use peony.Base.Word.{wrapping_add}
use peony.Layout.Align.{align_up}
use peony.Layout.Align.Bounds.{align_up_bounds}
use peony.Layout.Finalize.{SymbolLayout, updates_of, is_weak, check_undefined, finalize_symbols}
use peony.Layout.Finalize.Final.{finalize_symbols-located, check_undefined-weak}
use peony.Object.{global}
use peony.Symbols.Resolution.{SymbolResolution, is_defined}
use peony.Symbols.Table.{SymbolTable, lookup}
use peony.Examples.Data.{f_name}

align_up_bounds_example :
    (20 ≤ align_up 20 16) × (align_up 20 16 < 20 + 16) × ((q : ℕ) × (align_up 20 16 ≡ q * 16))
align_up_bounds_example = align_up_bounds 20 16 (4, 60, refl, refl) (omega arith)

-- `f` is defined at the offset 4 of the section 1 of the object 0.
abbrev f_entry : SymbolResolution
f_entry = record {
  id = 0;
  binding = global;
  defined_in = some 0;
  section_index = some 1;
  value = 4;
  size = 0;
  common = none;
  import = false;
  copy_reloc = false;
  dynsym_index = 0;
  virtual_address = 0;
  got_address = 0;
  plt_address = 0;
  gottp_address = 0;
  version = none;
  soname = none;
  is_ifunc = false;
  st_type = 2;
  visibility = 0;
}

abbrev symbols : SymbolTable
symbols = record { resolutions = (f_name, f_entry) ∷ []; names = f_name ∷ []; object_paths = [] }

abbrev layout : SymbolLayout
layout = record {
  addresses = ((0, 1), 0x401000) ∷ [];
  common = [];
  copy_relocs = [];
  got_slots = 0 ∷ [];
  got_base = 0x402000;
  plt_slots = [];
  plt_base = 0;
}

f_there : lookup symbols f_name ≡ some f_entry
unfolding bytes_eq get lookup
f_there = refl

section_there : get (0, 1) layout.addresses ≡ some 0x401000
unfolding get
section_there = refl

finalize_symbols-located_example :
    (out : SymbolResolution) × (lookup (finalize_symbols symbols layout) f_name ≡ some out)
    × (out.virtual_address ≡ wrapping_add 0x401000 4)
unfolding updates_of
finalize_symbols-located_example =
    finalize_symbols-located symbols layout f_name f_entry 0 1 0x401000 f_there refl refl refl
      section_there tt tt

nothing_undefined : check_undefined symbols.resolutions ≡ none
unfolding bytes_eq is_defined check_undefined
nothing_undefined = refl

check_undefined-weak_example : (is_defined f_entry ≡ true) ⊎ (is_weak f_entry.binding ≡ true)
check_undefined-weak_example =
    check_undefined-weak symbols.resolutions f_name f_entry nothing_undefined (inl refl)
      (ground arith)
