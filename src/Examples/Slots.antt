-- ===== src/Examples/Slots.antt =====
-- Runs of the relocation scan (peony-reloc/src/scan.rs).
use peony.Base.{
  ℕ, ◌≡◌, refl, ◌↔◌, inl, inr, Bool, true, false, List, [], ◌∷◌, Option, none, some, get_elem?, Mem,
  Nodup,
}
use peony.Base.Map.{get, insert}
use peony.Object.{InputObject, symbol_pos}
use peony.Symbols.Resolution.{SymbolResolution, make_undefined_resolution, is_defined}
use peony.Symbols.Table.{SymbolTable, lookup}
use peony.Reloc.Types.{code_of, reloc_type, needs_got}
use peony.Reloc.Slots.{got, add, no_slots, got_symbols}
use peony.Reloc.Scan.{
  symbol_slot, slot_for, scan_reloc, scan_relocs, scan_sections, scan_object, scan_objects,
  add_slots, add_all, scan_relocations,
}
use peony.Reloc.Scan.Wanted.{Asked, scan_relocations-Asked}
use peony.Reloc.Scan.Got.{got_symbols-scan_relocations}
use peony.Examples.Data.{g_name, reloc, code, wanted_g, first_object}

-- The weak reference to `g` is imported from a library as the symbol 7.
abbrev imported_g : SymbolResolution
imported_g = record make_undefined_resolution { id = 7; import = true }

abbrev table : SymbolTable
table = record { resolutions = (g_name, imported_g) ∷ []; names = []; object_paths = [] }

abbrev objects : List InputObject
objects = first_object ∷ first_object ∷ []

-- Both objects ask for the slot.
scan_run : (scan_relocations objects table false).slots ≡ got 7 ∷ []
unfolding scan_relocations scan_objects scan_object scan_sections scan_relocs scan_reloc slot_for
    symbol_slot symbol_pos lookup get insert add_all add_slots add no_slots code_of needs_got
    peony.Reloc.Types.reloc_type is_defined make_undefined_resolution peony.Object.Index.position
    peony.Base.Bytes.bytes_eq
scan_run = refl

scan_relocations-Asked_example :
    Nodup (scan_relocations objects table false).slots
    × (Mem (got 7) (scan_relocations objects table false).slots
        ↔ Asked table false (got 7) 0 objects)
scan_relocations-Asked_example = scan_relocations-Asked table false (got 7) objects

got_symbols-scan_relocations_example : Mem 7 (got_symbols (scan_relocations objects table false))
unfolding make_undefined_resolution
got_symbols-scan_relocations_example =
    got_symbols-scan_relocations objects table false 1 1 first_object code (reloc 9 4 1) wanted_g
      imported_g refl (inl refl) (inr (inl refl))
      (unfold symbol_pos peony.Object.Index.position in refl) refl
      (unfold lookup get peony.Base.Bytes.bytes_eq in refl)
      (unfold needs_got peony.Reloc.Types.reloc_type in refl) (unfold is_defined in refl)
