-- ===== src/Examples/Copies.antt =====
-- A run of the choice of copy relocations (peony-reloc/src/copy.rs).
use peony.Base.{ℕ, ◌≡◌, refl, ◌↔◌, true, List, [], ◌∷◌, Mem, Nodup}
use peony.Base.Map.{get, insert}
use peony.Object.{InputObject, symbol_pos, symbol_by_index}
use peony.Symbols.Resolution.{SymbolResolution, make_undefined_resolution}
use peony.Symbols.Table.{SymbolTable, lookup}
use peony.Reloc.Types.{code_of, may_need_copy_reloc}
use peony.Reloc.Copy.{
  is_cxx_table, is_copyable, copy_candidate, is_read_only, collect_sections, collect_obj, or_insert,
  or_insert_all, merge_found, insert_sorted, sort_by_name, copy_reloc_symbols,
}
use peony.Reloc.Copy.Chosen.{Asks, copy_reloc_symbols-Asks}
use peony.Examples.Data.{f_name, first_object}

-- `f` is a data object of four bytes in a library.
abbrev imported_f : SymbolResolution
imported_f = record make_undefined_resolution { id = 9; import = true; st_type = 1; size = 4 }

abbrev table : SymbolTable
table = record { resolutions = (f_name, imported_f) ∷ []; names = []; object_paths = [] }

abbrev objects : List InputObject
objects = first_object ∷ first_object ∷ []

copy_run : copy_reloc_symbols objects table ≡ 9 ∷ []
unfolding copy_reloc_symbols collect_obj collect_sections is_read_only copy_candidate is_cxx_table
    is_copyable or_insert or_insert_all merge_found insert_sorted sort_by_name get insert lookup
    symbol_by_index symbol_pos may_need_copy_reloc code_of make_undefined_resolution
    peony.Object.Index.position peony.Reloc.Types.reloc_type peony.Base.Bytes.bytes_eq
    peony.Base.Bytes.starts_with
copy_run = refl

copy_reloc_symbols-Asks_example :
    Nodup (copy_reloc_symbols objects table)
    × (Mem 9 (copy_reloc_symbols objects table) ↔ Asks table 9 objects)
copy_reloc_symbols-Asks_example = copy_reloc_symbols-Asks table 9 objects
