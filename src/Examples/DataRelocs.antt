-- ===== src/Examples/DataRelocs.antt =====
-- Runs of the dynamic relocations of data (peony-reloc/src/dynamic.rs).
use peony.Base.{
  ℕ, ◌+◌, ◌*◌, ◌<◌, ◌^◌, arith, ◌≤◌, ◌≡◌, refl, Bool, true, false, true≢false, sym, ◌∙◌, List, [],
  ◌∷◌, Option, none, some, length, ap, some-injective, none-ne-some, if◌then◌else◌,
}
use peony.Base.Bytes.{bytes_eq}
use peony.Base.Map.{get}
use peony.Object.{InputObject, symbol_by_index, symbol_pos, InputSection}
use peony.Symbols.Resolution.{SymbolResolution, is_defined, make_undefined_resolution}
use peony.Symbols.Table.{SymbolTable, lookup}
use peony.Reloc.Tls.{TlsGotInfo, count_tls_relocs}
use peony.Reloc.Dynamic.{
  DataLayout, count_objects, count_sections, count_relocs, count_reloc, count_symbol, count_global,
  count_got, count_got_slot, count_dynamic_relocs, collect_dynamic_data_relocs,
  collect_symbolic_data_relocs, collect_data_and_symbolic_relocs,
}
use peony.Reloc.Dynamic.Agree.{count_dynamic_relocs-count_relative}
use peony.Reloc.Dynamic.Counts.{
  count_relative, count_got_relative, count_irelative, count_symbolic_data_relocs,
}
use peony.Reloc.Dynamic.Covers.{HasPlainImports}
use peony.Reloc.Dynamic.Room.{collect_data_and_symbolic_relocs-count_dynamic_relocs}
use peony.Reloc.Dynamic.Single.{collect_data_and_symbolic_relocs-collect_dynamic_data_relocs}
use peony.Layout.RelaDyn.{
  RelaLayout, rela_dyn_section_size, append_all_dynamic_relocs, patch_dt_tag, dt_relasz,
  dt_relacount,
}
use peony.Layout.RelaDyn.Dynamic.{dyn_bytes}
use peony.Layout.RelaDyn.Complete.{contents, append_all_dynamic_relocs_lem}
use peony.Layout.RelaDyn.Counted.{reserved, append_all_dynamic_relocs-count_dynamic_relocs}
use peony.Examples.Data.{g_name, reloc, section, object, weak_f, wanted_g}

-- Two absolute words against the symbol 1, which is `g`.
abbrev words : InputSection
words =
    section (1 ∷ 2 ∷ 3 ∷ 4 ∷ 5 ∷ 6 ∷ 7 ∷ 8 ∷ 9 ∷ 10 ∷ 11 ∷ 12 ∷ 13 ∷ 14 ∷ 15 ∷ 16 ∷ [])
      (reloc 1 0 1 ∷ reloc 1 8 1 ∷ [])

abbrev objects : List InputObject
objects = object [] (words ∷ []) (weak_f ∷ wanted_g ∷ []) ∷ []

-- `g` is defined in the image, at the address 4096, and has the id 0.
abbrev defined_g : SymbolResolution
defined_g = record make_undefined_resolution { id = 0; defined_in = some 1; virtual_address = 4096 }

abbrev table : SymbolTable
table = record { resolutions = (g_name, defined_g) ∷ []; names = g_name ∷ []; object_paths = [] }

abbrev layout : DataLayout
layout = record { addresses = ((0, 1), 8192) ∷ []; got_slots = 0 ∷ []; got_base = 12288 }

abbrev no_tls : TlsGotInfo
no_tls = record { gd = []; ie = []; desc = []; ldm = false }

unfoldable relocs : List (ℕ × ℕ) × List (ℕ × ℕ) × List (ℕ × ℕ × ℕ)
relocs = collect_data_and_symbolic_relocs objects table layout

collect_data_and_symbolic_relocs-collect_dynamic_data_relocs_example : relocs ≡ (
  (collect_dynamic_data_relocs objects table layout).0,
  (collect_dynamic_data_relocs objects table layout).1,
  collect_symbolic_data_relocs objects table layout,
)
unfolding relocs
collect_data_and_symbolic_relocs-collect_dynamic_data_relocs_example =
    collect_data_and_symbolic_relocs-collect_dynamic_data_relocs objects table layout

plain_entry :
    (here : Bool) (r : SymbolResolution)
    → (if here then some defined_g else none) ≡ some r
    → r.is_ifunc ≡ false
unfolding make_undefined_resolution
plain_entry true r e = sym (ap (λ x. x.is_ifunc) (some-injective defined_g r e))
plain_entry false r e = absurd (none-ne-some r e)

-- The table's only resolution is not imported.
table-HasPlainImports : HasPlainImports table
unfolding lookup get
table-HasPlainImports name r found imported = plain_entry (bytes_eq g_name name) r found

collect_data_and_symbolic_relocs-count_dynamic_relocs_example :
    let counts = count_dynamic_relocs objects table (0 ∷ []) no_tls true in
    let (relatives, irelatives, symbolics) = relocs in
    (length relatives + counts.irelative ≤ counts.relative_total)
    × (length irelatives ≤ counts.irelative)
    × (length symbolics ≤ counts.symbolic_data)
unfolding relocs
collect_data_and_symbolic_relocs-count_dynamic_relocs_example =
    collect_data_and_symbolic_relocs-count_dynamic_relocs objects table layout no_tls true
      table-HasPlainImports

count_dynamic_relocs-count_relative_example :
    let counts = count_dynamic_relocs objects table (0 ∷ []) no_tls true in
    (counts.relative_total ≡ count_relative objects table + count_got_relative (0 ∷ []) table)
    × (counts.irelative ≡ count_irelative objects table (0 ∷ []))
    × (counts.symbolic_data ≡ count_symbolic_data_relocs objects table)
    × (counts.tls ≡ count_tls_relocs table no_tls true)
count_dynamic_relocs-count_relative_example =
    count_dynamic_relocs-count_relative objects table (0 ∷ []) no_tls true

-- The section `.rela.dyn` has room for the three entries.
abbrev rela_layout : RelaLayout
rela_layout = record {
  dyn_blobs = record { dynamic = []; rela_glob_dat = []; rela_copy = []; rela_dyn = [] };
  rela_dyn_size = some 72;
}

-- The address, the size and the count of `.rela.dyn`, still without values, and the end.
abbrev dynamic_tags : List (ℕ × ℕ)
dynamic_tags = (7, 512) ∷ (dt_relasz, 0) ∷ (dt_relacount, 0) ∷ (0, 0) ∷ []

abbrev tagged_layout : RelaLayout
tagged_layout = record {
  dyn_blobs = record {
    dynamic = dyn_bytes dynamic_tags;
    rela_glob_dat = [];
    rela_copy = [];
    rela_dyn = [];
  };
  rela_dyn_size = some 72;
}

append_all_dynamic_relocs_lem_example :
    let out = append_all_dynamic_relocs tagged_layout ((8192, 4096) ∷ []) [] [] [] in
    (out.dyn_blobs.rela_dyn ≡ contents tagged_layout ((8192, 4096) ∷ []) [] [] [])
    × (out.dyn_blobs.dynamic
        ≡ dyn_bytes ((7, 512) ∷ (dt_relasz, 24) ∷ (dt_relacount, 1) ∷ (0, 0) ∷ []))
unfolding rela_dyn_section_size peony.Layout.RelaDyn.rela
append_all_dynamic_relocs_lem_example =
    append_all_dynamic_relocs_lem tagged_layout ((8192, 4096) ∷ []) [] [] [] dynamic_tags
      (omega arith, (omega arith, (omega arith, (omega arith, tt)))) refl (omega arith)
      (omega arith)

-- Two data relocations and one of a GOT slot are counted.
counted_size : reserved objects table layout no_tls true rela_layout [] ≡ 72
unfolding count_dynamic_relocs count_objects count_sections count_relocs count_reloc count_symbol
    count_global count_got count_got_slot count_tls_relocs is_defined make_undefined_resolution
    lookup get symbol_by_index symbol_pos peony.Object.Index.position peony.Base.Bytes.bytes_eq
    peony.Symbols.Updates.name_by_id peony.Reloc.Tls.count_gd
counted_size = refl

append_all_dynamic_relocs-count_dynamic_relocs_example :
    let (relative, irelative, symbolic) = relocs in
    (append_all_dynamic_relocs rela_layout relative irelative [] symbolic).dyn_blobs.rela_dyn
    ≡ contents rela_layout relative irelative [] symbolic
unfolding relocs rela_dyn_section_size
append_all_dynamic_relocs-count_dynamic_relocs_example =
    append_all_dynamic_relocs-count_dynamic_relocs objects table layout no_tls true rela_layout []
      table-HasPlainImports (omega arith) (omega (arith, counted_size)) (omega arith)
