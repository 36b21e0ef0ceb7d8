-- ===== src/Layout/RelaDyn/Counted.antt =====
-- `.rela.dyn`, sized before layout by the counts of peony-reloc/src/dynamic.rs and tls.rs and assembled after it
-- (peony-layout/src/lib.rs).
use peony.Base.{ℕ, ◌+◌, ◌*◌, ◌^◌, ◌≤◌, ◌<◌, ◌≡◌, Bool, List, arith, length}
use peony.Layout.RelaDyn.{RelaLayout, rela_dyn_section_size, append_all_dynamic_relocs}
use peony.Layout.RelaDyn.Complete.{contents, append_all_dynamic_relocs_patched}
use peony.Object.{InputObject}
use peony.Reloc.Dynamic.{
  DynamicRelocCounts, DataLayout, count_dynamic_relocs, collect_data_and_symbolic_relocs,
}
use peony.Reloc.Dynamic.Covers.{HasPlainImports}
use peony.Reloc.Dynamic.Room.{collect_data_and_symbolic_relocs-count_dynamic_relocs}
use peony.Reloc.Tls.{TlsDynReloc, TlsGotInfo}
use peony.Symbols.Table.{SymbolTable}

module _ (objects : List InputObject) (symbols : SymbolTable) (data_layout : DataLayout)
    (tls_got : TlsGotInfo) (is_shared : Bool) (layout : RelaLayout) (tls : List TlsDynReloc) where
  abbrev counts : DynamicRelocCounts
  counts = count_dynamic_relocs objects symbols data_layout.got_slots tls_got is_shared

  -- The size that the layout gives the section: the counted relocations and the two suffixes.
  abbrev pub reserved : ℕ
  reserved =
      length layout.dyn_blobs.rela_glob_dat
      + length layout.dyn_blobs.rela_copy
      + 24 * (counts.relative_total + counts.tls + counts.symbolic_data)

  -- A section `.rela.dyn` of at least the size that the counts before layout give holds, after it, every data
  -- relocation that the single pass collects, the TLS ones and the two suffixes, if no imported symbol is an
  -- IFUNC, the GOT slots are those that were counted and the TLS relocations are no more than were counted.
  pub append_all_dynamic_relocs-count_dynamic_relocs :
      HasPlainImports symbols
      → length tls ≤ counts.tls
      → reserved ≤ rela_dyn_section_size layout
      → rela_dyn_section_size layout < 2 ^ 64
      → let (relative, irelative, symbolic) =
          collect_data_and_symbolic_relocs objects symbols data_layout in
        (append_all_dynamic_relocs layout relative irelative tls symbolic).dyn_blobs.rela_dyn
        ≡ contents layout relative irelative tls symbolic
  append_all_dynamic_relocs-count_dynamic_relocs fair few room word =
      let (relative, irelative, symbolic) =
        collect_data_and_symbolic_relocs objects symbols data_layout in
      let (plain, ifuncs, imported) =
        collect_data_and_symbolic_relocs-count_dynamic_relocs objects symbols data_layout tls_got
          is_shared fair in
      (append_all_dynamic_relocs_patched layout relative irelative tls symbolic (omega arith)
        word).0
