-- ===== src/Reloc/Dynamic.antt =====
-- peony-reloc/src/dynamic.rs: the dynamic relocations of absolute 64-bit data and of GOT slots, counted before
-- layout and collected after it.
pub mod Single
pub mod Covers
pub mod Room
pub mod Counts
pub mod Agree
use peony.Base.{
  ℕ, ◌+◌, ◌*◌, ◌/◌, ◌%◌, ◌^◌, Bool, true, false, ◌&&◌, ◌||◌, not, List, [], ◌∷◌, ◌++◌, Option, none,
  some, ◌>>=◌, ◌==◌, ltb, leb, if◌then◌else◌, is_some, length,
}
use peony.Base.Map.{get, pair_eq}
use peony.Base.Sort.{sort_unstable_by, pair_le}
use peony.Base.Word.{wrapping_add}
use peony.Object.{InputObject, InputSection, InputReloc, InputSymbol, symbol_by_index}
use peony.Reloc.Scan.{is_local}
use peony.Reloc.Slots.{filter_map}
use peony.Reloc.Tls.{TlsGotInfo, count_tls_relocs, resolution_of}
use peony.Symbols.Resolution.{SymbolResolution, is_defined}
use peony.Symbols.Table.{SymbolTable, lookup}

pub record DynamicRelocCounts : Type 0 where
  pub relative_total : ℕ
  pub irelative : ℕ
  pub symbolic_data : ℕ
  pub tls : ℕ

abbrev pub no_counts : DynamicRelocCounts
no_counts = record { relative_total = 0; irelative = 0; symbolic_data = 0; tls = 0 }

-- The operator `+`.
abbrev pub add_counts : DynamicRelocCounts → DynamicRelocCounts → DynamicRelocCounts
add_counts a b = record {
  relative_total = a.relative_total + b.relative_total;
  irelative = a.irelative + b.irelative;
  symbolic_data = a.symbolic_data + b.symbolic_data;
  tls = a.tls + b.tls;
}

-- One relative relocation, against an IFUNC or not.
abbrev pub relative_counts : Bool → DynamicRelocCounts
relative_counts ifunc = record {
  relative_total = 1;
  irelative = if ifunc then 1 else 0;
  symbolic_data = 0;
  tls = 0;
}

abbrev pub symbolic_counts : DynamicRelocCounts
symbolic_counts = record { relative_total = 0; irelative = 0; symbolic_data = 1; tls = 0 }

-- The bit `SHF_ALLOC`.
abbrev pub is_alloc : InputSection → Bool
is_alloc sec = not (sec.flags / 2 % 2 == 0)

abbrev pub r64 : ℕ
r64 = 1

-- What a global symbol counts.
unfoldable pub count_global : SymbolResolution → DynamicRelocCounts
count_global res =
    if res.import && not res.copy_reloc
    then symbolic_counts
    else if is_defined res
    then relative_counts (not res.import && res.is_ifunc)
    else no_counts

unfoldable pub count_symbol : SymbolTable → InputSymbol → DynamicRelocCounts
count_symbol symbols sym =
    if is_local sym.binding
    then (if is_some sym.section then relative_counts sym.is_ifunc else no_counts)
    else elim (lookup symbols sym.name) [ none ↦ no_counts | some res ↦ count_global res ]

unfoldable pub count_reloc : SymbolTable → InputObject → InputReloc → DynamicRelocCounts
count_reloc symbols obj reloc =
    if not (reloc.r_type == r64) then no_counts else elim (symbol_by_index obj reloc.symbol) [
      | none ↦ no_counts
      | some sym ↦ count_symbol symbols sym
    ]

unfoldable pub count_relocs : SymbolTable → InputObject → List InputReloc → DynamicRelocCounts
count_relocs symbols obj [] = no_counts
count_relocs symbols obj (reloc ∷ relocs) =
    add_counts (count_reloc symbols obj reloc) (count_relocs symbols obj relocs)

unfoldable pub count_sections : SymbolTable → InputObject → List InputSection → DynamicRelocCounts
count_sections symbols obj [] = no_counts
count_sections symbols obj (sec ∷ secs) =
    add_counts (if is_alloc sec then count_relocs symbols obj sec.relocs else no_counts)
      (count_sections symbols obj secs)

-- The fold of `count_obj` over the objects.
unfoldable pub count_objects : SymbolTable → List InputObject → DynamicRelocCounts
count_objects symbols [] = no_counts
count_objects symbols (obj ∷ objs) =
    add_counts (count_sections symbols obj obj.sections) (count_objects symbols objs)

unfoldable pub count_got_slot : SymbolTable → ℕ → DynamicRelocCounts
count_got_slot symbols id = elim (resolution_of symbols id) [
  | none ↦ no_counts
  | some res ↦
      if (not res.import || res.copy_reloc) && is_defined res
      then relative_counts (not res.import && res.is_ifunc)
      else no_counts
]

unfoldable pub count_got : SymbolTable → List ℕ → DynamicRelocCounts
count_got symbols [] = no_counts
count_got symbols (id ∷ ids) = add_counts (count_got_slot symbols id) (count_got symbols ids)

unfoldable pub count_dynamic_relocs :
    List InputObject → SymbolTable → List ℕ → TlsGotInfo → Bool → DynamicRelocCounts
count_dynamic_relocs objects symbols got_syms tls shared =
    record (add_counts (count_objects symbols objects) (count_got symbols got_syms)) {
      tls = count_tls_relocs symbols tls shared;
    }

-- The fields of `Layout` that the collection reads.
pub record DataLayout : Type 0 where
  pub addresses : List ((ℕ × ℕ) × ℕ)
  pub got_slots : List ℕ
  pub got_base : ℕ

unfoldable pub address_of : DataLayout → ℕ → ℕ → Option ℕ
address_of layout object_id section_index = get (object_id, section_index) layout.addresses

-- An entry that is pushed, with the vector that it goes to.
pub data DataReloc : Type 0 where
  relative irelative : (site value : ℕ) → DataReloc
  symbolic : (site dynsym_index addend : ℕ) → DataReloc

abbrev pub as_relative : DataReloc → Option (ℕ × ℕ)
as_relative (relative site value) = some (site, value)
as_relative _ = none

abbrev pub as_irelative : DataReloc → Option (ℕ × ℕ)
as_irelative (irelative site value) = some (site, value)
as_irelative _ = none

abbrev pub as_symbolic : DataReloc → Option (ℕ × ℕ × ℕ)
as_symbolic (symbolic site dynsym_index addend) = some (site, dynsym_index, addend)
as_symbolic _ = none

-- An IFUNC's entry holds the resolver's address, any other the address plus the addend.
abbrev pub based : Bool → ℕ → ℕ → ℕ → DataReloc
based ifunc site target addend =
    if ifunc then irelative site target else relative site (wrapping_add target addend)

-- The address that a relocation's symbol has in the image, and whether it is an IFUNC.
unfoldable pub image_target : DataLayout → SymbolTable → ℕ → InputSymbol → Option (ℕ × Bool)
image_target layout symbols obj_id sym =
    if is_local sym.binding
    then (sym.section >>= λ si.
        address_of layout obj_id si >>= λ va. some (wrapping_add va sym.value, sym.is_ifunc))
    else (lookup symbols sym.name >>= λ r.
        if is_defined r && (not r.import || r.copy_reloc)
        then some (r.virtual_address, r.is_ifunc)
        else none)

-- A global symbol's entry in the single pass.
unfoldable pub global_reloc : ℕ → SymbolResolution → ℕ → Option DataReloc
global_reloc site res addend =
    if is_defined res && (not res.import || res.copy_reloc)
    then some (based res.is_ifunc site res.virtual_address addend)
    else if res.import && not res.copy_reloc && not (res.dynsym_index == 0)
    then some (symbolic site res.dynsym_index addend)
    else none

-- The entry, if there is one.
abbrev pub entry_of : Option DataReloc → List DataReloc
entry_of none = []
entry_of (some e) = e ∷ []

module _ (layout : DataLayout) (symbols : SymbolTable) where
  -- One round of the loop of `collect_dynamic_data_relocs`.
  unfoldable pub data_reloc : ℕ → InputObject → InputSection → InputReloc → Option DataReloc
  data_reloc obj_id obj sec reloc =
      if not (reloc.r_type == r64)
      then none
      else (symbol_by_index obj reloc.symbol >>= λ sym.
          image_target layout symbols obj_id sym >>= λ target.
          address_of layout obj_id sec.index >>= λ site_va.
          some (based target.1 (wrapping_add site_va reloc.offset) target.0 reloc.addend))

  -- One round of the loop of `collect_symbolic_data_relocs`.
  unfoldable pub symbolic_reloc : ℕ → InputObject → InputSection → InputReloc → Option DataReloc
  symbolic_reloc obj_id obj sec reloc =
      if not (reloc.r_type == r64)
      then none
      else (symbol_by_index obj reloc.symbol >>= λ sym.
          if is_local sym.binding
          then none
          else (lookup symbols sym.name >>= λ res.
              if not res.import || res.copy_reloc || res.dynsym_index == 0
              then none
              else (address_of layout obj_id sec.index >>= λ site_va.
                  some
                    (symbolic (wrapping_add site_va reloc.offset) res.dynsym_index reloc.addend))))

  -- One round of the loop of the single pass, in a section that is placed.
  unfoldable pub any_reloc : ℕ → InputObject → ℕ → InputReloc → Option DataReloc
  any_reloc obj_id obj site_va reloc =
      if not (reloc.r_type == r64)
      then none
      else (symbol_by_index obj reloc.symbol >>= λ sym.
          let site = wrapping_add site_va reloc.offset in
          if is_local sym.binding
          then (sym.section >>= λ si. address_of layout obj_id si >>= λ va.
              some (based sym.is_ifunc site (wrapping_add va sym.value) reloc.addend))
          else (lookup symbols sym.name >>= λ res. global_reloc site res reloc.addend))

  -- The entries of an allocated section.
  unfoldable pub data_section : ℕ → InputObject → InputSection → List DataReloc
  data_section obj_id obj sec =
      if is_alloc sec then filter_map (data_reloc obj_id obj sec) sec.relocs else []

  unfoldable pub symbolic_section : ℕ → InputObject → InputSection → List DataReloc
  symbolic_section obj_id obj sec =
      if is_alloc sec then filter_map (symbolic_reloc obj_id obj sec) sec.relocs else []

  unfoldable pub any_section : ℕ → InputObject → InputSection → List DataReloc
  any_section obj_id obj sec =
      if is_alloc sec
      then (elim (address_of layout obj_id sec.index) [
        | none ↦ []
        | some site_va ↦ filter_map (any_reloc obj_id obj site_va) sec.relocs
      ])
      else []

  -- The entry of the GOT slot `i`.
  unfoldable pub got_reloc : ℕ → ℕ → Option DataReloc
  got_reloc i id = resolution_of symbols id >>= λ res.
      if (res.import && not res.copy_reloc) || not (is_defined res)
      then none
      else (let site = wrapping_add layout.got_base (i * 8) in
          if res.is_ifunc
          then some (irelative site res.virtual_address)
          else some (relative site res.virtual_address))

  unfoldable pub got_relocs : ℕ → List ℕ → List DataReloc
  got_relocs i [] = []
  got_relocs i (id ∷ ids) = entry_of (got_reloc i id) ++ got_relocs (i + 1) ids

-- The loops over the objects and their sections.
module _ (visit : ℕ → InputObject → InputSection → List DataReloc) where
  unfoldable pub over_sections : ℕ → InputObject → List InputSection → List DataReloc
  over_sections obj_id obj [] = []
  over_sections obj_id obj (sec ∷ secs) = visit obj_id obj sec ++ over_sections obj_id obj secs

  unfoldable pub over_objects : ℕ → List InputObject → List DataReloc
  over_objects obj_id [] = []
  over_objects obj_id (obj ∷ objs) =
      over_sections obj_id obj obj.sections ++ over_objects (obj_id + 1) objs

-- The order of the symbolic entries; addends are signed.
abbrev pub triple_le : ℕ × ℕ × ℕ → ℕ × ℕ × ℕ → Bool
triple_le (a, b, c) (x, y, z) =
    ltb a x
    || (a == x && (ltb b y || (b == y && leb ((c + 2 ^ 63) % 2 ^ 64) ((z + 2 ^ 63) % 2 ^ 64))))

abbrev pub sorted_pairs : List (ℕ × ℕ) → List (ℕ × ℕ)
sorted_pairs = sort_unstable_by pair_le

abbrev pub sorted_triples : List (ℕ × ℕ × ℕ) → List (ℕ × ℕ × ℕ)
sorted_triples = sort_unstable_by triple_le

module _ (objects : List InputObject) (symbols : SymbolTable) (layout : DataLayout) where
  unfoldable pub collect_symbolic_data_relocs : List (ℕ × ℕ × ℕ)
  collect_symbolic_data_relocs =
      sorted_triples
        (filter_map as_symbolic (over_objects (symbolic_section layout symbols) 0 objects))

  unfoldable pub collect_dynamic_data_relocs : List (ℕ × ℕ) × List (ℕ × ℕ)
  collect_dynamic_data_relocs =
      let found =
        over_objects (data_section layout symbols) 0 objects
        ++ got_relocs layout symbols 0 layout.got_slots in
      (sorted_pairs (filter_map as_relative found), sorted_pairs (filter_map as_irelative found))

  unfoldable pub collect_data_and_symbolic_relocs : List (ℕ × ℕ) × List (ℕ × ℕ) × List (ℕ × ℕ × ℕ)
  collect_data_and_symbolic_relocs =
      let found =
        over_objects (any_section layout symbols) 0 objects
        ++ got_relocs layout symbols 0 layout.got_slots in
      (
        sorted_pairs (filter_map as_relative found),
        sorted_pairs (filter_map as_irelative found),
        sorted_triples (filter_map as_symbolic found),
      )
