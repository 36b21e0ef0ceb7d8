-- ===== src/Reloc/Scan.antt =====
-- peony-reloc/src/scan.rs: which synthetic slots the relocations of the input ask for. The parallel
-- and the serial scan of the objects give the same vector, in the order of the objects.
pub mod Step
pub mod Wanted
pub mod Got
use peony.Base.{
  ℕ, ◌+◌, Bool, true, false, not, ◌&&◌, ◌||◌, List, [], ◌∷◌, ◌++◌, Option, none, some, ◌>>=◌, ◌==◌,
  if◌then◌else◌, get_elem?,
}
use peony.Base.Bytes.{Bytes, bytes_eq}
use peony.Object.{
  Binding, local, global, weak, InputReloc, InputSection, InputSymbol, InputObject, symbol_pos,
  symbol_by_index,
}
use peony.Symbols.Resolution.{SymbolResolution, is_defined}
use peony.Symbols.Table.{SymbolTable, lookup}
use peony.Symbols.Updates.{ensure_id}
use peony.Reloc.Types.{
  code_of, reloc_type, needs_got, gottpoff, tlsgd, tlsld, gotpc32_tlsdesc, plt32,
}
use peony.Reloc.Slots.{
  TlsRef, local_ref, global_ref, SyntheticSlot, got, plt, tls_gd, tls_ie, tls_ldm, tls_desc,
  RelocScanResult, no_slots, add,
}

abbrev pub is_local : Binding → Bool
is_local local = true
is_local _ = false

abbrev pub is_weak : Binding → Bool
is_weak weak = true
is_weak _ = false

-- "__tls_get_addr".
abbrev pub tls_get_addr : Bytes
tls_get_addr = 95 ∷ 95 ∷ 116 ∷ 108 ∷ 115 ∷ 95 ∷ 103 ∷ 101 ∷ 116 ∷ 95 ∷ 97 ∷ 100 ∷ 100 ∷ 114 ∷ []

-- The closure `tls_ref`.
unfoldable pub tls_ref : ℕ → ℕ → SymbolTable → InputSymbol → TlsRef
tls_ref obj_id sym_pos symbols sym =
    if is_local sym.binding then local_ref obj_id sym_pos else elim (lookup symbols sym.name) [
      | some r ↦ global_ref r.id
      | none ↦ local_ref obj_id sym_pos
    ]

abbrev pub is_imported : Option SymbolResolution → Bool
is_imported none = false
is_imported (some r) = r.import

-- The slot that a reference through the GOT or the PLT asks for, keyed by the global id.
unfoldable pub symbol_slot : ℕ → Bool → InputSymbol → SymbolResolution → Option SyntheticSlot
symbol_slot r_type shared sym res =
    if needs_got (reloc_type r_type) && (is_defined res || res.import || is_weak res.binding)
    then some (got res.id)
    else if r_type == code_of plt32
    then if res.import && (shared || not (bytes_eq sym.name tls_get_addr))
        || res.is_ifunc && is_defined res && not res.import
      then some (plt res.id)
      else none
    else none

-- One round of the loop of `scan_object`, for a relocation whose symbol is known.
unfoldable pub slot_for : ℕ → ℕ → SymbolTable → Bool → InputSymbol → ℕ → Option SyntheticSlot
slot_for obj_id sym_pos symbols shared sym r_type =
    if r_type == code_of gottpoff
    then some (tls_ie (tls_ref obj_id sym_pos symbols sym))
    else if not shared
        && (r_type == code_of tlsgd || r_type == code_of gotpc32_tlsdesc)
        && not (is_local sym.binding)
        && is_imported (lookup symbols sym.name)
    then some (tls_ie (tls_ref obj_id sym_pos symbols sym))
    else if shared && (r_type == code_of tlsgd || r_type == code_of tlsld)
    then some
        (if r_type == code_of tlsgd then tls_gd (tls_ref obj_id sym_pos symbols sym) else tls_ldm)
    else if shared && r_type == code_of gotpc32_tlsdesc
    then some (tls_desc (tls_ref obj_id sym_pos symbols sym))
    else lookup symbols sym.name >>= λ res. symbol_slot r_type shared sym res

-- One round; it pushes at most one slot.
unfoldable pub scan_reloc : InputObject → ℕ → SymbolTable → Bool → InputReloc → Option SyntheticSlot
scan_reloc obj obj_id symbols shared reloc = symbol_pos obj reloc.symbol >>= λ sym_pos.
    get_elem? obj.symbols sym_pos >>= λ sym. slot_for obj_id sym_pos symbols shared sym reloc.r_type

abbrev pub push_slot : Option SyntheticSlot → List SyntheticSlot → List SyntheticSlot
push_slot none slots = slots
push_slot (some s) slots = s ∷ slots

unfoldable pub scan_relocs :
    InputObject → ℕ → SymbolTable → Bool → List InputReloc → List SyntheticSlot
scan_relocs obj obj_id symbols shared [] = []
scan_relocs obj obj_id symbols shared (reloc ∷ relocs) =
    push_slot (scan_reloc obj obj_id symbols shared reloc)
      (scan_relocs obj obj_id symbols shared relocs)

unfoldable pub scan_sections :
    InputObject → ℕ → SymbolTable → Bool → List InputSection → List SyntheticSlot
scan_sections obj obj_id symbols shared [] = []
scan_sections obj obj_id symbols shared (sec ∷ secs) =
    scan_relocs obj obj_id symbols shared sec.relocs ++ scan_sections obj obj_id symbols shared secs

unfoldable pub scan_object : InputObject → ℕ → SymbolTable → Bool → List SyntheticSlot
scan_object obj obj_id symbols shared = scan_sections obj obj_id symbols shared obj.sections

-- The vector `per_object`, from the object with the id `obj_id` on.
unfoldable pub scan_objects : ℕ → SymbolTable → Bool → List InputObject → List (List SyntheticSlot)
scan_objects obj_id symbols shared [] = []
scan_objects obj_id symbols shared (obj ∷ objs) =
    scan_object obj obj_id symbols shared ∷ scan_objects (obj_id + 1) symbols shared objs

unfoldable pub add_slots : RelocScanResult → List SyntheticSlot → RelocScanResult
add_slots result [] = result
add_slots result (slot ∷ slots) = add_slots (add result slot) slots

unfoldable pub add_all : RelocScanResult → List (List SyntheticSlot) → RelocScanResult
add_all result [] = result
add_all result (slots ∷ rest) = add_all (add_slots result slots) rest

unfoldable pub scan_relocations : List InputObject → SymbolTable → Bool → RelocScanResult
scan_relocations objects symbols shared = add_all no_slots (scan_objects 0 symbols shared objects)

-- The test `is_weak_undef`.
abbrev pub is_weak_undef : Option SymbolResolution → Bool
is_weak_undef none = false
is_weak_undef (some r) = not (is_defined r) && not r.import

-- One round of the loop of `assign_weak_got_ids`.
unfoldable pub assign_weak_got_id : InputObject → InputReloc → SymbolTable → SymbolTable
assign_weak_got_id obj reloc symbols =
    if not (needs_got (reloc_type reloc.r_type))
    then symbols
    else elim (symbol_by_index obj reloc.symbol) [
      | none ↦ symbols
      | some sym ↦
          if is_weak sym.binding && is_weak_undef (lookup symbols sym.name)
          then (ensure_id symbols sym.name).0
          else symbols
    ]

unfoldable pub assign_in_relocs : InputObject → List InputReloc → SymbolTable → SymbolTable
assign_in_relocs obj [] symbols = symbols
assign_in_relocs obj (reloc ∷ relocs) symbols =
    assign_in_relocs obj relocs (assign_weak_got_id obj reloc symbols)

unfoldable pub assign_in_sections : InputObject → List InputSection → SymbolTable → SymbolTable
assign_in_sections obj [] symbols = symbols
assign_in_sections obj (sec ∷ secs) symbols =
    assign_in_sections obj secs (assign_in_relocs obj sec.relocs symbols)

unfoldable pub assign_weak_got_ids : List InputObject → SymbolTable → SymbolTable
assign_weak_got_ids [] symbols = symbols
assign_weak_got_ids (obj ∷ objs) symbols =
    assign_weak_got_ids objs (assign_in_sections obj obj.sections symbols)
