-- ===== src/Icf/Taint.antt =====
-- Which sections may not be folded (peony-layout/src/icf.rs): the tables of address-significant symbols and the
-- relocations that take an address.
use peony.Base.{
  ℕ, zero, suc, ◌+◌, ◌*◌, ◌/◌, ◌%◌, ◌^◌, Bool, true, false, ◌&&◌, ◌||◌, not, List, [], ◌∷◌, ◌++◌,
  Option, none, some, ◌>>=◌, ◌==◌, if◌then◌else◌, leb, length, get_elem?,
}
use peony.Base.Bytes.{Bytes, codes, starts_with}
use peony.Base.Map.{Eq, nat_eq, pair_eq, bytes_key}
use peony.Object.{InputObject, InputSection, InputReloc, InputSymbol, symbol_pos}
use peony.Reloc.Scan.{is_local, is_weak}

-- Membership in a hash set.
unfoldable pub has {ℓ} : {A : Type ℓ} ⦃e : Eq A⦄ → A → List A → Bool
has x [] = false
has ⦃e⦄ x (y ∷ ys) = e.beq y x || has x ys

unfoldable pub reloc_takes_address : ℕ → Bool
reloc_takes_address r_type = not (r_type == 0 || r_type == 2 || r_type == 4)

abbrev pub sht_llvm_addrsig : ℕ
sht_llvm_addrsig = 0x6fff4c03

pub record AddrTaint : Type 0 where
  pub by_name : List Bytes
  pub by_section : List (ℕ × ℕ)
  pub objects_with_addrsig : List ℕ
  pub addrsig_syms : List (ℕ × ℕ)

abbrev pub no_taint : AddrTaint
no_taint = record { by_name = []; by_section = []; objects_with_addrsig = []; addrsig_syms = [] }

-- The loop, with the result so far and the shift; the number, and the bytes after it.
unfoldable pub read_uleb128_from : ℕ → ℕ → Bytes → Option (ℕ × Bytes)
read_uleb128_from result shift [] = none
read_uleb128_from result shift (byte ∷ bytes) =
    let next = result + byte % 128 * 2 ^ shift % 2 ^ 64 in
    let rest = read_uleb128_from next (shift + 7) bytes in
    if byte / 128 % 2 == 0 then some (next, bytes) else if leb 64 (shift + 7) then none else rest

unfoldable pub read_uleb128 : Bytes → Option (ℕ × Bytes)
read_uleb128 bytes = read_uleb128_from 0 0 bytes

-- The loop over the table; every number takes a byte at least, so that the length is enough fuel.
unfoldable pub read_addrsig : ℕ → InputObject → ℕ → Bytes → Option (List (ℕ × ℕ))
read_addrsig fuel obj obj_id [] = some []
read_addrsig zero obj obj_id (byte ∷ bytes) = none
read_addrsig (suc fuel) obj obj_id (byte ∷ bytes) =
    read_uleb128 (byte ∷ bytes) >>= λ (sym_idx, rest). symbol_pos obj sym_idx >>= λ sym_pos.
    read_addrsig fuel obj obj_id rest >>= λ more. some ((obj_id, sym_pos) ∷ more)

-- `find` of the table's section.
unfoldable pub find_addrsig : List InputSection → Option InputSection
find_addrsig [] = none
find_addrsig (sec ∷ secs) = if sec.sh_type == sht_llvm_addrsig then some sec else find_addrsig secs

-- What a table that decodes adds.
abbrev pub add_table : AddrTaint → ℕ → Option (List (ℕ × ℕ)) → AddrTaint
add_table t obj_id none = t
add_table t obj_id (some syms) = record t {
  objects_with_addrsig = obj_id ∷ t.objects_with_addrsig;
  addrsig_syms = syms ++ t.addrsig_syms;
}

unfoldable pub parse_addrsig : AddrTaint → InputObject → ℕ → AddrTaint
parse_addrsig t obj obj_id =
    add_table t obj_id
      (find_addrsig obj.sections >>= λ sec. read_addrsig (length sec.bytes) obj obj_id sec.bytes)

abbrev pub is_empty_name : Bytes → Bool
is_empty_name [] = true
is_empty_name (c ∷ cs) = false

-- A nameless symbol taints its section, another its name.
unfoldable pub taint_symbol : AddrTaint → ℕ → InputSymbol → AddrTaint
taint_symbol t obj_id sym =
    if is_empty_name sym.name
    then (elim sym.section [
      | none ↦ t
      | some si ↦ record t { by_section = (obj_id, si) ∷ t.by_section }
    ])
    else record t { by_name = sym.name ∷ t.by_name }

unfoldable pub taint_one_reloc : AddrTaint → InputObject → ℕ → InputReloc → AddrTaint
taint_one_reloc t obj obj_id r =
    if not (reloc_takes_address r.r_type)
    then t
    else elim (symbol_pos obj r.symbol >>= λ pos. get_elem? obj.symbols pos) [
      | none ↦ t
      | some sym ↦ taint_symbol t obj_id sym
    ]

unfoldable pub taint_relocs : AddrTaint → InputObject → ℕ → List InputReloc → AddrTaint
taint_relocs t obj obj_id [] = t
taint_relocs t obj obj_id (r ∷ rs) = taint_relocs (taint_one_reloc t obj obj_id r) obj obj_id rs

unfoldable pub taint_sections : AddrTaint → InputObject → ℕ → List InputSection → AddrTaint
taint_sections t obj obj_id [] = t
taint_sections t obj obj_id (sec ∷ secs) =
    taint_sections (taint_relocs t obj obj_id sec.relocs) obj obj_id secs

unfoldable pub taint_objects : AddrTaint → ℕ → List InputObject → AddrTaint
taint_objects t obj_id [] = t
taint_objects t obj_id (obj ∷ objs) =
    taint_objects (parse_addrsig (taint_sections t obj obj_id obj.sections) obj obj_id) (obj_id + 1)
      objs

unfoldable pub address_taint : List InputObject → AddrTaint
address_taint objects = taint_objects no_taint 0 objects

-- The test of one symbol of the section: `STV_DEFAULT` is 0.
unfoldable pub is_address_significant : AddrTaint → ℕ → ℕ → InputSymbol → Bool
is_address_significant taint obj_id sym_pos sym =
    if sym.is_undefined
    then false
    else has (obj_id, sym_pos) taint.addrsig_syms
      || (not (is_empty_name sym.name)
          && (starts_with sym.name (codes "_ZTV")
              || starts_with sym.name (codes "_ZTI")
              || starts_with sym.name (codes "_ZTS")
              || has sym.name taint.by_name
              || is_weak sym.binding
              || (not (is_local sym.binding) && sym.visibility == 0)))

-- `sym.section == Some(section_index)`.
abbrev pub is_in_section : ℕ → InputSymbol → Bool
is_in_section section_index sym = elim sym.section [ none ↦ false | some si ↦ si == section_index ]

-- The loop over the symbols from the position on.
unfoldable pub any_significant : AddrTaint → ℕ → ℕ → ℕ → List InputSymbol → Bool
any_significant taint obj_id section_index pos [] = false
any_significant taint obj_id section_index pos (sym ∷ syms) =
    (is_in_section section_index sym && is_address_significant taint obj_id pos sym)
    || any_significant taint obj_id section_index (pos + 1) syms

unfoldable pub defines_address_significant : InputObject → ℕ → ℕ → AddrTaint → Bool
defines_address_significant obj obj_id sec_pos taint = elim (get_elem? obj.sections sec_pos) [
  | none ↦ true
  | some sec ↦
      not (has obj_id taint.objects_with_addrsig)
      || has (obj_id, sec.index) taint.by_section
      || any_significant taint obj_id sec.index 0 obj.symbols
]
