-- ===== src/Reloc/Copy.antt =====
-- peony-reloc/src/copy.rs: the imported data symbols that need a copy relocation. The parallel and
-- the serial walk of the objects give the same vector.
pub mod Merge
pub mod Chosen
use peony.Base.{
  ℕ, ◌/◌, ◌%◌, Bool, true, false, not, ◌&&◌, ◌||◌, List, [], ◌∷◌, ◌++◌, map, Option, none, some,
  ◌>>=◌, ◌==◌, ltb, if◌then◌else◌,
}
use peony.Base.Bytes.{Bytes, starts_with}
use peony.Base.Map.{get, insert, nat_eq}
use peony.Object.{InputReloc, InputSection, InputObject, symbol_by_index}
use peony.Symbols.Resolution.{SymbolResolution}
use peony.Symbols.Table.{SymbolTable, lookup}
use peony.Reloc.Types.{reloc_type, may_need_copy_reloc}
use peony.Reloc.Slots.{filter_map}
use peony.Reloc.Scan.{is_local}

-- "_ZTV", "_ZTT" and "_ZTS".
abbrev pub vtable_prefix : Bytes
vtable_prefix = 95 ∷ 90 ∷ 84 ∷ 86 ∷ []

abbrev pub vtt_prefix : Bytes
vtt_prefix = 95 ∷ 90 ∷ 84 ∷ 84 ∷ []

abbrev pub type_name_prefix : Bytes
type_name_prefix = 95 ∷ 90 ∷ 84 ∷ 83 ∷ []

unfoldable pub is_cxx_table : Bytes → Bool
is_cxx_table name =
    starts_with name vtable_prefix
    || starts_with name vtt_prefix
    || starts_with name type_name_prefix

-- Imported, neither hidden (2) nor protected (3), neither a function (2), an IFUNC (10) nor
-- thread-local (6), and either sized or an object (1).
unfoldable pub is_copyable : SymbolResolution → Bool
is_copyable res =
    res.import
    && not (res.visibility == 2 || res.visibility == 3)
    && not (res.st_type == 2 || res.st_type == 10 || res.st_type == 6)
    && not (res.size == 0 && not (res.st_type == 1))

-- One round of the loop over the relocations; it pushes at most one symbol.
unfoldable pub copy_candidate : InputObject → SymbolTable → InputReloc → Option (ℕ × Bytes)
copy_candidate obj symbols reloc =
    if not (may_need_copy_reloc (reloc_type reloc.r_type))
    then none
    else symbol_by_index obj reloc.symbol >>= λ sym.
        if is_local sym.binding
        then none
        else if is_cxx_table sym.name
        then none
        else lookup symbols sym.name >>= λ res.
            if is_copyable res then some (res.id, sym.name) else none

-- Allocated and not writable: the bits `SHF_ALLOC` and `SHF_WRITE`.
unfoldable pub is_read_only : InputSection → Bool
is_read_only sec = not (sec.flags / 2 % 2 == 0) && sec.flags % 2 == 0

abbrev pub collect_section : InputObject → SymbolTable → InputSection → List (ℕ × Bytes)
collect_section obj symbols sec =
    if is_read_only sec then filter_map (copy_candidate obj symbols) sec.relocs else []

unfoldable pub collect_sections : InputObject → SymbolTable → List InputSection → List (ℕ × Bytes)
collect_sections obj symbols [] = []
collect_sections obj symbols (sec ∷ secs) =
    collect_section obj symbols sec ++ collect_sections obj symbols secs

-- The closure `collect_obj`.
unfoldable pub collect_obj : SymbolTable → InputObject → List (ℕ × Bytes)
collect_obj symbols obj = collect_sections obj symbols obj.sections

-- `out.entry(id).or_insert(name)`. The order in which the hash map gives its entries out is not
-- fixed; here it is that of their insertion, and the sort by name that follows fixes it up to equal
-- names.
unfoldable pub or_insert : List (ℕ × Bytes) → ℕ × Bytes → List (ℕ × Bytes)
or_insert out (id, name) = elim (get id out) [ some _ ↦ out | none ↦ insert id name out ]

unfoldable pub or_insert_all : List (ℕ × Bytes) → List (ℕ × Bytes) → List (ℕ × Bytes)
or_insert_all out [] = out
or_insert_all out (f ∷ found) = or_insert_all (or_insert out f) found

unfoldable pub merge_found : List (ℕ × Bytes) → List (List (ℕ × Bytes)) → List (ℕ × Bytes)
merge_found out [] = out
merge_found out (found ∷ rest) = merge_found (or_insert_all out found) rest

-- The order of byte slices.
unfoldable pub name_le : Bytes → Bytes → Bool
name_le [] ys = true
name_le (x ∷ xs) [] = false
name_le (x ∷ xs) (y ∷ ys) =
    let rest = name_le xs ys in if ltb x y then true else if ltb y x then false else rest

unfoldable pub insert_sorted : ℕ × Bytes → List (ℕ × Bytes) → List (ℕ × Bytes)
insert_sorted p [] = p ∷ []
insert_sorted p (q ∷ qs) =
    let rest = insert_sorted p qs in if name_le p.1 q.1 then p ∷ q ∷ qs else q ∷ rest

-- `sort_by` on the names.
unfoldable pub sort_by_name : List (ℕ × Bytes) → List (ℕ × Bytes)
sort_by_name [] = []
sort_by_name (p ∷ ps) = insert_sorted p (sort_by_name ps)

abbrev pub ids : List (ℕ × Bytes) → List ℕ
ids [] = []
ids ((id, _) ∷ ps) = id ∷ ids ps

unfoldable pub copy_reloc_symbols : List InputObject → SymbolTable → List ℕ
copy_reloc_symbols objects symbols =
    ids (sort_by_name (merge_found [] (map (collect_obj symbols) objects)))
