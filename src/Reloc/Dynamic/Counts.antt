-- ===== src/Reloc/Dynamic/Counts.antt =====
-- The counts of peony-reloc/src/dynamic.rs and tls.rs that `count_dynamic_relocs` replaces.
use peony.Base.{
  ℕ, ◌+◌, Bool, false, ◌&&◌, ◌||◌, not, List, [], ◌∷◌, Option, none, some, ◌==◌, if◌then◌else◌,
  is_some,
}
use peony.Object.{InputObject, InputSection, InputReloc, InputSymbol, symbol_by_index}
use peony.Reloc.Dynamic.{is_alloc, r64}
use peony.Reloc.Scan.{is_local}
use peony.Reloc.Tls.{resolution_of}
use peony.Symbols.Resolution.{SymbolResolution, is_defined}
use peony.Symbols.Table.{SymbolTable, lookup}

-- A test of a resolution, false where there is none.
abbrev pub is_some_and : Option SymbolResolution → (SymbolResolution → Bool) → Bool
is_some_and none test = false
is_some_and (some r) test = test r

-- The tests of the three counts on a relocation's symbol.
unfoldable pub is_relative_target : SymbolTable → InputSymbol → Bool
is_relative_target symbols sym =
    if is_local sym.binding
    then is_some sym.section
    else is_some_and (lookup symbols sym.name) (λ r. is_defined r && (not r.import || r.copy_reloc))

unfoldable pub is_symbolic_target : SymbolTable → InputSymbol → Bool
is_symbolic_target symbols sym =
    if is_local sym.binding
    then false
    else is_some_and (lookup symbols sym.name) (λ r. r.import && not r.copy_reloc)

unfoldable pub is_irelative_target : SymbolTable → InputSymbol → Bool
is_irelative_target symbols sym =
    if is_local sym.binding
    then is_some sym.section && sym.is_ifunc
    else is_some_and (lookup symbols sym.name) (λ r. is_defined r && not r.import && r.is_ifunc)

-- The loops of the three counts.
module _ (test : InputSymbol → Bool) where
  unfoldable pub count_site : InputObject → InputReloc → ℕ
  count_site obj reloc =
      if not (reloc.r_type == r64) then 0 else elim (symbol_by_index obj reloc.symbol) [
        | none ↦ 0
        | some sym ↦ if test sym then 1 else 0
      ]

  unfoldable pub count_sites : InputObject → List InputReloc → ℕ
  count_sites obj [] = 0
  count_sites obj (reloc ∷ relocs) = count_site obj reloc + count_sites obj relocs

  unfoldable pub count_in_sections : InputObject → List InputSection → ℕ
  count_in_sections obj [] = 0
  count_in_sections obj (sec ∷ secs) =
      (if is_alloc sec then count_sites obj sec.relocs else 0) + count_in_sections obj secs

  unfoldable pub count_in_objects : List InputObject → ℕ
  count_in_objects [] = 0
  count_in_objects (obj ∷ objs) = count_in_sections obj obj.sections + count_in_objects objs

-- `filter` and `count` of the GOT slots.
unfoldable pub count_slots : (SymbolResolution → Bool) → SymbolTable → List ℕ → ℕ
count_slots test symbols [] = 0
count_slots test symbols (id ∷ ids) =
    (if is_some_and (resolution_of symbols id) test then 1 else 0) + count_slots test symbols ids

unfoldable pub count_relative : List InputObject → SymbolTable → ℕ
count_relative objects symbols = count_in_objects (is_relative_target symbols) objects

unfoldable pub count_symbolic_data_relocs : List InputObject → SymbolTable → ℕ
count_symbolic_data_relocs objects symbols = count_in_objects (is_symbolic_target symbols) objects

unfoldable pub count_got_relative : List ℕ → SymbolTable → ℕ
count_got_relative got_syms symbols =
    count_slots (λ r. (not r.import || r.copy_reloc) && is_defined r) symbols got_syms

unfoldable pub count_irelative : List InputObject → SymbolTable → List ℕ → ℕ
count_irelative objects symbols got_syms =
    count_in_objects (is_irelative_target symbols) objects
    + count_slots (λ r. not r.import && is_defined r && r.is_ifunc) symbols got_syms
