-- ===== src/Examples/Folding.antt =====
-- Runs of identical code folding (peony-layout/src/icf.rs).
use peony.Base.{ℕ, ◌≡◌, refl, arith, Bool, true, false, List, [], ◌∷◌, Option, none, some, Mem}
use peony.Base.Bytes.{Bytes}
use peony.Base.Map.{get, insert, pair_eq}
use peony.Icf.Folds.{
  reloc_target_name, key_relocs, fold_key_for, fold_onto, fold_section, fold_sections, fold_objects,
  compute_fold_map,
}
use peony.Icf.Key.{content_digest, digest_from}
use peony.Icf.Significant.{Folded, compute_fold_map-Folded}
use peony.Icf.Table.{read_addrsig_fuel}
use peony.Icf.Taint.{
  has, reloc_takes_address, read_addrsig, find_addrsig, parse_addrsig, taint_one_reloc,
  taint_relocs, taint_sections, taint_objects, address_taint, is_address_significant,
  any_significant, defines_address_significant,
}
use peony.Object.{
  symbol_pos, symbol_by_index, InputObject, InputSection, InputSymbol, text, read_only, other,
  local,
}
use peony.Examples.Data.{f_name, reloc, section, object, symbol}

-- An empty table of address-significant symbols.
abbrev table : InputSection
table = record (section [] []) { index = 3; kind = other; sh_type = 0x6fff4c03; flags = 0 }

-- Read-only data, and code that refers to it by the nameless symbol of its section.
abbrev constants : Bytes → InputSection
constants bytes = record (section bytes []) { index = 2; kind = read_only; flags = 2 }

abbrev user : InputSection
user = section (1 ∷ 2 ∷ 3 ∷ 4 ∷ []) (reloc 2 0 0 ∷ [])

abbrev symbols : List InputSymbol
symbols =
    record (symbol [] local false (some 2) 0) { index = 0; st_type = 3 }
    ∷ symbol f_name local false (some 1) 0
    ∷ []

-- The two objects have the same code and other data.
abbrev objects : List InputObject
objects =
    object (97 ∷ []) (user ∷ constants (7 ∷ []) ∷ table ∷ []) symbols
    ∷ object (98 ∷ []) (user ∷ constants (8 ∷ []) ∷ table ∷ []) symbols
    ∷ []

-- The code of the second object is folded onto that of the first, though the sections that the two
-- refer to hold other bytes: the relocations are compared by the empty names of the section symbols.
other_data : get (1, 1) (compute_fold_map objects) ≡ some (0, 1)
unfolding compute_fold_map fold_objects fold_sections fold_section fold_onto fold_key_for key_relocs
    reloc_target_name content_digest digest_from defines_address_significant any_significant
    is_address_significant has address_taint taint_objects taint_sections taint_relocs
    taint_one_reloc parse_addrsig find_addrsig read_addrsig reloc_takes_address symbol_by_index
    symbol_pos get insert peony.Object.Index.position peony.Base.Bytes.bytes_eq
    peony.Base.Bytes.starts_with
other_data = refl

compute_fold_map-Folded_example : Folded objects (1, 1) (0, 1)
compute_fold_map-Folded_example = compute_fold_map-Folded objects (1, 1) (0, 1) other_data

-- A table of the two bytes of one number.
read_addrsig_fuel_example :
    read_addrsig 2 (object [] [] symbols) 0 (0x81 ∷ 0 ∷ [])
    ≡ read_addrsig 9 (object [] [] symbols) 0 (0x81 ∷ 0 ∷ [])
read_addrsig_fuel_example =
    read_addrsig_fuel (object [] [] symbols) 0 2 9 (0x81 ∷ 0 ∷ []) (omega arith) (omega arith)
