-- ===== src/Examples/Data.antt =====
-- Inputs for the runs: sections, symbols and objects with the fields that do not matter left empty.
use peony.Base.{ℕ, Bool, true, false, List, [], ◌∷◌, Option, none, some, length}
use peony.Base.Bytes.{Bytes}
use peony.Object.{Binding, global, weak, text, InputReloc, InputSection, InputSymbol, InputObject}
use peony.Object.Index.{dense}

abbrev pub reloc : ℕ → ℕ → ℕ → InputReloc
reloc r_type offset symbol = record {
  offset = offset;
  r_type = r_type;
  symbol = symbol;
  addend = 0;
}

abbrev pub section : Bytes → List InputReloc → InputSection
section bytes relocs = record {
  index = 1;
  name = 116 ∷ [];
  kind = text;
  sh_type = 1;
  bytes = bytes;
  align = 1;
  size = length bytes;
  flags = 6;
  relocs = relocs;
}

abbrev pub symbol : Bytes → Binding → Bool → Option ℕ → ℕ → InputSymbol
symbol name binding is_undefined section value = record {
  index = 1;
  name = name;
  binding = binding;
  is_undefined = is_undefined;
  is_common = false;
  is_ifunc = false;
  st_type = 2;
  visibility = 0;
  section = section;
  value = value;
  size = 4;
}

-- An object whose section 1 is its only section, and whose symbols have the indices from 0 on.
abbrev pub object : Bytes → List InputSection → List InputSymbol → InputObject
object path sections symbols = record {
  path = path;
  sections = sections;
  symbols = symbols;
  section_map = dense (0 ∷ 0 ∷ []);
  symbol_map = dense (0 ∷ 1 ∷ []);
  comdat_groups = [];
}

-- The names `f` and `g`.
abbrev pub f_name : Bytes
f_name = 102 ∷ []

abbrev pub g_name : Bytes
g_name = 103 ∷ []

abbrev pub weak_f : InputSymbol
weak_f = symbol f_name weak false (some 1) 16

abbrev pub strong_f : InputSymbol
strong_f = symbol f_name global false (some 1) 32

abbrev pub wanted_g : InputSymbol
wanted_g = symbol g_name weak true none 0

-- Four bytes, with a PC-relative relocation against the symbol 0 and one through the GOT against
-- the symbol 1.
abbrev pub code : InputSection
code = section (1 ∷ 2 ∷ 3 ∷ 4 ∷ 5 ∷ 6 ∷ 7 ∷ 8 ∷ []) (reloc 2 0 0 ∷ reloc 9 4 1 ∷ [])

abbrev pub first_object : InputObject
first_object = object (97 ∷ []) (code ∷ []) (weak_f ∷ wanted_g ∷ [])

abbrev pub second_object : InputObject
second_object = object (98 ∷ []) [] (strong_f ∷ [])
