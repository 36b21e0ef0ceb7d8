-- ===== src/Symbols/Table.antt =====
-- peony-symbols/src/lib.rs: the global symbol table, and the merging of one input symbol.
use peony.Base.{
  ℕ, Bool, true, false, List, [], ◌∷◌, ◌++◌, Option, none, some, max, ◌==◌, if◌then◌else◌, length,
}
use peony.Base.Bytes.{Bytes}
use peony.Base.Map.{get, insert, bytes_key}
use peony.Base.Word.{as_u32}
use peony.Object.{Binding, local, global, InputSymbol, InputObject}
use peony.Symbols.Resolution.{
  SymbolResolution, make_undefined_resolution, Outcome, ok, ◌>>=◌, ConflictAction, satisfy_undef,
  upgrade, keep_existing, warn_local, conflict_action,
}

pub record SymbolTable : Type 0 where
  pub resolutions : List (Bytes × SymbolResolution)
  pub names : List Bytes
  pub object_paths : List Bytes

unfoldable pub new : SymbolTable
new = record { resolutions = []; names = []; object_paths = [] }

unfoldable pub add_object : SymbolTable → Bytes → ℕ × SymbolTable
add_object t path =
    (as_u32 (length t.object_paths), record t { object_paths = t.object_paths ++ path ∷ [] })

unfoldable pub lookup : SymbolTable → Bytes → Option SymbolResolution
lookup t name = get name t.resolutions

-- A write through `get_mut`, or an `insert`.
unfoldable pub store : SymbolTable → Bytes → SymbolResolution → SymbolTable
store t name r = record t { resolutions = insert name r t.resolutions }

-- `SymbolId(self.names.len() as u32)`, and the push that mints it.
unfoldable pub next_id : SymbolTable → ℕ
next_id t = as_u32 (length t.names)

unfoldable pub push_name : SymbolTable → Bytes → SymbolTable
push_name t name = record t { names = t.names ++ name ∷ [] }

-- An entry that is not defined takes the strong binding of a reference.
unfoldable pub strengthen :
    Option ℕ → Binding → SymbolTable → Bytes → SymbolResolution → SymbolTable
strengthen (some _) binding t name e = t
strengthen none global t name e = store t name (record e { binding = global })
strengthen none _ t name e = t

-- The undefined-reference branch of `merge_symbol`.
unfoldable pub merge_undefined : SymbolTable → InputSymbol → SymbolTable
unfolding strengthen
merge_undefined t sym = elim (lookup t sym.name) [
  | none ↦ store t sym.name (record make_undefined_resolution { binding = sym.binding })
  | some e ↦ strengthen e.defined_in sym.binding t sym.name e
]

-- The fields that a definition sets wherever it binds a name.
unfoldable pub bind : SymbolResolution → ℕ → InputSymbol → SymbolResolution
bind e obj_id sym = record e {
  binding = sym.binding;
  defined_in = some obj_id;
  section_index = sym.section;
  value = sym.value;
  size = sym.size;
  st_type = sym.st_type;
  visibility = sym.visibility;
}

unfoldable pub apply_action :
    ConflictAction → SymbolTable → SymbolResolution → ℕ → InputSymbol → SymbolTable
unfolding bind
apply_action satisfy_undef t e obj_id sym =
    store (push_name t sym.name) sym.name
      (record (bind e obj_id sym) { id = next_id t; is_ifunc = sym.is_ifunc })
apply_action upgrade t e obj_id sym =
    store t sym.name (record (bind e obj_id sym) { is_ifunc = sym.is_ifunc })
apply_action keep_existing t e obj_id sym = t
apply_action warn_local t e obj_id sym = t

-- A definition meets the entry `e`, whose pending common block is the first argument.
unfoldable pub define_over :
    Option (ℕ × ℕ) → SymbolTable → SymbolResolution → ℕ → InputSymbol → Outcome SymbolTable
define_over (some _) t e obj_id sym =
    ok (store t sym.name (record (bind e obj_id sym) { common = none }))
define_over none t e obj_id sym = conflict_action e obj_id sym t.object_paths >>= λ action.
    ok (apply_action action t e obj_id sym)

unfoldable pub fresh_definition : SymbolTable → ℕ → InputSymbol → SymbolResolution
fresh_definition t obj_id sym = record (bind make_undefined_resolution obj_id sym) {
  id = next_id t;
  is_ifunc = sym.is_ifunc;
}

-- The branch for a definition that is neither undefined nor common.
unfoldable pub merge_defined : SymbolTable → ℕ → InputSymbol → Outcome SymbolTable
unfolding define_over
merge_defined t obj_id sym = elim (lookup t sym.name) [
  | none ↦ ok (store (push_name t sym.name) sym.name (fresh_definition t obj_id sym))
  | some e ↦ define_over e.common t e obj_id sym
]

-- `sym.value.max(1)`.
abbrev pub common_align : InputSymbol → ℕ
common_align sym = max sym.value 1

-- A common block meets the entry `e`, whose pending common block and definition come first.
unfoldable pub common_over :
    Option (ℕ × ℕ) → Option ℕ → SymbolTable → SymbolResolution → ℕ → InputSymbol → SymbolTable
common_over none (some _) t e obj_id sym = t
common_over (some (es, ea)) d t e obj_id sym = store t sym.name (record e {
  common = some (max sym.size es, max (common_align sym) ea);
  size = max sym.size es;
})
common_over none none t e obj_id sym = store (push_name t sym.name) sym.name (record e {
  id = next_id t;
  binding = sym.binding;
  defined_in = some obj_id;
  section_index = none;
  size = sym.size;
  common = some (sym.size, common_align sym);
})

unfoldable pub fresh_common : SymbolTable → ℕ → InputSymbol → SymbolResolution
fresh_common t obj_id sym = record make_undefined_resolution {
  id = next_id t;
  binding = sym.binding;
  defined_in = some obj_id;
  size = sym.size;
  common = some (sym.size, common_align sym);
}

unfoldable pub merge_common : SymbolTable → ℕ → InputSymbol → SymbolTable
unfolding common_over
merge_common t obj_id sym = elim (lookup t sym.name) [
  | none ↦ store (push_name t sym.name) sym.name (fresh_common t obj_id sym)
  | some e ↦ common_over e.common e.defined_in t e obj_id sym
]

unfoldable pub merge_symbol : SymbolTable → ℕ → InputSymbol → Outcome SymbolTable
merge_symbol t obj_id sym =
    if sym.is_undefined
    then ok (merge_undefined t sym)
    else if sym.is_common
    then ok (merge_common t obj_id sym)
    else merge_defined t obj_id sym

abbrev pub is_empty : Bytes → Bool
is_empty [] = true
is_empty (b ∷ bs) = false

unfoldable pub is_local : Binding → Bool
is_local local = true
is_local _ = false

unfoldable pub contains : List ℕ → ℕ → Bool
contains [] i = false
contains (x ∷ xs) i = if x == i then true else contains xs i

-- The three `continue`s of the loop of `process_object_excluding`.
unfoldable pub is_skipped : List ℕ → InputSymbol → Bool
unfolding is_local contains
is_skipped excluded sym =
    if is_local sym.binding
    then true
    else if is_empty sym.name
    then true
    else elim sym.section [ none ↦ false | some si ↦ contains excluded si ]

unfoldable pub process_symbols : SymbolTable → ℕ → List ℕ → List InputSymbol → Outcome SymbolTable
process_symbols t obj_id excluded [] = ok t
process_symbols t obj_id excluded (sym ∷ syms) =
    (if is_skipped excluded sym then ok t else merge_symbol t obj_id sym) >>= λ t'.
    process_symbols t' obj_id excluded syms

unfoldable pub process_object_excluding :
    SymbolTable → ℕ → InputObject → List ℕ → Outcome SymbolTable
process_object_excluding t obj_id obj excluded = process_symbols t obj_id excluded obj.symbols

unfoldable pub process_object : SymbolTable → ℕ → InputObject → Outcome SymbolTable
process_object t obj_id obj = process_object_excluding t obj_id obj []
