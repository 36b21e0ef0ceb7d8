-- ===== src/Symbols/Updates.antt =====
-- peony-symbols/src/lib.rs: the operations on the symbol table beside the merging of input symbols.
use peony.Base.{
  ℕ, ◌+◌, Bool, true, false, not, ◌&&◌, List, [], ◌∷◌, Option, none, some, is_some, ltb, ◌==◌,
  if◌then◌else◌, length, get_elem?, set, replicate,
}
use peony.Base.Bytes.{Bytes}
use peony.Base.Map.{bytes_key}
use peony.Object.{global}
use peony.Symbols.Resolution.{no_id, SymbolResolution, make_undefined_resolution, is_defined}
use peony.Symbols.Table.{SymbolTable, lookup, store, next_id, push_name}

-- The entry of a name, a fresh undefined one if there is none: `entry(name).or_insert_with(..)`.
unfoldable pub entry : SymbolTable → Bytes → SymbolResolution
entry t name = elim (lookup t name) [ none ↦ make_undefined_resolution | some e ↦ e ]

unfoldable pub force_undefined : SymbolTable → Bytes → SymbolTable
unfolding entry
force_undefined t name =
    let e = entry t name in store t name (if is_defined e then e else record e { binding = global })

-- An undefined reference that no shared library has satisfied.
unfoldable pub is_wanted : Option SymbolResolution → Bool
is_wanted none = false
is_wanted (some r) = not (is_some r.defined_in) && not r.import

-- `versions.get(i).cloned().flatten()`.
abbrev pub version_at : List (Option Bytes) → ℕ → Option Bytes
version_at versions i = elim (get_elem? versions i) [ none ↦ none | some v ↦ v ]

unfoldable pub import_entry : SymbolTable → Bytes → Option Bytes → Bytes → SymbolTable
unfolding entry
import_entry t name version soname = store (push_name t name) name (record (entry t name) {
  import = true;
  copy_reloc = false;
  id = next_id t;
  version = version;
  soname = some soname;
})

-- The loop over the exports from index `i` on, with the count so far.
unfoldable pub register_from :
    SymbolTable → ℕ → List Bytes → List (Option Bytes) → Bytes → ℕ → SymbolTable × ℕ
register_from t i [] versions soname n = (t, n)
register_from t i (name ∷ exports) versions soname n =
    let wanted = is_wanted (lookup t name) in
    register_from (if wanted then import_entry t name (version_at versions i) soname else t) (i + 1)
      exports versions soname (if wanted then n + 1 else n)

unfoldable pub register_shared_exports_versioned :
    SymbolTable → List Bytes → List (Option Bytes) → Bytes → SymbolTable × ℕ
register_shared_exports_versioned t exports versions soname =
    register_from t 0 exports versions soname 0

unfoldable pub register_shared_exports : SymbolTable → List Bytes → SymbolTable × ℕ
register_shared_exports t exports = register_shared_exports_versioned t exports [] []

-- peony-object/src/shared.rs, the record of one export.
pub record SharedExport : Type 0 where
  pub name : Bytes
  pub version : Option Bytes
  pub size : ℕ
  pub st_type : ℕ

unfoldable pub import_symbol : SymbolTable → SharedExport → Bytes → SymbolTable
unfolding entry
import_symbol t ex soname = store (push_name t ex.name) ex.name (record (entry t ex.name) {
  import = true;
  copy_reloc = false;
  id = next_id t;
  version = ex.version;
  soname = some soname;
  size = ex.size;
  st_type = ex.st_type;
})

unfoldable pub register_symbols_from : SymbolTable → List SharedExport → Bytes → ℕ → SymbolTable × ℕ
register_symbols_from t [] soname n = (t, n)
register_symbols_from t (ex ∷ exports) soname n =
    let wanted = is_wanted (lookup t ex.name) in
    register_symbols_from (if wanted then import_symbol t ex soname else t) exports soname
      (if wanted then n + 1 else n)

unfoldable pub register_shared_export_symbols :
    SymbolTable → List SharedExport → Bytes → SymbolTable × ℕ
register_shared_export_symbols t exports soname = register_symbols_from t exports soname 0

unfoldable pub mark_copy_reloc : SymbolTable → Bytes → SymbolTable
mark_copy_reloc t name = elim (lookup t name) [
  | none ↦ t
  | some r ↦ if r.import then store t name (record r { copy_reloc = true }) else t
]

any_import : List (Bytes × SymbolResolution) → Bool
any_import [] = false
any_import ((name, r) ∷ m) = if r.import then true else any_import m

unfoldable pub has_imports : SymbolTable → Bool
unfolding any_import
has_imports t = any_import t.resolutions

unfoldable pub ensure_id : SymbolTable → Bytes → SymbolTable × Option ℕ
ensure_id t name = elim (lookup t name) [
  | none ↦ (t, none)
  | some r ↦
      if r.id == no_id
      then (store (push_name t name) name (record r { id = next_id t }), some (next_id t))
      else (t, some r.id)
]

unfoldable pub define_absolute : SymbolTable → Bytes → ℕ → SymbolTable
unfolding entry
define_absolute t name value = store t name (record (entry t name) {
  defined_in = some 0;
  section_index = none;
  value = value;
  virtual_address = value;
})

unfoldable pub insert_cached : SymbolTable → Bytes → SymbolResolution → SymbolTable
insert_cached t name res = store t name res

unfoldable pub name_by_id : SymbolTable → ℕ → Option Bytes
name_by_id t id = get_elem? t.names id

unfoldable pub id_count : SymbolTable → ℕ
id_count t = length t.names

-- One round of the loop of `build_id_index`.
unfoldable pub index_name :
    SymbolTable → List (Option SymbolResolution) → Bytes → List (Option SymbolResolution)
index_name t out name = elim (lookup t name) [
  | none ↦ out
  | some r ↦ if ltb r.id (length out) then set out r.id (some r) else out
]

unfoldable pub index_names :
    SymbolTable → List (Option SymbolResolution) → List Bytes → List (Option SymbolResolution)
index_names t out [] = out
index_names t out (name ∷ names) = index_names t (index_name t out name) names

unfoldable pub build_id_index : SymbolTable → List (Option SymbolResolution)
build_id_index t = index_names t (replicate (length t.names) none) t.names
