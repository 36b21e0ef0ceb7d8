-- ===== src/Symbols/Resolution.antt =====
-- peony-symbols/src/lib.rs: `SymbolResolution`, `SymbolError` and the conflict rules for two
-- definitions of one name.
use peony.Base.{ℕ, Bool, false, not, ◌&&◌, ◌||◌, List, Option, none, some, is_some, ◌==◌, get_elem?}
use peony.Base.Bytes.{Bytes}
use peony.Base.Word.{u32_max}
use peony.Object.{Binding, local, global, weak, InputSymbol}

-- The id of a resolution that has none yet.
abbrev pub no_id : ℕ
no_id = u32_max

pub record SymbolResolution : Type 0 where
  pub id : ℕ
  pub binding : Binding
  pub defined_in : Option ℕ
  pub section_index : Option ℕ
  pub value : ℕ
  pub size : ℕ
  pub common : Option (ℕ × ℕ)
  pub import : Bool
  pub copy_reloc : Bool
  pub dynsym_index : ℕ
  pub virtual_address : ℕ
  pub got_address : ℕ
  pub plt_address : ℕ
  pub gottp_address : ℕ
  pub version : Option Bytes
  pub soname : Option Bytes
  pub is_ifunc : Bool
  pub st_type : ℕ
  pub visibility : ℕ

unfoldable pub make_undefined_resolution : SymbolResolution
make_undefined_resolution = record {
  id = no_id;
  binding = global;
  defined_in = none;
  section_index = none;
  value = 0;
  size = 0;
  common = none;
  import = false;
  copy_reloc = false;
  dynsym_index = 0;
  virtual_address = 0;
  got_address = 0;
  plt_address = 0;
  gottp_address = 0;
  version = none;
  soname = none;
  is_ifunc = false;
  st_type = 0;
  visibility = 0;
}

unfoldable pub cached_defined : ℕ → ℕ → ℕ → ℕ → SymbolResolution
unfolding make_undefined_resolution
cached_defined virtual_address got_address plt_address size = record make_undefined_resolution {
  defined_in = some 0;
  size = size;
  virtual_address = virtual_address;
  got_address = got_address;
  plt_address = plt_address;
}

unfoldable pub is_export : SymbolResolution → Bool
is_export r =
    is_some r.defined_in
    && not r.import
    && not (is_some r.common)
    && (r.visibility == 0 || r.visibility == 3)

unfoldable pub is_defined : SymbolResolution → Bool
is_defined r = is_some r.defined_in || r.import

-- The name in an error stays a byte list: the lossy conversion to text is left out.
pub data SymbolError : Type 0 where
  duplicate_symbol : (name first second : Bytes) → SymbolError
  undefined_symbol : (name : Bytes) → SymbolError

-- A result, or the panic of an index out of bounds.
pub data Outcome {ℓ} (A : Type ℓ) : Type ℓ where
  ok : A → Outcome A
  err : SymbolError → Outcome A
  panicked : Outcome A

infixl 5 ◌>>=◌
abbrev pub ◌>>=◌ {ℓ κ} : {A : Type ℓ} {B : Type κ} → Outcome A → (A → Outcome B) → Outcome B
ok a >>= f = f a
err e >>= f = err e
panicked >>= f = panicked

pub data ConflictAction : Type 0 where
  satisfy_undef upgrade keep_existing warn_local : ConflictAction

-- `object_paths[i]`.
abbrev pub path_at : List Bytes → ℕ → Outcome Bytes
path_at paths i = elim (get_elem? paths i) [ none ↦ panicked | some p ↦ ok p ]

unfoldable pub duplicate : Bytes → ℕ → ℕ → List Bytes → Outcome ConflictAction
duplicate name first second paths =
    path_at paths first >>= λ a. path_at paths second >>= λ b. err (duplicate_symbol name a b)

-- The `match` of `conflict_action`, first arm that fits.
unfoldable pub action_for :
    Option ℕ → Binding → Binding → Bytes → ℕ → List Bytes → Outcome ConflictAction
unfolding duplicate
action_for none old new name obj_id paths = ok satisfy_undef
action_for (some d) weak global name obj_id paths = ok upgrade
action_for (some d) global global name obj_id paths = duplicate name d obj_id paths
action_for (some d) local weak name obj_id paths = ok keep_existing
action_for (some d) global weak name obj_id paths = ok keep_existing
action_for (some d) weak weak name obj_id paths = ok keep_existing
action_for (some d) old new name obj_id paths = ok warn_local

unfoldable pub conflict_action :
    SymbolResolution → ℕ → InputSymbol → List Bytes → Outcome ConflictAction
unfolding action_for
conflict_action existing obj_id sym paths =
    action_for existing.defined_in existing.binding sym.binding sym.name obj_id paths
