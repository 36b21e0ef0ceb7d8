-- ===== src/Layout/Finalize.antt =====
-- The addresses of symbols after layout (peony-layout/src/lib.rs, finalize_symbols, resolve_entry and
-- check_undefined).
pub mod Final
use peony.Base.{
  ℕ, zero, suc, ◌+◌, ◌*◌, Bool, true, false, not, ◌&&◌, ◌||◌, ◌⊎◌, inl, inr, List, [], ◌∷◌, ◌++◌,
  Option, none, some, if◌then◌else◌, is_some,
}
use peony.Base.Bytes.{Bytes, bytes_eq, codes}
use peony.Base.Map.{get, insert, bytes_key, pair_eq}
use peony.Base.Word.{wrapping_add}
use peony.Layout.Group.{LayoutError, no_entry, undefined}
use peony.Layout.Place.{Addresses}
use peony.Object.{Binding, weak}
use peony.Symbols.Resolution.{SymbolResolution, is_defined}
use peony.Symbols.Table.{SymbolTable, lookup, store}
use peony.Symbols.Updates.{name_by_id}

-- The fields of `Layout` that are read here.
pub record SymbolLayout : Type 0 where
  pub addresses : Addresses
  pub common : List (ℕ × ℕ)
  pub copy_relocs : List (ℕ × ℕ)
  pub got_slots : List ℕ
  pub got_base : ℕ
  pub plt_slots : List ℕ
  pub plt_base : ℕ

-- The first loop's body, for a symbol that is defined in an object.
unfoldable pub locate : Addresses → SymbolResolution → ℕ → Option ℕ → SymbolResolution
locate addresses res def none = record res { virtual_address = res.value }
locate addresses res def (some si) = elim (get (def, si) addresses) [
  | none ↦ res
  | some va ↦ record res { virtual_address = wrapping_add va res.value }
]

unfoldable pub located : Addresses → SymbolResolution → SymbolResolution
located addresses res = elim res.defined_in [
  | none ↦ res
  | some def ↦ if is_some res.common then res else locate addresses res def res.section_index
]

unfoldable pub locate_all :
    Addresses → List (Bytes × SymbolResolution) → List (Bytes × SymbolResolution)
locate_all addresses [] = []
locate_all addresses ((name, res) ∷ rest) =
    (name, located addresses res) ∷ locate_all addresses rest

-- The names and addresses of listed symbols.
unfoldable pub updates_of : SymbolTable → List (ℕ × ℕ) → List (Bytes × ℕ)
updates_of t [] = []
updates_of t ((id, va) ∷ ids) = elim (name_by_id t id) [
  | none ↦ updates_of t ids
  | some name ↦ (name, va) ∷ updates_of t ids
]

-- The slots of a table with their addresses.
unfoldable pub slots_from : ℕ → ℕ → ℕ → List ℕ → List (ℕ × ℕ)
slots_from base size i [] = []
slots_from base size i (id ∷ ids) =
    (id, wrapping_add base (i * size)) ∷ slots_from base size (i + 1) ids

-- The loop of updates: a write of one field through `lookup_mut`.
unfoldable pub apply_updates :
    (ℕ → SymbolResolution → SymbolResolution) → List (Bytes × ℕ) → SymbolTable → SymbolTable
apply_updates write [] t = t
apply_updates write ((name, addr) ∷ updates) t =
    apply_updates write updates
      (elim (lookup t name) [ none ↦ t | some r ↦ store t name (write addr r) ])

abbrev pub set_virtual : ℕ → SymbolResolution → SymbolResolution
set_virtual va r = record r { virtual_address = va }

abbrev pub set_got : ℕ → SymbolResolution → SymbolResolution
set_got addr r = record r { got_address = addr }

abbrev pub set_plt : ℕ → SymbolResolution → SymbolResolution
set_plt addr r = record r { plt_address = addr }

unfoldable pub finalize_symbols : SymbolTable → SymbolLayout → SymbolTable
finalize_symbols symbols layout =
    let t1 : SymbolTable = record symbols {
      resolutions = locate_all layout.addresses symbols.resolutions;
    } in
    let t2 = apply_updates set_virtual (updates_of symbols layout.common) t1 in
    let t3 = apply_updates set_virtual (updates_of symbols layout.copy_relocs) t2 in
    let t4 =
      apply_updates set_got (updates_of symbols (slots_from layout.got_base 8 0 layout.got_slots))
        t3 in
    apply_updates set_plt (updates_of symbols (slots_from layout.plt_base 16 0 layout.plt_slots)) t4

-- `none` is the panic of `unwrap` on a symbol with a section but no object.
unfoldable pub resolve_entry : SymbolTable → Addresses → Bytes → Option (LayoutError ⊎ ℕ)
resolve_entry symbols addresses entry_symbol = elim (lookup symbols entry_symbol) [
  | none ↦ some (inl (no_entry entry_symbol))
  | some r ↦
      if is_defined r
      then (elim r.section_index [
        | none ↦ some (inr r.value)
        | some si ↦ elim r.defined_in [
          | none ↦ none
          | some def ↦ elim (get (def, si) addresses) [
            | none ↦ some (inl (no_entry entry_symbol))
            | some va ↦ some (inr (wrapping_add va r.value))
          ]
        ]
      ])
      else some (inl (no_entry entry_symbol))
]

unfoldable pub is_weak : Binding → Bool
is_weak weak = true
is_weak _ = false

-- The loop over the entries of the table.
unfoldable pub check_undefined : List (Bytes × SymbolResolution) → Option LayoutError
check_undefined [] = none
check_undefined ((name, res) ∷ rest) =
    if bytes_eq name (codes "__tls_get_addr")
    then check_undefined rest
    else if not (is_defined res) && not (is_weak res.binding)
    then some (undefined name)
    else check_undefined rest
