-- ===== src/Symbols/Bound.antt =====
-- Strong definitions, and what the conflict rules of peony-symbols/src/lib.rs decide about them.
use peony.Base.{
  ℕ, ◌≡◌, refl, sym, ◌∙◌, ◌≢◌, inl, inr, false, List, Option, none, some, arith, Option-cases,
  get_elem?,
}
use peony.Base.Bytes.{Bytes, bytes_eq_iff}
use peony.Object.{Binding, local, global, weak, InputSymbol}
use peony.Symbols.Resolution.{
  SymbolResolution, Outcome, ok, err, panicked, ConflictAction, satisfy_undef, upgrade,
  keep_existing, warn_local, duplicate, action_for,
}
use peony.Symbols.Table.{SymbolTable, lookup, push_name, merge_symbol}
use peony.Symbols.Ids.{lookup-store, lookup-push_name}
use peony.Symbols.Rule.{Allowed, merge_symbol_rule}
use peony.Symbols.Merged.{Ensures}

-- The symbol is a strong definition: global, and neither undefined nor common.
pub record IsStrong (input : InputSymbol) : Type 0 where
  pub here : input.is_undefined ≡ false
  pub real : input.is_common ≡ false
  pub bound : input.binding ≡ global

-- The name is bound to the strong definition `input` of object `obj_id`.
pub record IsBound (obj_id : ℕ) (input : InputSymbol) (r : SymbolResolution) : Type 0 where
  pub binding : r.binding ≡ global
  pub defined_in : r.defined_in ≡ some obj_id
  pub section_index : r.section_index ≡ input.section
  pub value : r.value ≡ input.value
  pub size : r.size ≡ input.size
  pub common : r.common ≡ none

abbrev pub BoundAt : Bytes → ℕ → InputSymbol → SymbolTable → Type 0
BoundAt name obj_id input t =
    (r : SymbolResolution) × (lookup t name ≡ some r) × IsBound obj_id input r

-- A merge leaves the entries of other names alone.
pub merge_symbol-frame :
    (t : SymbolTable) (obj_id : ℕ) (input : InputSymbol) (name : Bytes)
    → input.name ≢ name
    → Ensures (λ t'. lookup t' name ≡ lookup t name) (merge_symbol t obj_id input)
merge_symbol-frame t obj_id input name ne =
    merge_symbol_rule (λ t'. lookup t' name ≡ lookup t name) t input refl
      (λ r a. ground (arith, lookup-store t input.name name r, bytes_eq_iff input.name name))
      (λ r a. ground (
        arith,
        lookup-store (push_name t input.name) input.name name r,
        lookup-push_name t input.name name,
        bytes_eq_iff input.name name,
      ))
      obj_id

-- No entry has a local binding.
abbrev pub NoLocal : SymbolTable → Type 0
NoLocal t = (name : Bytes) (r : SymbolResolution) → lookup t name ≡ some r → r.binding ≢ local

pub Allowed-ne :
    (t : SymbolTable) (input : InputSymbol) (r : SymbolResolution)
    → NoLocal t
    → input.binding ≢ local
    → Allowed t input r
    → r.binding ≢ local
Allowed-ne t input r v n (inl e) z = n (sym e ∙ z)
Allowed-ne t input r v n (inr (inl e)) z = cc
Allowed-ne t input r v n (inr (inr (e, found, same))) z = v input.name e found (sym same ∙ z)

pub merge_symbol-NoLocal :
    (t : SymbolTable) (obj_id : ℕ) (input : InputSymbol)
    → NoLocal t
    → input.binding ≢ local
    → Ensures NoLocal (merge_symbol t obj_id input)
merge_symbol-NoLocal t obj_id input v n =
    merge_symbol_rule NoLocal t input v
      (λ r a name q found.
        ground (arith, lookup-store t input.name name r, v name q, Allowed-ne t input r v n a))
      (λ r a name q found. ground (
        arith,
        lookup-store (push_name t input.name) input.name name r,
        lookup-push_name t input.name name,
        v name q,
        Allowed-ne t input r v n a,
      ))
      obj_id

pub duplicate-ne-ok :
    (name : Bytes) (first second : ℕ) (paths : List Bytes) (a : ConflictAction)
    → duplicate name first second paths ≢ ok a
unfolding duplicate
duplicate-ne-ok name first second paths a h =
    ground (arith, Option-cases (get_elem? paths first), Option-cases (get_elem? paths second))

-- The actions that bind the name to the new definition, and those that keep the table.
abbrev pub Binds : Outcome ConflictAction → Type 0
Binds (ok satisfy_undef) = Unit
Binds (ok upgrade) = Unit
Binds (ok _) = ⊥
Binds _ = Unit

abbrev pub Keeps : Outcome ConflictAction → Type 0
Keeps (ok keep_existing) = Unit
Keeps (ok warn_local) = Unit
Keeps (ok _) = ⊥
Keeps _ = Unit

pub Binds-failure : (o : Outcome ConflictAction) → ((a : ConflictAction) → o ≢ ok a) → Binds o
Binds-failure (ok a) h = absurd (h a refl)
Binds-failure (err e) h = tt
Binds-failure panicked h = tt

pub Keeps-failure : (o : Outcome ConflictAction) → ((a : ConflictAction) → o ≢ ok a) → Keeps o
Keeps-failure (ok a) h = absurd (h a refl)
Keeps-failure (err e) h = tt
Keeps-failure panicked h = tt

module _ (name : Bytes) (obj_id : ℕ) (paths : List Bytes) where
  pub action_for-Binds :
      (d : Option ℕ) (old : Binding)
      → old ≢ local
      → Binds (action_for d old global name obj_id paths)
  unfolding action_for
  action_for-Binds none old n = tt
  action_for-Binds (some d) local n = absurd (n refl)
  action_for-Binds (some d) global n = Binds-failure _ (duplicate-ne-ok name d obj_id paths)
  action_for-Binds (some d) weak n = tt

  pub action_for-Keeps :
      (d : ℕ) (new : Binding) → Keeps (action_for (some d) global new name obj_id paths)
  unfolding action_for
  action_for-Keeps d local = tt
  action_for-Keeps d global = Keeps-failure _ (duplicate-ne-ok name d obj_id paths)
  action_for-Keeps d weak = tt
