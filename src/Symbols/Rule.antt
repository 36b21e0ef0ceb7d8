-- ===== src/Symbols/Rule.antt =====
-- A rule for invariants of `merge_symbol` (peony-symbols/src/lib.rs).
use peony.Base.{ℕ, ◌≡◌, refl, ◌⊎◌, inl, inr, Option, none, some, Bool-cases}
use peony.Object.{Binding, global, InputSymbol}
use peony.Symbols.Resolution.{
  SymbolResolution, Outcome, ok, err, panicked, ◌>>=◌, ConflictAction, satisfy_undef, upgrade,
  keep_existing, warn_local, conflict_action,
}
use peony.Symbols.Table.{
  SymbolTable, lookup, store, push_name, strengthen, merge_undefined, bind, apply_action,
  define_over, common_over, fresh_definition, fresh_common, merge_defined, merge_common,
  merge_symbol,
}
use peony.Symbols.Merged.{Ensures}

-- A new entry's binding is the symbol's, the old entry's, or strong.
abbrev pub Allowed : SymbolTable → InputSymbol → SymbolResolution → Type 0
Allowed t input r =
    (r.binding ≡ input.binding)
    ⊎ (r.binding ≡ global)
    ⊎ ((e : SymbolResolution) × (lookup t input.name ≡ some e) × (r.binding ≡ e.binding))

-- What a property of tables needs to survive a merge: every merge keeps the table or writes one entry.
module _ (P : SymbolTable → Type 0) (t : SymbolTable) (input : InputSymbol) (keep : P t)
    (write : (r : SymbolResolution) → Allowed t input r → P (store t input.name r))
    (mint : (r : SymbolResolution)
      → Allowed t input r
      → P (store (push_name t input.name) input.name r)) where
  strengthen_rule :
      (d : Option ℕ) (b : Binding) (e : SymbolResolution) → P (strengthen d b t input.name e)
  unfolding strengthen
  strengthen_rule (some d) b e = keep
  strengthen_rule none global e = write _ (inr (inl refl))
  strengthen_rule none _ e = keep

  merge_undefined_rule : P (merge_undefined t input)
  unfolding merge_undefined
  merge_undefined_rule = go (lookup t input.name) refl
    where
      go : (o : Option SymbolResolution) → lookup t input.name ≡ o → P (merge_undefined t input)
      go none e = rw (e, merge_undefined) (write _ (inl refl))
      go (some r) e = rw (e, merge_undefined) (strengthen_rule r.defined_in input.binding r)

  module _ (obj_id : ℕ) where
    apply_action_rule :
        (a : ConflictAction) (e : SymbolResolution) → P (apply_action a t e obj_id input)
    unfolding apply_action
    apply_action_rule satisfy_undef e = mint _ (inl refl)
    apply_action_rule upgrade e = write _ (inl refl)
    apply_action_rule keep_existing e = keep
    apply_action_rule warn_local e = keep

    define_over_rule :
        (c : Option (ℕ × ℕ)) (e : SymbolResolution) → Ensures P (define_over c t e obj_id input)
    unfolding define_over
    define_over_rule (some c) e = write _ (inl (unfold bind in refl))
    define_over_rule none e = go (conflict_action e obj_id input t.object_paths)
      where
        go :
            (o : Outcome ConflictAction)
            → Ensures P (o >>= λ a. ok (apply_action a t e obj_id input))
        go (ok a) = apply_action_rule a e
        go (err x) = tt
        go panicked = tt

    merge_defined_rule : Ensures P (merge_defined t obj_id input)
    unfolding merge_defined
    merge_defined_rule = go (lookup t input.name) refl
      where
        go :
            (o : Option SymbolResolution)
            → lookup t input.name ≡ o
            → Ensures P (merge_defined t obj_id input)
        go none e =
            rw (e, merge_defined, Ensures) (mint _ (inl (unfold fresh_definition bind in refl)))
        go (some r) e = rw (e, merge_defined) (define_over_rule r.common r)

    common_over_rule :
        (c : Option (ℕ × ℕ)) (d : Option ℕ) (e : SymbolResolution)
        → lookup t input.name ≡ some e
        → P (common_over c d t e obj_id input)
    unfolding common_over
    common_over_rule none (some d) e h = keep
    common_over_rule (some c) d e h = write _ (inr (inr (e, h, refl)))
    common_over_rule none none e h = mint _ (inl refl)

    merge_common_rule : P (merge_common t obj_id input)
    unfolding merge_common
    merge_common_rule = go (lookup t input.name) refl
      where
        go :
            (o : Option SymbolResolution)
            → lookup t input.name ≡ o
            → P (merge_common t obj_id input)
        go none e = rw (e, merge_common) (mint _ (inl (unfold fresh_common in refl)))
        go (some r) e = rw (e, merge_common) (common_over_rule r.common r.defined_in r e)

    pub merge_symbol_rule : Ensures P (merge_symbol t obj_id input)
    unfolding merge_symbol
    merge_symbol_rule = elim (Bool-cases input.is_undefined) [
      | inl u ↦ simp (u, merge_symbol) merge_undefined_rule
      | inr u ↦ elim (Bool-cases input.is_common) [
        | inl c ↦ simp (u, c) merge_common_rule
        | inr c ↦ simp (u, c) merge_defined_rule
      ]
    ]
