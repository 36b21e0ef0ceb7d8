-- ===== src/Symbols/Merged.antt =====
-- Merging an input symbol (peony-symbols/src/lib.rs) keeps the ids and the names in step.
use peony.Base.{
  ℕ, ◌<◌, ◌^◌, ◌≡◌, refl, ◌∙◌, inl, inr, Option, none, some, Bool-cases, length, subst,
}
use peony.Base.Bytes.{Bytes}
use peony.Object.{Binding, global, InputSymbol}
use peony.Symbols.Resolution.{
  SymbolResolution, make_undefined_resolution, Outcome, ok, err, panicked, ◌>>=◌, ConflictAction,
  satisfy_undef, upgrade, keep_existing, warn_local, conflict_action,
}
use peony.Symbols.Table.{
  SymbolTable, lookup, store, strengthen, merge_undefined, bind, apply_action, define_over,
  common_over, fresh_definition, fresh_common, merge_defined, merge_common, merge_symbol,
}
use peony.Symbols.Ids.{IsIndexed, Grows, Grows-refl, Grows-store, Grows-mint}

-- What holds of the table that a successful operation returns.
abbrev pub Ensures : (SymbolTable → Type 0) → Outcome SymbolTable → Type 0
Ensures P (ok t) = P t
Ensures P (err e) = Unit
Ensures P panicked = Unit

pub Ensures-ok :
    (P : SymbolTable → Type 0) (o : Outcome SymbolTable) (t : SymbolTable)
    → o ≡ ok t
    → Ensures P o
    → P t
Ensures-ok P o t e h = subst (Ensures P) e h

module _ (t : SymbolTable) (v : IsIndexed t) (k : ℕ) where
  -- An entry rewritten under its old id.
  pub Grows-same :
      (name : Bytes) (e r : SymbolResolution)
      → lookup t name ≡ some e
      → r.id ≡ e.id
      → Grows k t (store t name r)
  Grows-same name e r found same =
      Grows-store k t name r v (λ n. rw same (v name e found (λ z. n (same ∙ z))))

module _ (t : SymbolTable) (v : IsIndexed t) (input : InputSymbol) where
  strengthen-Grows :
      (d : Option ℕ) (b : Binding) (e : SymbolResolution)
      → lookup t input.name ≡ some e
      → Grows 1 t (strengthen d b t input.name e)
  unfolding strengthen
  strengthen-Grows (some d) b e h = Grows-refl 1 t v
  strengthen-Grows none global e h =
      Grows-same t v 1 input.name e (record e { binding = global }) h refl
  strengthen-Grows none _ e h = Grows-refl 1 t v

  merge_undefined-Grows : Grows 1 t (merge_undefined t input)
  unfolding merge_undefined
  merge_undefined-Grows = go (lookup t input.name) refl
    where
      go :
          (o : Option SymbolResolution)
          → lookup t input.name ≡ o
          → Grows 1 t (merge_undefined t input)
      go none e =
          rw (e, merge_undefined)
            (Grows-store 1 t input.name _ v
              (unfold make_undefined_resolution in λ n. absurd (n refl)))
      go (some r) e = rw (e, merge_undefined) (strengthen-Grows r.defined_in input.binding r e)

  module _ (obj_id : ℕ) (room : length t.names < 2 ^ 32) where
    apply_action-Grows :
        (a : ConflictAction) (e : SymbolResolution)
        → lookup t input.name ≡ some e
        → Grows 1 t (apply_action a t e obj_id input)
    unfolding apply_action
    apply_action-Grows satisfy_undef e h = Grows-mint t input.name _ v room refl
    apply_action-Grows upgrade e h = Grows-same t v 1 input.name e _ h refl
    apply_action-Grows keep_existing e h = Grows-refl 1 t v
    apply_action-Grows warn_local e h = Grows-refl 1 t v

    define_over-Grows :
        (c : Option (ℕ × ℕ)) (e : SymbolResolution)
        → lookup t input.name ≡ some e
        → Ensures (Grows 1 t) (define_over c t e obj_id input)
    unfolding define_over
    define_over-Grows (some c) e h = Grows-same t v 1 input.name e _ h (unfold bind in refl)
    define_over-Grows none e h = go (conflict_action e obj_id input t.object_paths)
      where
        go :
            (o : Outcome ConflictAction)
            → Ensures (Grows 1 t) (o >>= λ a. ok (apply_action a t e obj_id input))
        go (ok a) = apply_action-Grows a e h
        go (err x) = tt
        go panicked = tt

    merge_defined-Grows : Ensures (Grows 1 t) (merge_defined t obj_id input)
    unfolding merge_defined
    merge_defined-Grows = go (lookup t input.name) refl
      where
        go :
            (o : Option SymbolResolution)
            → lookup t input.name ≡ o
            → Ensures (Grows 1 t) (merge_defined t obj_id input)
        go none e =
            rw (e, merge_defined, Ensures)
              (Grows-mint t input.name _ v room (unfold fresh_definition in refl))
        go (some r) e = rw (e, merge_defined) (define_over-Grows r.common r e)

    common_over-Grows :
        (c : Option (ℕ × ℕ)) (d : Option ℕ) (e : SymbolResolution)
        → lookup t input.name ≡ some e
        → Grows 1 t (common_over c d t e obj_id input)
    unfolding common_over
    common_over-Grows none (some d) e h = Grows-refl 1 t v
    common_over-Grows (some c) d e h = Grows-same t v 1 input.name e _ h refl
    common_over-Grows none none e h = Grows-mint t input.name _ v room refl

    merge_common-Grows : Grows 1 t (merge_common t obj_id input)
    unfolding merge_common
    merge_common-Grows = go (lookup t input.name) refl
      where
        go :
            (o : Option SymbolResolution)
            → lookup t input.name ≡ o
            → Grows 1 t (merge_common t obj_id input)
        go none e =
            rw (e, merge_common) (Grows-mint t input.name _ v room (unfold fresh_common in refl))
        go (some r) e = rw (e, merge_common) (common_over-Grows r.common r.defined_in r e)

    pub merge_symbol-Grows : Ensures (Grows 1 t) (merge_symbol t obj_id input)
    unfolding merge_symbol
    merge_symbol-Grows = elim (Bool-cases input.is_undefined) [
      | inl u ↦ simp (u, merge_symbol) merge_undefined-Grows
      | inr u ↦ elim (Bool-cases input.is_common) [
        | inl c ↦ simp (u, c) merge_common-Grows
        | inr c ↦ simp (u, c) merge_defined-Grows
      ]
    ]
