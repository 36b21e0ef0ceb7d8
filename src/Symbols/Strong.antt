-- ===== src/Symbols/Strong.antt =====
-- The resolution rules of peony-symbols/src/lib.rs over a whole sequence of input symbols.
use peony.Base.{ℕ, ◌≡◌, refl, sym, ◌∙◌, ◌≢◌, inl, inr, Option, none, some, arith, Bool-cases, subst}
use peony.Base.Bytes.{bytes_eq, bytes_eq_iff}
use peony.Object.{local, InputSymbol}
use peony.Symbols.Resolution.{
  SymbolResolution, make_undefined_resolution, Outcome, ok, err, panicked, ◌>>=◌, ConflictAction,
  satisfy_undef, upgrade, keep_existing, warn_local, conflict_action,
}
use peony.Symbols.Table.{
  SymbolTable, lookup, store, strengthen, merge_undefined, bind, apply_action, define_over,
  common_over, fresh_definition, merge_defined, merge_common, merge_symbol,
}
use peony.Symbols.Ids.{lookup-store}
use peony.Symbols.Merged.{Ensures}
use peony.Symbols.Bound.{
  action_for-Binds, action_for-Keeps, IsStrong, IsBound, BoundAt, merge_symbol-frame, Binds, Keeps,
}

module _ (t : SymbolTable) (obj_id : ℕ) (input : InputSymbol) (strong : IsStrong input) where
  stored :
      (t' : SymbolTable) (r : SymbolResolution)
      → IsBound obj_id input r
      → BoundAt input.name obj_id input (store t' input.name r)
  stored t' r b = (
    r,
    ground (arith, lookup-store t' input.name input.name r, bytes_eq_iff input.name input.name),
    b,
  )

  -- A strong definition that meets an entry without a pending common block.
  conflict_binds :
      (e : SymbolResolution)
      → e.binding ≢ local
      → e.common ≡ none
      → Ensures (BoundAt input.name obj_id input) (define_over none t e obj_id input)
  unfolding define_over apply_action conflict_action bind
  conflict_binds e n c =
      go (conflict_action e obj_id input t.object_paths) (
        rw strong.bound
          (action_for-Binds input.name obj_id t.object_paths e.defined_in e.binding n))
    where
      go :
          (o : Outcome ConflictAction)
          → Binds o
          → Ensures
              (BoundAt input.name obj_id input)
              (o >>= λ a. ok (apply_action a t e obj_id input))
      go (ok satisfy_undef) b = stored _ _ (record {
        binding = strong.bound;
        defined_in = refl;
        section_index = refl;
        value = refl;
        size = refl;
        common = c;
      })
      go (ok upgrade) b = stored _ _ (record {
        binding = strong.bound;
        defined_in = refl;
        section_index = refl;
        value = refl;
        size = refl;
        common = c;
      })
      go (ok keep_existing) b = absurd b
      go (ok warn_local) b = absurd b
      go (err x) b = tt
      go panicked b = tt

  pub merge_strong :
      ((e : SymbolResolution) → lookup t input.name ≡ some e → e.binding ≢ local)
      → Ensures (BoundAt input.name obj_id input) (merge_symbol t obj_id input)
  unfolding merge_symbol merge_defined
  merge_strong n = simp (strong.here, strong.real, merge_symbol) (go (lookup t input.name) refl)
    where
      over :
          (c : Option (ℕ × ℕ)) (e : SymbolResolution)
          → e.common ≡ c
          → e.binding ≢ local
          → Ensures (BoundAt input.name obj_id input) (define_over c t e obj_id input)
      over (some c) e at nl =
          unfold define_over bind in
          stored _ _ (record {
            binding = strong.bound;
            defined_in = refl;
            section_index = refl;
            value = refl;
            size = refl;
            common = refl;
          })
      over none e at nl = conflict_binds e nl at

      go :
          (o : Option SymbolResolution)
          → lookup t input.name ≡ o
          → Ensures (BoundAt input.name obj_id input) (merge_defined t obj_id input)
      go none e =
          rw (e, merge_defined, Ensures)
            (unfold fresh_definition bind make_undefined_resolution in
              stored _ _ (record {
                binding = strong.bound;
                defined_in = refl;
                section_index = refl;
                value = refl;
                size = refl;
                common = refl;
              }))
      go (some r) e = rw (e, merge_defined) (over r.common r refl (n r e))

-- A later merge leaves a strong definition in place, whatever it brings.
module _ (t : SymbolTable) (obj_id : ℕ) (input : InputSymbol) (now : ℕ) (later : InputSymbol) where
  conflict_keeps :
      (P : SymbolTable → Type 0) (r : SymbolResolution)
      → IsBound obj_id input r
      → P t
      → Ensures P (define_over r.common t r now later)
  unfolding define_over conflict_action apply_action
  conflict_keeps P r b kept =
      subst (λ c. Ensures P (define_over c t r now later)) (sym b.common)
        (go (conflict_action r now later t.object_paths) (
          rw (b.defined_in, b.binding)
            (action_for-Keeps later.name now t.object_paths obj_id later.binding)))
    where
      go :
          (o : Outcome ConflictAction)
          → Keeps o
          → Ensures P (o >>= λ a. ok (apply_action a t r now later))
      go (ok satisfy_undef) k = absurd k
      go (ok upgrade) k = absurd k
      go (ok keep_existing) k = kept
      go (ok warn_local) k = kept
      go (err x) k = tt
      go panicked k = tt

  same_name :
      (r : SymbolResolution)
      → lookup t later.name ≡ some r
      → IsBound obj_id input r
      → BoundAt later.name obj_id input t
      → Ensures (BoundAt later.name obj_id input) (merge_symbol t now later)
  unfolding merge_symbol merge_undefined merge_common merge_defined strengthen common_over
  same_name r found b kept = elim (Bool-cases later.is_undefined) [
    | inl u ↦ simp (u, merge_symbol, merge_undefined, found) (rw (b.defined_in, strengthen) kept)
    | inr u ↦ elim (Bool-cases later.is_common) [
      | inl c ↦
          simp (u, c, merge_common, found)
            (rw (b.common, common_over) (rw (b.defined_in, common_over) kept))
      | inr c ↦
          simp (u, c, merge_defined, found)
            (conflict_keeps (BoundAt later.name obj_id input) r b kept)
    ]
  ]

  pub merge_keeps :
      BoundAt input.name obj_id input t
      → Ensures (BoundAt input.name obj_id input) (merge_symbol t now later)
  merge_keeps (r, found, b) = elim (Bool-cases (bytes_eq later.name input.name)) [
    | inl e ↦
        let same : later.name ≡ input.name = (bytes_eq_iff later.name input.name).0 e in
        subst (λ n. Ensures (BoundAt n obj_id input) (merge_symbol t now later)) same
          (same_name r (rw same found) b (rw same (r, found, b)))
    | inr e ↦ framed (merge_symbol t now later) (
        merge_symbol-frame t now later input.name
          (λ z. cc ((bytes_eq_iff later.name input.name).1 z)))
  ]
    where
      framed :
          (o : Outcome SymbolTable)
          → Ensures (λ t'. lookup t' input.name ≡ lookup t input.name) o
          → Ensures (BoundAt input.name obj_id input) o
      framed (ok t') f = (r, f ∙ found, b)
      framed (err x) f = tt
      framed panicked f = tt
