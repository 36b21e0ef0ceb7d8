-- ===== src/Symbols/Resolve.antt =====
-- What processing one object's symbols (peony-symbols/src/lib.rs, `process_object_excluding`) does to
-- a strong definition, of this object or of an earlier one.
use peony.Base.{
  ℕ, zero, suc, ◌+◌, ◌≡◌, refl, sym, ◌∙◌, ap, ◌≢◌, ◌⊎◌, inl, inr, Bool, true, false, List, [], ◌∷◌,
  Option, none, some, arith, if◌then◌else◌, Bool-cases, get_elem?, subst,
}
use peony.Object.{local, InputSymbol}
use peony.Symbols.Resolution.{Outcome, ok, err, panicked, ◌>>=◌}
use peony.Symbols.Table.{
  SymbolTable, new, lookup, store, push_name, merge_symbol, is_skipped, process_symbols,
}
use peony.Symbols.Rule.{merge_symbol_rule}
use peony.Symbols.Merged.{Ensures}
use peony.Symbols.Bound.{IsStrong, BoundAt, NoLocal, merge_symbol-NoLocal}
use peony.Symbols.Strong.{merge_strong, merge_keeps}

-- A property that each round of a loop keeps holds when the loop ends.
pub bind_Ensures :
    (P Q : SymbolTable → Type 0) (o : Outcome SymbolTable) (f : SymbolTable → Outcome SymbolTable)
    → Ensures P o
    → ((t : SymbolTable) → P t → Ensures Q (f t))
    → Ensures Q (o >>= f)
bind_Ensures P Q (ok t) f h k = k t h
bind_Ensures P Q (err e) f h k = tt
bind_Ensures P Q panicked f h k = tt

not_local :
    (excluded : List ℕ) (input : InputSymbol)
    → is_skipped excluded input ≡ false
    → input.binding ≢ local
unfolding is_skipped
not_local excluded input e z = ground arith

abbrev round : SymbolTable → ℕ → List ℕ → InputSymbol → Outcome SymbolTable
round t obj_id excluded input =
    if is_skipped excluded input then ok t else merge_symbol t obj_id input

round-NoLocal :
    (t : SymbolTable) (obj_id : ℕ) (excluded : List ℕ) (input : InputSymbol)
    → NoLocal t
    → Ensures NoLocal (round t obj_id excluded input)
round-NoLocal t obj_id excluded input v = elim (Bool-cases (is_skipped excluded input)) [
  | inl e ↦ rw (e, Ensures) v
  | inr e ↦ rw (e, Ensures) (merge_symbol-NoLocal t obj_id input v (not_local excluded input e))
]

pub process-NoLocal :
    (t : SymbolTable) (obj_id : ℕ) (excluded : List ℕ) (inputs : List InputSymbol)
    → NoLocal t
    → Ensures NoLocal (process_symbols t obj_id excluded inputs)
unfolding process_symbols
process-NoLocal t obj_id excluded [] v = v
process-NoLocal t obj_id excluded (input ∷ inputs) v =
    bind_Ensures NoLocal NoLocal (round t obj_id excluded input) _
      (round-NoLocal t obj_id excluded input v)
      (λ t' v'. process-NoLocal t' obj_id excluded inputs v')

module _ (owner : ℕ) (strong_def : InputSymbol) where
  abbrev pub Kept : SymbolTable → Type 0
  Kept = BoundAt strong_def.name owner strong_def

  pub process-keeps :
      (t : SymbolTable) (obj_id : ℕ) (excluded : List ℕ) (inputs : List InputSymbol)
      → Kept t
      → Ensures Kept (process_symbols t obj_id excluded inputs)
  unfolding process_symbols
  process-keeps t obj_id excluded [] k = k
  process-keeps t obj_id excluded (input ∷ inputs) k =
      bind_Ensures Kept Kept (round t obj_id excluded input) _
        (elim (Bool-cases (is_skipped excluded input)) [
          | inl e ↦ rw (e, Ensures) k
          | inr e ↦ rw (e, Ensures) (merge_keeps t owner strong_def obj_id input k)
        ])
        (λ t' k'. process-keeps t' obj_id excluded inputs k')

  module _ (strong : IsStrong strong_def) where
    pub process-binds :
        (t : SymbolTable) (excluded : List ℕ) (inputs : List InputSymbol) (j : ℕ)
        → NoLocal t
        → is_skipped excluded strong_def ≡ false
        → get_elem? inputs j ≡ some strong_def
        → Ensures Kept (process_symbols t owner excluded inputs)
    unfolding process_symbols
    process-binds t excluded [] j v s at = cc
    process-binds t excluded (input ∷ inputs) zero v s at =
        let same : input ≡ strong_def = ground arith in
        rw (same, Ensures)
          (bind_Ensures Kept Kept (round t owner excluded strong_def) _
            (rw (s, Ensures) (merge_strong t owner strong_def strong (v strong_def.name)))
            (λ t' k'. process-keeps t' owner excluded inputs k'))
    process-binds t excluded (input ∷ inputs) (suc j) v s at =
        bind_Ensures NoLocal Kept (round t owner excluded input) _
          (round-NoLocal t owner excluded input v)
          (λ t' v'. process-binds t' excluded inputs j v' s at)

pub new-NoLocal : NoLocal new
unfolding lookup new peony.Base.Map.get
new-NoLocal name r e = cc

-- The paths of the objects stay as they are.
pub process-object_paths :
    (t u : SymbolTable) (obj_id : ℕ) (excluded : List ℕ) (inputs : List InputSymbol)
    → t.object_paths ≡ u.object_paths
    → Ensures (λ t'. t'.object_paths ≡ u.object_paths) (process_symbols t obj_id excluded inputs)
unfolding process_symbols
process-object_paths t u obj_id excluded [] e = e
process-object_paths t u obj_id excluded (input ∷ inputs) e =
    bind_Ensures (λ t'. t'.object_paths ≡ u.object_paths) (λ t'. t'.object_paths ≡ u.object_paths)
      (round t obj_id excluded input) _
      (elim (Bool-cases (is_skipped excluded input)) [
        | inl s ↦ rw (s, Ensures) e
        | inr s ↦
            rw (s, Ensures)
              (merge_symbol_rule (λ t'. t'.object_paths ≡ u.object_paths) t input e
                (λ r a. unfold store in e) (λ r a. unfold store push_name in e) obj_id)
      ])
      (λ t' e'. process-object_paths t' u obj_id excluded inputs e')
