-- ===== src/Symbols/Indexed.antt =====
-- Every operation of peony-symbols/src/lib.rs that changes the table keeps its ids and names in step.
use peony.Base.{
  ℕ, suc, ◌+◌, ◌≤◌, ◌<◌, ◌^◌, ◌≡◌, refl, ◌∙◌, inl, inr, Bool, true, false, List, [], ◌∷◌, Option,
  none, some, arith, ◌==◌, if◌then◌else◌, Bool-cases, length,
}
use peony.Base.Bytes.{Bytes}
use peony.Object.{global, InputSymbol}
use peony.Symbols.Resolution.{
  no_id, SymbolResolution, make_undefined_resolution, is_defined, Outcome, ok, err, panicked, ◌>>=◌,
}
use peony.Symbols.Table.{SymbolTable, lookup, store, merge_symbol, is_skipped, process_symbols}
use peony.Symbols.Updates.{
  entry, force_undefined, define_absolute, mark_copy_reloc, ensure_id, import_entry, import_symbol,
  SharedExport,
}
use peony.Symbols.Ids.{IsIndexed, Grows, Grows-refl, Grows-store, Grows-mint}
use peony.Symbols.Merged.{merge_symbol-Grows, Grows-same, Ensures}

pub Grows-trans : (k m : ℕ) (a b c : SymbolTable) → Grows k a b → Grows m b c → Grows (k + m) a c
Grows-trans k m a b c h g = record { indexed = g.indexed; grown = omega arith; kept = omega arith }

pub Ensures-Grows-trans :
    (k m : ℕ) (a b : SymbolTable) (o : Outcome SymbolTable)
    → Grows k a b
    → Ensures (Grows m b) o
    → Ensures (Grows (k + m) a) o
Ensures-Grows-trans k m a b (ok c) h g = Grows-trans k m a b c h g
Ensures-Grows-trans k m a b (err e) h g = tt
Ensures-Grows-trans k m a b panicked h g = tt

pub process_symbols-Grows :
    (t : SymbolTable) (obj_id : ℕ) (excluded : List ℕ) (inputs : List InputSymbol)
    → IsIndexed t
    → length t.names + length inputs ≤ 2 ^ 32
    → Ensures (Grows (length inputs) t) (process_symbols t obj_id excluded inputs)
unfolding process_symbols
process_symbols-Grows t obj_id excluded [] v room = Grows-refl 0 t v
process_symbols-Grows t obj_id excluded (input ∷ inputs) v room =
    go (if is_skipped excluded input then ok t else merge_symbol t obj_id input)
      (λ t' v' room'. process_symbols-Grows t' obj_id excluded inputs v' room') first
  where
    first :
        Ensures
          (Grows 1 t)
          (if is_skipped excluded input then ok t else merge_symbol t obj_id input)
    first = elim (Bool-cases (is_skipped excluded input)) [
      | inl e ↦ rw (e, Ensures) (Grows-refl 1 t v)
      | inr e ↦ rw (e, Ensures) (merge_symbol-Grows t v input obj_id (omega arith))
    ]

    go :
        (o : Outcome SymbolTable)
        → ((t' : SymbolTable)
            → IsIndexed t'
            → length t'.names + length inputs ≤ 2 ^ 32
            → Ensures (Grows (length inputs) t') (process_symbols t' obj_id excluded inputs))
        → Ensures (Grows 1 t) o
        → Ensures
            (Grows (suc (length inputs)) t)
            (o >>= λ t'. process_symbols t' obj_id excluded inputs)
    go (ok t') rest g =
        let total : 1 + length inputs ≡ suc (length inputs) = omega arith in
        rw (← total) (
          Ensures-Grows-trans 1 (length inputs) t t' _ g
            (rest t' g.indexed (let grown = g.grown in omega arith)))
    go (err e) rest g = tt
    go panicked rest g = tt

pub Grows-if :
    {k : ℕ} {t a c : SymbolTable} (b : Bool)
    → Grows k t a
    → Grows k t c
    → Grows k t (if b then a else c)
Grows-if true h g = h
Grows-if false h g = g

module _ (t : SymbolTable) (v : IsIndexed t) (name : Bytes) where
  -- The entry of the name, rewritten under its own id.
  entry-Grows :
      (change : SymbolResolution → SymbolResolution)
      → ((e : SymbolResolution) → (change e).id ≡ e.id)
      → Grows 1 t (store t name (change (entry t name)))
  unfolding entry
  entry-Grows change same = go (lookup t name) refl
    where
      go :
          (o : Option SymbolResolution)
          → lookup t name ≡ o
          → Grows 1 t (store t name (change (entry t name)))
      go none e =
          rw (e, entry)
            (Grows-store 1 t name _ v (λ n.
              absurd
                (n (same make_undefined_resolution ∙ unfold make_undefined_resolution in refl))))
      go (some r) e = rw (e, entry) (Grows-same t v 1 name r (change r) e (same r))

  pub force_undefined-Grows : Grows 1 t (force_undefined t name)
  unfolding force_undefined
  force_undefined-Grows =
      entry-Grows (λ e. if is_defined e then e else record e { binding = global })
        (λ e. ground arith)

  pub define_absolute-Grows : (value : ℕ) → Grows 1 t (define_absolute t name value)
  unfolding define_absolute
  define_absolute-Grows value =
      entry-Grows
        (λ e. record e {
          defined_in = some 0;
          section_index = none;
          value = value;
          virtual_address = value;
        })
        (λ e. refl)

  pub mark_copy_reloc-Grows : Grows 1 t (mark_copy_reloc t name)
  unfolding mark_copy_reloc
  mark_copy_reloc-Grows = go (lookup t name) refl
    where
      go : (o : Option SymbolResolution) → lookup t name ≡ o → Grows 1 t (mark_copy_reloc t name)
      go none e = rw (e, mark_copy_reloc) (Grows-refl 1 t v)
      go (some r) e =
          rw (e, mark_copy_reloc)
            (Grows-if r.import (Grows-same t v 1 name r (record r { copy_reloc = true }) e refl)
              (Grows-refl 1 t v))

  module _ (room : length t.names < 2 ^ 32) where
    pub ensure_id-Grows : Grows 1 t (ensure_id t name).0
    unfolding ensure_id
    ensure_id-Grows = go (lookup t name) refl
      where
        go : (o : Option SymbolResolution) → lookup t name ≡ o → Grows 1 t (ensure_id t name).0
        go none e = rw (e, ensure_id) (Grows-refl 1 t v)
        go (some r) e = elim (Bool-cases (r.id == no_id)) [
          | inl i ↦ simp (e, ensure_id, i) (Grows-mint t name _ v room refl)
          | inr i ↦ simp (e, ensure_id, i) (Grows-refl 1 t v)
        ]

    pub import_entry-Grows :
        (version : Option Bytes) (soname : Bytes) → Grows 1 t (import_entry t name version soname)
    unfolding import_entry
    import_entry-Grows version soname = Grows-mint t name _ v room refl

pub import_symbol-Grows :
    (t : SymbolTable) (ex : SharedExport) (soname : Bytes)
    → IsIndexed t
    → length t.names < 2 ^ 32
    → Grows 1 t (import_symbol t ex soname)
unfolding import_symbol
import_symbol-Grows t ex soname v room = Grows-mint t ex.name _ v room refl
