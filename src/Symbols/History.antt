-- ===== src/Symbols/History.antt =====
-- Any sequence of calls of the operations of peony-symbols/src/lib.rs, from the empty table on.
use peony.Base.{
  ℕ, suc, ◌+◌, ◌≤◌, ◌^◌, ◌≡◌, refl, sym, ◌∙◌, ap, ◌≢◌, List, [], ◌∷◌, Option, some, arith,
  if◌then◌else◌, length, get_elem?, some-injective,
}
use peony.Base.Bytes.{Bytes}
use peony.Object.{InputSymbol}
use peony.Symbols.Resolution.{
  cached_defined, no_id, SymbolResolution, Outcome, ok, err, panicked, ◌>>=◌,
}
use peony.Symbols.Table.{SymbolTable, new, lookup, add_object, process_symbols}
use peony.Symbols.Updates.{
  force_undefined, define_absolute, mark_copy_reloc, ensure_id, import_entry, import_symbol,
  SharedExport, is_wanted, version_at, register_from, register_symbols_from,
  register_shared_exports_versioned, register_shared_export_symbols, name_by_id, insert_cached,
}
use peony.Symbols.Ids.{IsIndexed, new-IsIndexed, Grows, Grows-refl, Grows-store}
use peony.Symbols.Merged.{Ensures, Ensures-ok}
use peony.Symbols.Indexed.{
  Grows-if, Ensures-Grows-trans, process_symbols-Grows, force_undefined-Grows,
  define_absolute-Grows, mark_copy_reloc-Grows, ensure_id-Grows, import_entry-Grows,
  import_symbol-Grows,
}

Grows-step : (m : ℕ) (t a c : SymbolTable) → Grows 1 t a → Grows m a c → Grows (suc m) t c
Grows-step m t a c h g = record { indexed = g.indexed; grown = omega arith; kept = omega arith }

register_from-Grows :
    (t : SymbolTable) (i : ℕ) (exports : List Bytes) (versions : List (Option Bytes))
    (soname : Bytes) (n : ℕ)
    → IsIndexed t
    → length t.names + length exports ≤ 2 ^ 32
    → Grows (length exports) t (register_from t i exports versions soname n).0
unfolding register_from
register_from-Grows t i [] versions soname n v room = Grows-refl 0 t v
register_from-Grows t i (name ∷ exports) versions soname n v room =
    let wanted = is_wanted (lookup t name) in
    let first : Grows 1 t
        (if wanted then import_entry t name (version_at versions i) soname else t) =
      Grows-if wanted (import_entry-Grows t v name (omega arith) (version_at versions i) soname)
        (Grows-refl 1 t v) in
    let grown = first.grown in
    Grows-step (length exports) t _ _ first (
      register_from-Grows (if wanted then import_entry t name (version_at versions i) soname else t)
        (i + 1) exports versions soname (if wanted then n + 1 else n) first.indexed (omega arith))

register_symbols_from-Grows :
    (t : SymbolTable) (exports : List SharedExport) (soname : Bytes) (n : ℕ)
    → IsIndexed t
    → length t.names + length exports ≤ 2 ^ 32
    → Grows (length exports) t (register_symbols_from t exports soname n).0
unfolding register_symbols_from
register_symbols_from-Grows t [] soname n v room = Grows-refl 0 t v
register_symbols_from-Grows t (ex ∷ exports) soname n v room =
    let wanted = is_wanted (lookup t ex.name) in
    let first : Grows 1 t (if wanted then import_symbol t ex soname else t) =
      Grows-if wanted (import_symbol-Grows t ex soname v (omega arith)) (Grows-refl 1 t v) in
    let grown = first.grown in
    Grows-step (length exports) t _ _ first (
      register_symbols_from-Grows (if wanted then import_symbol t ex soname else t) exports soname
        (if wanted then n + 1 else n) first.indexed (omega arith))

-- A call of an operation that changes the table. What is inserted from the cache is what `cached_defined` makes, as
-- in build_cached_symbol_view of peony/src/main.rs.
pub data Call : Type 0 where
  process : (obj_id : ℕ) (excluded : List ℕ) (inputs : List InputSymbol) → Call
  register : (exports : List Bytes) (versions : List (Option Bytes)) (soname : Bytes) → Call
  register_symbols : (exports : List SharedExport) (soname : Bytes) → Call
  force : Bytes → Call
  define : Bytes → ℕ → Call
  mark_copy : Bytes → Call
  ensure : Bytes → Call
  add : (path : Bytes) → Call
  cache : (name : Bytes) (virtual_address got_address plt_address size : ℕ) → Call

unfoldable pub call : SymbolTable → Call → Outcome SymbolTable
call t (process obj_id excluded inputs) = process_symbols t obj_id excluded inputs
call t (register exports versions soname) =
    ok (register_shared_exports_versioned t exports versions soname).0
call t (register_symbols exports soname) = ok (register_shared_export_symbols t exports soname).0
call t (force name) = ok (force_undefined t name)
call t (define name value) = ok (define_absolute t name value)
call t (mark_copy name) = ok (mark_copy_reloc t name)
call t (ensure name) = ok (ensure_id t name).0
call t (add path) = ok (add_object t path).1
call t (cache name va got plt size) = ok (insert_cached t name (cached_defined va got plt size))

-- At most how many ids a call mints.
abbrev pub cost : Call → ℕ
cost (process obj_id excluded inputs) = length inputs
cost (register exports versions soname) = length exports
cost (register_symbols exports soname) = length exports
cost (add path) = 0
cost (cache name va got plt size) = 0
cost _ = 1

abbrev pub total_cost : List Call → ℕ
total_cost [] = 0
total_cost (c ∷ cs) = cost c + total_cost cs

unfoldable pub run : SymbolTable → List Call → Outcome SymbolTable
run t [] = ok t
run t (c ∷ cs) = call t c >>= λ t'. run t' cs

call-Grows :
    (t : SymbolTable) (c : Call)
    → IsIndexed t
    → length t.names + cost c ≤ 2 ^ 32
    → Ensures (Grows (cost c) t) (call t c)
unfolding call
call-Grows t (process obj_id excluded inputs) v room =
    process_symbols-Grows t obj_id excluded inputs v room
call-Grows t (register exports versions soname) v room =
    unfold register_shared_exports_versioned in
    register_from-Grows t 0 exports versions soname 0 v room
call-Grows t (register_symbols exports soname) v room =
    unfold register_shared_export_symbols in register_symbols_from-Grows t exports soname 0 v room
call-Grows t (force name) v room = force_undefined-Grows t v name
call-Grows t (define name value) v room = define_absolute-Grows t v name value
call-Grows t (mark_copy name) v room = mark_copy_reloc-Grows t v name
call-Grows t (ensure name) v room = ensure_id-Grows t v name (omega arith)
call-Grows t (add path) v room =
    unfold add_object in
    record { indexed = unfold lookup in v; grown = omega arith; kept = omega arith }
call-Grows t (cache name va got plt size) v room =
    unfold insert_cached in
    Grows-store 0 t name (cached_defined va got plt size) v
      (λ n. absurd (n (unfold cached_defined in refl)))

run-Grows :
    (t : SymbolTable) (cs : List Call)
    → IsIndexed t
    → length t.names + total_cost cs ≤ 2 ^ 32
    → Ensures (Grows (total_cost cs) t) (run t cs)
unfolding run
run-Grows t [] v room = Grows-refl 0 t v
run-Grows t (c ∷ cs) v room =
    go (call t c) (λ t' v' room'. run-Grows t' cs v' room') (call-Grows t c v (omega arith))
  where
    go :
        (o : Outcome SymbolTable)
        → ((t' : SymbolTable)
            → IsIndexed t'
            → length t'.names + total_cost cs ≤ 2 ^ 32
            → Ensures (Grows (total_cost cs) t') (run t' cs))
        → Ensures (Grows (cost c) t) o
        → Ensures (Grows (cost c + total_cost cs) t) (o >>= λ t'. run t' cs)
    go (ok t') rest g =
        Ensures-Grows-trans (cost c) (total_cost cs) t t' _ g
          (rest t' g.indexed (let grown = g.grown in omega arith))
    go (err e) rest g = tt
    go panicked rest g = tt

pub run-IsIndexed :
    (cs : List Call) (t : SymbolTable) → total_cost cs ≤ 2 ^ 32 → run new cs ≡ ok t → IsIndexed t
run-IsIndexed cs t room e =
    let zero_names : length new.names ≡ 0 = unfold new in refl in
    let g =
      Ensures-ok (Grows (total_cost cs) new) (run new cs) t e
        (run-Grows new cs new-IsIndexed (omega arith)) in
    g.indexed

-- After any sequence of successful calls from the empty table that mints at most 2 ^ 32 ids, where calls add objects,
-- process their symbols, register shared exports, force, define, mark and number symbols, and insert cached ones:
-- `name_by_id` gives back the name of every resolution that has an id, so that no two names share
-- an id.
pub name_by_id-lookup :
    (cs : List Call) (t : SymbolTable) (name : Bytes) (r : SymbolResolution)
    → total_cost cs ≤ 2 ^ 32
    → run new cs ≡ ok t
    → lookup t name ≡ some r
    → r.id ≢ no_id
    → (name_by_id t r.id ≡ some name)
      × ((other : Bytes) (q : SymbolResolution)
          → lookup t other ≡ some q
          → q.id ≡ r.id
          → other ≡ name)
unfolding name_by_id
name_by_id-lookup cs t name r room e found n =
    let indexed = run-IsIndexed cs t room e in
    let here = indexed name r found n in
    (
      here,
      λ other q there same. some-injective other name (
          sym (indexed other q there (λ z. n (sym same ∙ z))) ∙ ap (get_elem? t.names) same ∙ here),
    )
