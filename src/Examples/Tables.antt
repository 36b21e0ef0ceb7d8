-- ===== src/Examples/Tables.antt =====
-- Runs of the symbol table (peony-symbols/src/lib.rs).
use peony.Base.{
  true, false, ◌^◌, ◌≤◌, ◌≡◌, refl, ◌≢◌, Bool, List, [], ◌∷◌, Option, none, some, arith, get_elem?,
}
use peony.Base.Bytes.{Bytes}
use peony.Object.{InputSymbol}
use peony.Symbols.Resolution.{
  cached_defined, SymbolResolution, make_undefined_resolution, no_id, Outcome, ok,
}
use peony.Symbols.Table.{SymbolTable, new, lookup, process_symbols}
use peony.Symbols.Updates.{name_by_id, build_id_index}
use peony.Symbols.Ids.{IsIndexed}
use peony.Symbols.History.{
  Call, add, cache, process, ensure, run, total_cost, run-IsIndexed, name_by_id-lookup,
}
use peony.Symbols.IdIndex.{build_id_index-lookup}
use peony.Examples.Data.{f_name, g_name, weak_f, strong_f, wanted_g}

-- The strong definition of `f` upgrades the weak one; `g` gets an id on demand.
abbrev calls : List Call
calls =
    add (97 ∷ [])
    ∷ add (98 ∷ [])
    ∷ process 0 [] (weak_f ∷ wanted_g ∷ [])
    ∷ process 1 [] (strong_f ∷ [])
    ∷ ensure g_name
    ∷ cache (104 ∷ []) 4096 0 0 8
    ∷ []

abbrev bound_f : SymbolResolution
bound_f = record make_undefined_resolution {
  id = 0;
  defined_in = some 1;
  section_index = some 1;
  value = 32;
  size = 4;
  st_type = 2;
}

abbrev bound_g : SymbolResolution
bound_g = record make_undefined_resolution { id = 1; binding = peony.Object.weak }

abbrev after : SymbolTable
after = record {
  resolutions = (f_name, bound_f) ∷ (g_name, bound_g) ∷ (104 ∷ [], cached_defined 4096 0 0 8) ∷ [];
  names = f_name ∷ g_name ∷ [];
  object_paths = (97 ∷ []) ∷ (98 ∷ []) ∷ [];
}

run-calls : run new calls ≡ ok after
unfolding run peony.Symbols.History.call process_symbols peony.Symbols.Table.is_skipped
    peony.Symbols.Table.merge_symbol peony.Symbols.Table.merge_defined
    peony.Symbols.Table.merge_undefined peony.Symbols.Table.define_over
    peony.Symbols.Table.apply_action peony.Symbols.Table.bind peony.Symbols.Table.fresh_definition
    peony.Symbols.Table.store peony.Symbols.Table.push_name peony.Symbols.Table.next_id
    peony.Symbols.Resolution.conflict_action peony.Symbols.Resolution.action_for
    peony.Symbols.Updates.ensure_id make_undefined_resolution lookup new peony.Base.Map.get
    peony.Base.Map.insert peony.Base.Bytes.bytes_eq peony.Symbols.Table.is_local
    peony.Symbols.Table.contains peony.Symbols.Table.add_object peony.Symbols.Updates.insert_cached
run-calls = refl

find_f : lookup after f_name ≡ some bound_f
unfolding lookup peony.Base.Map.get peony.Base.Bytes.bytes_eq
find_f = refl

f_id : bound_f.id ≢ no_id
unfolding make_undefined_resolution
f_id e = omega arith

after-IsIndexed : IsIndexed after
after-IsIndexed = run-IsIndexed calls after (omega arith) run-calls

name_by_id-lookup_example :
    (name_by_id after bound_f.id ≡ some f_name)
    × ((other : Bytes) (q : SymbolResolution)
        → lookup after other ≡ some q
        → q.id ≡ bound_f.id
        → other ≡ f_name)
name_by_id-lookup_example =
    name_by_id-lookup calls after f_name bound_f (omega arith) run-calls find_f f_id

build_id_index-lookup_example : get_elem? (build_id_index after) bound_f.id ≡ some (some bound_f)
build_id_index-lookup_example =
    build_id_index-lookup after after-IsIndexed f_name bound_f find_f f_id

abbrev common_f : InputSymbol
common_f = record strong_f { is_common = true; section = none }

abbrev ifunc_f : InputSymbol
ifunc_f = record strong_f { is_ifunc = true; st_type = 10 }

abbrev ifunc_flag : Outcome SymbolTable → Option Bool
ifunc_flag (ok t) = elim (lookup t f_name) [ none ↦ none | some r ↦ some r.is_ifunc ]
ifunc_flag _ = none

-- An IFUNC that overrides a common block of its name is not marked as one; alone it is.
ifunc_after_common : ifunc_flag (process_symbols new 0 [] (common_f ∷ ifunc_f ∷ [])) ≡ some false
unfolding process_symbols peony.Symbols.Table.is_skipped peony.Symbols.Table.merge_symbol
    peony.Symbols.Table.merge_defined peony.Symbols.Table.merge_common
    peony.Symbols.Table.common_over peony.Symbols.Table.fresh_common peony.Symbols.Table.define_over
    peony.Symbols.Table.bind peony.Symbols.Table.store peony.Symbols.Table.push_name
    peony.Symbols.Table.next_id make_undefined_resolution lookup new peony.Base.Map.get
    peony.Base.Map.insert peony.Base.Bytes.bytes_eq peony.Symbols.Table.is_local
ifunc_after_common = refl

ifunc_alone : ifunc_flag (process_symbols new 0 [] (ifunc_f ∷ [])) ≡ some true
unfolding process_symbols peony.Symbols.Table.is_skipped peony.Symbols.Table.merge_symbol
    peony.Symbols.Table.merge_defined peony.Symbols.Table.fresh_definition peony.Symbols.Table.bind
    peony.Symbols.Table.store peony.Symbols.Table.push_name peony.Symbols.Table.next_id
    make_undefined_resolution lookup new peony.Base.Map.get peony.Base.Map.insert
    peony.Base.Bytes.bytes_eq peony.Symbols.Table.is_local peony.Symbols.Table.contains
ifunc_alone = refl
