-- ===== src/Examples/Links.antt =====
-- A run of the resolution of two objects (peony/src/main.rs).
use peony.Base.{ℕ, ◌^◌, ◌≤◌, ◌≡◌, refl, ◌≢◌, true, false, List, [], ◌∷◌, none, some, arith, length}
use peony.Object.{InputObject, local}
use peony.Symbols.Resolution.{
  SymbolResolution, make_undefined_resolution, ok, err, duplicate_symbol,
}
use peony.Symbols.Table.{SymbolTable}
use peony.Symbols.Bound.{IsStrong, BoundAt}
use peony.Link.Resolver.{Resolver, start, resolve_objects}
use peony.Link.Strong.{IsVisible, resolve_objects-strong}
use peony.Link.Unique.{resolve_objects_unique}
use peony.Examples.Data.{f_name, g_name, strong_f, first_object, second_object}

abbrev objects : List InputObject
objects = first_object ∷ second_object ∷ []

abbrev bound_f : SymbolResolution
bound_f = record make_undefined_resolution {
  id = 0;
  defined_in = some 1;
  section_index = some 1;
  value = 32;
  size = 4;
  st_type = 2;
}

abbrev linked : Resolver
linked = record {
  objects = objects;
  symbols = record {
    resolutions =
        (f_name, bound_f)
        ∷ (g_name, record make_undefined_resolution { binding = peony.Object.weak })
        ∷ [];
    names = f_name ∷ [];
    object_paths = (97 ∷ []) ∷ (98 ∷ []) ∷ [];
  };
  seen_comdat = [];
  excluded = [];
}

link_run : resolve_objects start objects ≡ ok linked
unfolding resolve_objects peony.Link.Resolver.resolve_object peony.Link.Resolver.object_groups
    peony.Link.Resolver.exclude_groups start peony.Symbols.Table.new peony.Symbols.Table.add_object
    peony.Symbols.Table.process_object_excluding peony.Symbols.Table.process_symbols
    peony.Symbols.Table.is_skipped peony.Symbols.Table.merge_symbol
    peony.Symbols.Table.merge_defined peony.Symbols.Table.merge_undefined
    peony.Symbols.Table.define_over peony.Symbols.Table.apply_action peony.Symbols.Table.bind
    peony.Symbols.Table.fresh_definition peony.Symbols.Table.store peony.Symbols.Table.push_name
    peony.Symbols.Table.next_id peony.Symbols.Resolution.conflict_action
    peony.Symbols.Resolution.action_for make_undefined_resolution peony.Symbols.Table.lookup
    peony.Base.Map.get peony.Base.Map.insert peony.Base.Bytes.bytes_eq peony.Symbols.Table.is_local
    peony.Symbols.Table.contains
link_run = refl

-- A second strong definition of the name.
duplicate_run :
    resolve_objects start (second_object ∷ second_object ∷ [])
    ≡ err (duplicate_symbol f_name (98 ∷ []) (98 ∷ []))
unfolding resolve_objects peony.Link.Resolver.resolve_object peony.Link.Resolver.object_groups
    peony.Link.Resolver.exclude_groups start peony.Symbols.Table.new peony.Symbols.Table.add_object
    peony.Symbols.Table.process_object_excluding peony.Symbols.Table.process_symbols
    peony.Symbols.Table.is_skipped peony.Symbols.Table.merge_symbol
    peony.Symbols.Table.merge_defined peony.Symbols.Table.define_over peony.Symbols.Table.bind
    peony.Symbols.Table.fresh_definition peony.Symbols.Table.store peony.Symbols.Table.push_name
    peony.Symbols.Table.next_id peony.Symbols.Resolution.conflict_action
    peony.Symbols.Resolution.action_for peony.Symbols.Resolution.duplicate make_undefined_resolution
    peony.Symbols.Table.lookup peony.Base.Map.get peony.Base.Map.insert peony.Base.Bytes.bytes_eq
    peony.Symbols.Table.is_local peony.Symbols.Table.contains
duplicate_run = refl

strong_f-IsStrong : IsStrong strong_f
strong_f-IsStrong = record { here = refl; real = refl; bound = refl }

strong_f-IsVisible : IsVisible 1 strong_f []
unfolding peony.Link.Resolver.contains_pair
strong_f-IsVisible = record { bound = λ e. cc; named = refl; present = λ m e. refl }

resolve_objects-strong_example : BoundAt f_name 1 strong_f linked.symbols
resolve_objects-strong_example =
    resolve_objects-strong objects linked 1 0 second_object strong_f link_run (omega arith) refl
      refl strong_f-IsVisible strong_f-IsStrong

resolve_objects_unique_example : ◌≡◌ {A = ℕ} 1 1
resolve_objects_unique_example =
    resolve_objects_unique objects linked 1 0 1 0 second_object second_object strong_f strong_f
      link_run (omega arith) refl refl refl refl refl strong_f-IsVisible strong_f-IsVisible
      strong_f-IsStrong strong_f-IsStrong
