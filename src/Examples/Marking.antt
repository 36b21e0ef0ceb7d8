-- ===== src/Examples/Marking.antt =====
-- Runs of the garbage collection of sections (peony-layout/src/gc.rs): the entry section of one object
-- refers to a section of another.
use peony.Base.{
  ℕ, ◌≢◌, ◌-◌, ◌^◌, ◌≡◌, ◌↔◌, true, false, List, [], ◌∷◌, some, ◌>>=◌, if◌then◌else◌, arith,
  get_elem?,
}
use peony.Base.Map.{nat_eq}
use peony.Object.{InputObject}
use peony.Symbols.Resolution.{SymbolResolution, make_undefined_resolution}
use peony.Symbols.Table.{SymbolTable}
use peony.Gc.Live.{LiveSections, insert, contains}
use peony.Gc.Live.Laws.{in_range, contains-insert}
use peony.Gc.Targets.{GcTargetMaps, pack, unpack, target}
use peony.Gc.Targets.Lookup.{unpack-pack}
use peony.Gc.Targets.Meaning.{LastStandsFor, target-new_iff}
use peony.Gc.Targets
use peony.Gc.Live
use peony.Gc.Traversal.{
  GcWorkItem, GcTraversal, collect_roots, gc_sections_rooted_with_stats, rounds, todo, seed_roots,
}
use peony.Gc.Traversal
use peony.Gc.Traversal.Ends.{rounds-ends}
use peony.Gc.Traversal.Marked.{gc_sections-Reach}
use peony.Gc.Traversal.Spec.{Reach, starts_of}
use peony.Examples.Data.{f_name, g_name, first_object, second_object}

abbrev defined : ℕ → SymbolResolution
defined object_id = record make_undefined_resolution {
  defined_in = some object_id;
  section_index = some 1;
}

abbrev table : SymbolTable
table = record {
  resolutions = (f_name, defined 0) ∷ (g_name, defined 1) ∷ [];
  names = f_name ∷ g_name ∷ [];
  object_paths = [];
}

abbrev objects : List InputObject
objects = first_object ∷ second_object ∷ []

abbrev in_order : List GcWorkItem → List GcWorkItem
in_order items = items

unfoldable live : LiveSections
live = (gc_sections_rooted_with_stats 4 in_order objects table f_name false).0

gc_sections-Reach_example :
    (contains live (1, 1) ≡ true)
    ↔ Reach objects
        (peony.Gc.Targets.new objects table)
        (starts_of objects (collect_roots objects table f_name false))
        (1, 1)
unfolding live
gc_sections-Reach_example =
    gc_sections-Reach 4 in_order (λ f x. (λ m. m, λ m. m)) objects table f_name false (1, 1)

abbrev seeded : GcTraversal
seeded = seed_roots (peony.Gc.Traversal.new objects table) f_name false

rounds-ends_example : (rounds 4 in_order (todo seeded) seeded).frontier ≡ []
rounds-ends_example = rounds-ends 4 in_order (todo seeded) seeded (omega arith)

target-new_iff_example : (target (peony.Gc.Targets.new objects table) 0 1 ≡ some (1, 1)) ↔ (
    (obj : InputObject) × (get_elem? objects 0 ≡ some obj)
    × LastStandsFor table 0 1 obj.symbols (1, 1)
    × (◌≢◌ {A = ℕ × ℕ} (1, 1) (2 ^ 32 - 1, 2 ^ 32 - 1)))
target-new_iff_example = target-new_iff table 0 1 objects (1, 1)

unpack-pack_example : (pack (1, 7) >>= unpack) ≡ some (1, 7)
unpack-pack_example = unpack-pack (1, 7)

abbrev fresh : LiveSections
fresh = peony.Gc.Live.new objects

contains-insert_example :
    contains (insert fresh (0, 1)).1 (0, 1)
    ≡ (if in_range fresh (0, 1) then true else contains fresh (0, 1))
contains-insert_example = contains-insert fresh (0, 1) (0, 1)
