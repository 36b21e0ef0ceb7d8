-- ===== src/Gc/Traversal/Marked.antt =====
-- The set that the traversal (peony-layout/src/gc.rs) returns is the set of the keys that are reached.
use peony.Base.{
  ℕ, zero, suc, ◌≡◌, refl, sym, ◌∙◌, subst, ◌↔◌, inl, inr, Bool, true, true≢false, List, [], ◌∷◌,
  arith, ◌==◌, Bool-cases, length, Mem,
}
use peony.Base.Bytes.{Bytes}
use peony.Gc.Live.{LiveSections, contains}
use peony.Gc.Live.Start.{in_range-new, contains-new}
use peony.Gc.Targets.{GcTargetMaps}
use peony.Gc.Targets
use peony.Gc.Traversal.{
  GcWorkItem, GcTraversal, seed_roots, collect_roots, rounds, run, gc_sections_rooted_with_stats,
  new, todo, parallelism,
}
use peony.Gc.Traversal.Ends.{round, rounds-ends}
use peony.Gc.Traversal.Kept.{Inv}
use peony.Gc.Traversal.Marks.{Good, seed-Good, level-Good, drain-Good}
use peony.Gc.Traversal.Spec.{Reach, start, edge, starts_of}
use peony.Object.{InputObject}
use peony.Symbols.Table.{SymbolTable}

module _ (max_threads : ℕ) (reached : List GcWorkItem → List GcWorkItem) where
  module _ (objects : List InputObject) (targets : GcTargetMaps) (starts : List (ℕ × ℕ))
      (all : (f : List GcWorkItem) (x : GcWorkItem) → Mem x (reached f) ↔ Mem x f) where
    abbrev IsGood : GcTraversal → Type 0
    IsGood = Good objects targets starts []

    round-IsGood : (t : GcTraversal) → IsGood t → IsGood (round max_threads reached t)
    round-IsGood t g = elim (Bool-cases (parallelism max_threads (length t.frontier) == 1)) [
      | inl h ↦ rw h (drain-Good objects targets starts (todo t) t g)
      | inr h ↦ rw h (level-Good objects targets starts reached all t g)
    ]

    rounds-IsGood :
        (fuel : ℕ) (t : GcTraversal) → IsGood t → IsGood (rounds max_threads reached fuel t)
    unfolding rounds
    rounds-IsGood zero t g = g
    rounds-IsGood (suc fuel) t g = go t.frontier refl (rounds-IsGood fuel)
      where
        go :
            (f : List GcWorkItem)
            → t.frontier ≡ f
            → ((t' : GcTraversal) → IsGood t' → IsGood (rounds max_threads reached fuel t'))
            → IsGood (rounds max_threads reached (suc fuel) t)
        go [] e rest = rw (e, rounds) g
        go (item ∷ items) e rest = rw (e, rounds) (rest _ (round-IsGood t g))

  -- With nothing left to do, the set holds all keys that are reached.
  closed-Reach :
      (objects : List InputObject) (targets : GcTargetMaps) (starts : List (ℕ × ℕ))
      (live : LiveSections)
      → Inv objects targets starts [] live []
      → (k : ℕ × ℕ) → Reach objects targets starts k
      → contains live k ≡ true
  closed-Reach objects targets starts live i k (start m f) = elim (i.begun k m f) [
    | inl c ↦ c
    | inr m ↦ absurd m
  ]
  closed-Reach objects targets starts live i j (edge {k} {item = item} r e m f) =
      elim (i.closed k item (closed-Reach objects targets starts live i k r) e) [
        | inl m ↦ absurd m
        | inr done ↦ elim (done j m f) [ inl c ↦ c | inr m ↦ absurd m ]
      ]

new-Good :
    (objects : List InputObject) (symbols : SymbolTable) (starts : List (ℕ × ℕ))
    → Good objects (peony.Gc.Targets.new objects symbols) starts starts (new objects symbols)
unfolding new
new-Good objects symbols starts = record {
  same_objects = refl;
  same_targets = refl;
  inv = record {
    range = in_range-new objects;
    sound = λ k c. absurd (true≢false (sym c ∙ contains-new objects k));
    due = λ k m f. start m f;
    queued = λ item m. absurd m;
    begun = λ k m f. inr m;
    closed = λ k item c e. absurd (true≢false (sym c ∙ contains-new objects k));
  };
}

module _ (max_threads : ℕ) (reached : List GcWorkItem → List GcWorkItem)
    (all : (f : List GcWorkItem) (x : GcWorkItem) → Mem x (reached f) ↔ Mem x f)
    (objects : List InputObject) (symbols : SymbolTable) (entry_symbol : Bytes)
    (export_roots : Bool) where
  -- The traversal after its last round.
  abbrev last : GcTraversal
  last =
      let t = seed_roots (new objects symbols) entry_symbol export_roots in
      rounds max_threads reached (todo t) t

  -- The keys that the roots are the sections of.
  abbrev starts : List (ℕ × ℕ)
  starts = starts_of objects (collect_roots objects symbols entry_symbol export_roots)

  last-Good : Good objects (peony.Gc.Targets.new objects symbols) starts [] last
  unfolding seed_roots new peony.Gc.Targets.new
  last-Good =
      rounds-IsGood max_threads reached objects _ starts all _ _
        (seed-Good objects _ starts _ (new-Good objects symbols starts))

  -- The set that the garbage collection returns holds exactly the keys that are reached, by relocations, from
  -- the sections of the roots, for any number of threads, if the threads reach the items of a level in an order
  -- that leaves none out and adds none.
  pub gc_sections-Reach :
      (k : ℕ × ℕ)
      → (contains
            (gc_sections_rooted_with_stats max_threads reached objects symbols entry_symbol
              export_roots).0
            k
          ≡ true)
        ↔ Reach objects (peony.Gc.Targets.new objects symbols) starts k
  unfolding gc_sections_rooted_with_stats run
  gc_sections-Reach k = (
    λ c. last-Good.inv.sound k c,
    closed-Reach max_threads reached objects _ starts _
        (subst (Inv objects _ starts [] last.live)
          (rounds-ends max_threads reached _ _ (omega arith)) last-Good.inv)
        k,
  )
