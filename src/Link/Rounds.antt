-- ===== src/Link/Rounds.antt =====
-- What one round of the driver (peony/src/main.rs, `Resolver`) keeps of the rounds before it.
use peony.Base.{
  ℕ, ◌+◌, ◌≡◌, refl, sym, ◌∙◌, ap, true, List, [], ◌∷◌, arith, length, length-append, subst,
}
use peony.Base.Bytes.{Bytes}
use peony.Object.{InputObject, InputSymbol}
use peony.Symbols.Resolution.{Outcome, ok, err, panicked}
use peony.Symbols.Table.{SymbolTable, lookup, add_object, process_symbols, process_object_excluding}
use peony.Symbols.Merged.{Ensures-ok}
use peony.Symbols.Bound.{NoLocal}
use peony.Symbols.Resolve.{process-NoLocal, process-keeps, process-object_paths, Kept}
use peony.Link.Resolver.{
  Resolver, contains_pair, Groups, object_groups, resolve_object, resolve_objects,
}
use peony.Link.Comdat.{Extends, exclude_groups-Extends}

-- What one object's round does to the resolver.
abbrev pub registered : Resolver → InputObject → SymbolTable
registered r obj = (add_object r.symbols obj.path).1

abbrev pub own_id : Resolver → InputObject → ℕ
own_id r obj = (add_object r.symbols obj.path).0

abbrev pub own_groups : Resolver → InputObject → Groups
own_groups r obj = object_groups r (own_id r obj) obj

pub record Round (r : Resolver) (obj : InputObject) (r' : Resolver) : Type 0 where
  pub processed :
      process_symbols (registered r obj) (own_id r obj) (own_groups r obj).obj_excluded obj.symbols
      ≡ ok r'.symbols
  pub pairs : r'.excluded ≡ (own_groups r obj).excluded

pub resolve_object-Round :
    (r : Resolver) (obj : InputObject) (r' : Resolver)
    → resolve_object r obj ≡ ok r'
    → Round r obj r'
unfolding resolve_object process_object_excluding
resolve_object-Round r obj r' e =
    go
      (process_symbols (registered r obj) (own_id r obj) (own_groups r obj).obj_excluded
        obj.symbols)
      refl
  where
    go :
        (o : Outcome SymbolTable)
        → process_symbols
            (registered r obj)
            (own_id r obj)
            (own_groups r obj).obj_excluded
            obj.symbols
          ≡ o
        → Round r obj r'
    go (ok t) k = record { processed = ground arith; pairs = ground arith }
    go (err x) k = absurd (ground arith)
    go panicked k = absurd (ground arith)

-- One round of the loop over the objects.
pub objects_step :
    (r : Resolver) (obj : InputObject) (objs : List InputObject) (r' : Resolver)
    → resolve_objects r (obj ∷ objs) ≡ ok r'
    → (r1 : Resolver) × (resolve_object r obj ≡ ok r1) × (resolve_objects r1 objs ≡ ok r')
unfolding resolve_objects
objects_step r obj objs r' e = go (resolve_object r obj) refl
  where
    go :
        (o : Outcome Resolver)
        → resolve_object r obj ≡ o
        → (r1 : Resolver) × (resolve_object r obj ≡ ok r1) × (resolve_objects r1 objs ≡ ok r')
    go (ok r1) k = (r1, k, ground arith)
    go (err x) k = absurd (ground arith)
    go panicked k = absurd (ground arith)

pub lookup-registered :
    (r : Resolver) (obj : InputObject) (name : Bytes)
    → lookup (registered r obj) name ≡ lookup r.symbols name
unfolding lookup add_object
lookup-registered r obj name = refl

module _ (r : Resolver) (obj : InputObject) (r1 : Resolver) (round : Round r obj r1) where
  pub round-NoLocal : NoLocal r.symbols → NoLocal r1.symbols
  round-NoLocal v = Ensures-ok NoLocal _ r1.symbols round.processed (
      process-NoLocal (registered r obj) (own_id r obj) (own_groups r obj).obj_excluded obj.symbols
        (λ name q found. v name q (sym (lookup-registered r obj name) ∙ found)))

  round-Kept :
      (owner : ℕ) (input : InputSymbol) → Kept owner input r.symbols → Kept owner input r1.symbols
  round-Kept owner input (q, found, b) =
      Ensures-ok (Kept owner input) _ r1.symbols round.processed (
        process-keeps owner input (registered r obj) (own_id r obj) (own_groups r obj).obj_excluded
          obj.symbols (q, lookup-registered r obj input.name ∙ found, b))

  pub round-paths : length r1.symbols.object_paths ≡ length r.symbols.object_paths + 1
  unfolding add_object
  round-paths =
      let same : r1.symbols.object_paths ≡ (registered r obj).object_paths =
        Ensures-ok (λ t'. t'.object_paths ≡ (registered r obj).object_paths) _ r1.symbols
          round.processed
          (process-object_paths (registered r obj) (registered r obj) (own_id r obj)
            (own_groups r obj).obj_excluded obj.symbols refl) in
      ap length same ∙ length-append r.symbols.object_paths (obj.path ∷ [])

  round-Extends : Extends r.excluded r1.excluded
  round-Extends o m h =
      rw round.pairs
        (unfold object_groups in exclude_groups-Extends (own_id r obj) obj.comdat_groups _ o m h)

pub objects-Extends :
    (r : Resolver) (objs : List InputObject) (r' : Resolver)
    → resolve_objects r objs ≡ ok r'
    → Extends r.excluded r'.excluded
unfolding resolve_objects
objects-Extends r [] r' e o m h =
    let same : r ≡ r' = ground arith in subst (λ q. contains_pair q.excluded o m ≡ true) same h
objects-Extends r (obj ∷ objs) r' e o m h =
    let (r1, first, rest) = objects_step r obj objs r' e in
    objects-Extends r1 objs r' rest o m
      (round-Extends r obj r1 (resolve_object-Round r obj r1 first) o m h)

pub objects-Kept :
    (r : Resolver) (objs : List InputObject) (r' : Resolver) (owner : ℕ) (input : InputSymbol)
    → resolve_objects r objs ≡ ok r'
    → Kept owner input r.symbols
    → Kept owner input r'.symbols
unfolding resolve_objects
objects-Kept r [] r' owner input e k =
    let same : r ≡ r' = ground arith in subst (λ q. Kept owner input q.symbols) same k
objects-Kept r (obj ∷ objs) r' owner input e k =
    let (r1, first, rest) = objects_step r obj objs r' e in
    objects-Kept r1 objs r' owner input rest
      (round-Kept r obj r1 (resolve_object-Round r obj r1 first) owner input k)
