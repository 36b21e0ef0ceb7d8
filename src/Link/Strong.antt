-- ===== src/Link/Strong.antt =====
-- Which definition each name is bound to after `Resolver::resolve` (peony/src/main.rs) has taken in
-- all objects.
use peony.Base.{
  ℕ, zero, suc, ◌+◌, ◌≤◌, ◌<◌, ◌^◌, ◌≡◌, refl, sym, ◌∙◌, ◌≢◌, inl, inr, true, false, List, [], ◌∷◌,
  Option, none, some, arith, Bool-cases, length, get_elem?, subst,
}
use peony.Object.{InputObject, InputSymbol, Binding, local}
use peony.Symbols.Resolution.{ok}
use peony.Symbols.Table.{new, add_object, contains, is_empty, is_local, is_skipped}
use peony.Symbols.Merged.{Ensures-ok}
use peony.Symbols.Bound.{IsStrong, BoundAt, NoLocal}
use peony.Symbols.Resolve.{process-binds, new-NoLocal, Kept}
use peony.Link.Resolver.{Resolver, start, contains_pair, object_groups, resolve_objects}
use peony.Link.Comdat.{Covered, Extends, exclude_groups-Covered}
use peony.Link.Rounds.{
  round-NoLocal, round-paths, registered, own_id, own_groups, Round, resolve_object-Round,
  objects_step, lookup-registered, objects-Extends, objects-Kept,
}

-- The symbol takes part in the resolution: it has a binding and a name for the global table, and its
-- section is not among the discarded ones.
pub record IsVisible (obj_id : ℕ) (input : InputSymbol) (excluded : List (ℕ × ℕ)) : Type 0 where
  pub bound : input.binding ≢ local
  pub named : is_empty input.name ≡ false
  pub present : (m : ℕ) → input.section ≡ some m → contains_pair excluded obj_id m ≡ false

visible-skipped :
    (r : Resolver) (obj : InputObject) (input : InputSymbol) (excluded : List (ℕ × ℕ))
    → Extends (own_groups r obj).excluded excluded
    → IsVisible (own_id r obj) input excluded
    → is_skipped (own_groups r obj).obj_excluded input ≡ false
unfolding is_skipped is_local
visible-skipped r obj input excluded x v = go input.binding input.section refl refl
  where
    covered : Covered (own_id r obj) (own_groups r obj)
    covered =
        unfold object_groups in
        exclude_groups-Covered (own_id r obj) obj.comdat_groups _
          (record { covered = λ m h. unfold contains in cc })

    section_free :
        (m : ℕ) → input.section ≡ some m → contains (own_groups r obj).obj_excluded m ≡ false
    section_free m at = elim (Bool-cases (contains (own_groups r obj).obj_excluded m)) [
      | inl h ↦ cc (v.present m at, x (own_id r obj) m (covered.covered m h))
      | inr h ↦ h
    ]

    go :
        (b : Binding) (s : Option ℕ)
        → input.binding ≡ b
        → input.section ≡ s
        → is_skipped (own_groups r obj).obj_excluded input ≡ false
    go b none eb es = ground (arith, v.bound, v.named)
    go b (some m) eb es = ground (arith, v.bound, v.named, section_free m es)

own_id_lem :
    (r : Resolver) (obj : InputObject)
    → length r.symbols.object_paths < 2 ^ 32
    → own_id r obj ≡ length r.symbols.object_paths + 0
unfolding add_object
own_id_lem r obj h = omega arith

-- The round of the object that holds the definition.
resolve_object-BoundAt :
    (r : Resolver) (obj : InputObject) (objs : List InputObject) (r1 r' : Resolver) (j : ℕ)
    (input : InputSymbol)
    → Round r obj r1
    → resolve_objects r1 objs ≡ ok r'
    → NoLocal r.symbols
    → get_elem? obj.symbols j ≡ some input
    → IsVisible (own_id r obj) input r'.excluded
    → IsStrong input
    → BoundAt input.name (own_id r obj) input r'.symbols
resolve_object-BoundAt r obj objs r1 r' j input round rest n here v strong =
    let skipped =
      visible-skipped r obj input r'.excluded
        (λ o m h.
          objects-Extends r1 objs r' rest o m
            (subst (λ ps. contains_pair ps o m ≡ true) (sym round.pairs) h))
        v in
    objects-Kept r1 objs r' (own_id r obj) input rest (
      Ensures-ok (Kept (own_id r obj) input) _ r1.symbols round.processed (
        process-binds (own_id r obj) input strong (registered r obj) (own_groups r obj).obj_excluded
          obj.symbols j (λ name q found. n name q (sym (lookup-registered r obj name) ∙ found))
          skipped here))

objects-binds :
    (r : Resolver) (objs : List InputObject) (r' : Resolver) (i j : ℕ) (obj : InputObject)
    (input : InputSymbol)
    → resolve_objects r objs ≡ ok r'
    → NoLocal r.symbols
    → length r.symbols.object_paths + length objs ≤ 2 ^ 32
    → get_elem? objs i ≡ some obj
    → get_elem? obj.symbols j ≡ some input
    → IsVisible (length r.symbols.object_paths + i) input r'.excluded
    → IsStrong input
    → BoundAt input.name (length r.symbols.object_paths + i) input r'.symbols
objects-binds r [] r' i j obj input e n room at here v strong = cc
objects-binds r (first ∷ objs) r' zero j obj input e n room at here v strong =
    let (r1, one, rest) = objects_step r first objs r' e in
    let same : first ≡ obj = ground arith in
    let own = own_id_lem r first (omega arith) in
    subst (λ k. BoundAt input.name k input r'.symbols) own
      (resolve_object-BoundAt r first objs r1 r' j input (resolve_object-Round r first r1 one) rest
        n (subst (λ o. get_elem? o.symbols j ≡ some input) (sym same) here)
        (subst (λ k. IsVisible k input r'.excluded) (sym own) v) strong)
objects-binds r (first ∷ objs) r' (suc i) j obj input e n room at here v strong =
    let (r1, one, rest) = objects_step r first objs r' e in
    let round = resolve_object-Round r first r1 one in
    let count = round-paths r first r1 round in
    let there : length r.symbols.object_paths + suc i ≡ length r1.symbols.object_paths + i =
      omega arith in
    rw there (
      objects-binds r1 objs r' i j obj input rest (round-NoLocal r first r1 round n) (omega arith)
        at here (rw there at v) strong)

start-paths : length start.symbols.object_paths ≡ 0
unfolding start new
start-paths = refl

start-NoLocal : NoLocal start.symbols
unfolding start
start-NoLocal = new-NoLocal

-- In a link whose symbol resolution succeeds, with at most 2 ^ 32 objects: a strong definition of
-- object `i` whose name is not empty and whose section is not discarded with a COMDAT group is the one
-- that its name is bound to. The entry holds its object, section, value and size, is strong and has
-- no pending common block, wherever the definition stands and whatever other symbols of the name
-- the objects have.
pub resolve_objects-strong :
    (objs : List InputObject) (r : Resolver) (i j : ℕ) (obj : InputObject) (input : InputSymbol)
    → resolve_objects start objs ≡ ok r
    → length objs ≤ 2 ^ 32
    → get_elem? objs i ≡ some obj
    → get_elem? obj.symbols j ≡ some input
    → IsVisible i input r.excluded
    → IsStrong input
    → BoundAt input.name i input r.symbols
resolve_objects-strong objs r i j obj input e room at here v strong =
    let zero_paths = start-paths in
    let own : length start.symbols.object_paths + i ≡ i = omega arith in
    subst (λ k. BoundAt input.name k input r.symbols) own
      (objects-binds start objs r i j obj input e start-NoLocal (omega arith) at here
        (subst (λ k. IsVisible k input r.excluded) (sym own) v) strong)
