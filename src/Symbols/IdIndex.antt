-- ===== src/Symbols/IdIndex.antt =====
-- peony-symbols/src/lib.rs, `build_id_index`: the view by id agrees with the lookup by name.
use peony.Base.{
  ℕ, zero, suc, ◌<◌, ◌≡◌, refl, sym, ◌∙◌, ap, ◌≢◌, List, [], ◌∷◌, Option, none, some, arith, lt→ltb,
  length, length-set, get_elem?, get_elem?-set_self, get_elem?-set_ne, replicate, length-replicate,
  lt-length_of_get, some-injective,
}
use peony.Base.Bytes.{Bytes}
use peony.Symbols.Resolution.{no_id, SymbolResolution}
use peony.Symbols.Table.{SymbolTable, lookup}
use peony.Symbols.Updates.{index_name, index_names, build_id_index}
use peony.Symbols.Ids.{IsIndexed}

length-index_name :
    (t : SymbolTable) (out : List (Option SymbolResolution)) (name : Bytes)
    → length (index_name t out name) ≡ length out
unfolding index_name
length-index_name t out name = go (lookup t name) refl
  where
    go :
        (o : Option SymbolResolution)
        → lookup t name ≡ o
        → length (index_name t out name) ≡ length out
    go none e = rw (e, index_name)
    go (some r) e = ground (arith, length-set out r.id (some r))

module _ (t : SymbolTable) (v : IsIndexed t) (name : Bytes) (r : SymbolResolution)
    (found : lookup t name ≡ some r) (has_id : r.id ≢ no_id) where
  -- Whatever name has the id has the resolution.
  same_resolution :
      (other : Bytes) (q : SymbolResolution) → lookup t other ≡ some q → q.id ≡ r.id → q ≡ r
  same_resolution other q e same =
      let equal : other ≡ name = some-injective other name (
        sym (v other q e (λ z. has_id (sym same ∙ z)))
        ∙ ap (get_elem? t.names) same
        ∙ v name r found has_id) in
      some-injective q r (sym e ∙ ap (lookup t) equal ∙ found)

  index_name_keeps :
      (out : List (Option SymbolResolution)) (other : Bytes)
      → get_elem? out r.id ≡ some (some r)
      → get_elem? (index_name t out other) r.id ≡ some (some r)
  unfolding index_name
  index_name_keeps out other h = go (lookup t other) refl
    where
      go :
          (o : Option SymbolResolution)
          → lookup t other ≡ o
          → get_elem? (index_name t out other) r.id ≡ some (some r)
      go none e = rw (e, index_name) h
      go (some q) e = ground (
        arith,
        same_resolution other q e,
        get_elem?-set_self out q.id (some q),
        get_elem?-set_ne out q.id r.id (some q),
        h,
      )

  index_name_sets :
      (out : List (Option SymbolResolution))
      → r.id < length out
      → get_elem? (index_name t out name) r.id ≡ some (some r)
  unfolding index_name
  index_name_sets out h =
      rw (found, index_name)
        (rw (lt→ltb r.id (length out) h) (get_elem?-set_self out r.id (some r) h))

  index_names_keep :
      (names : List Bytes) (out : List (Option SymbolResolution))
      → get_elem? out r.id ≡ some (some r)
      → get_elem? (index_names t out names) r.id ≡ some (some r)
  unfolding index_names
  index_names_keep [] out h = h
  index_names_keep (other ∷ names) out h =
      index_names_keep names (index_name t out other) (index_name_keeps out other h)

  index_names_set :
      (names : List Bytes) (out : List (Option SymbolResolution)) (k : ℕ)
      → r.id < length out
      → get_elem? names k ≡ some name
      → get_elem? (index_names t out names) r.id ≡ some (some r)
  unfolding index_names
  index_names_set [] out k h at = cc
  index_names_set (other ∷ names) out zero h at =
      let same : other ≡ name = ground arith in
      rw same (index_names_keep names (index_name t out name) (index_name_sets out h))
  index_names_set (other ∷ names) out (suc k) h at =
      index_names_set names (index_name t out other) k
        (omega (arith, length-index_name t out other)) at

  -- In a table whose ids and names are in step (see `IsIndexed`), the slot of an id that a resolution
  -- has holds that resolution.
  pub build_id_index-lookup : get_elem? (build_id_index t) r.id ≡ some (some r)
  unfolding build_id_index
  build_id_index-lookup =
      let here = v name r found has_id in
      index_names_set t.names (replicate (length t.names) none) r.id
        (omega (
          arith,
          length-replicate {A = Option SymbolResolution} (length t.names) none,
          lt-length_of_get t.names r.id here,
        ))
        here
