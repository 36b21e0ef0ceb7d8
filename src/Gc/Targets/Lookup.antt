-- ===== src/Gc/Targets/Lookup.antt =====
-- The target maps (peony-layout/src/gc/targets.rs) against the symbols that they are made from.
use peony.Base.{
  ℕ, zero, suc, ◌+◌, ◌-◌, ◌*◌, ◌/◌, ◌%◌, ◌^◌, ◌≤◌, ◌<◌, ◌≡◌, refl, sym, ◌∙◌, ap, inl, inr, List, [],
  ◌∷◌, Option, none, some, ◌>>=◌, arith, ◌==◌, if◌then◌else◌, length, get_elem?, get_elem?-some,
  get_elem?-set_if, length-set, length-replicate, set, replicate, max, leb, Bool-cases,
  Option-cases, ltb, not, ◌&&◌,
}
use peony.Base.Map.{get, insert, get-insert, nat_eq}
use peony.Object.{InputSymbol, InputObject}
use peony.Symbols.Table.{SymbolTable}
use peony.Gc.Targets.{
  dense, sparse, empty, no_target, pack, unpack, resolve_symbol_target, max_symbol_index,
  fill_dense, fill_sparse, dense_limit, build_object_targets, build_maps, new, target_of, target,
}

-- `unpack` gives back what `pack` made of a key whose halves are below 2^32, but for the key of two
-- halves 2^32 - 1, whose packed form is the marker of a missing target; larger halves do not pack.
pub unpack-pack :
    (k : ℕ × ℕ)
    → (pack k >>= unpack) ≡ (
        if ltb k.0 (2 ^ 32) && ltb k.1 (2 ^ 32) && not ((k.0 == 2 ^ 32 - 1) && (k.1 == 2 ^ 32 - 1))
        then some k
        else none)
unfolding pack unpack
unpack-pack (o, s) = elim (Bool-cases (ltb o (2 ^ 32) && ltb s (2 ^ 32))) [
  | inl h ↦
      let small : (o < 2 ^ 32) × (s < 2 ^ 32) = (ground (arith, h), ground (arith, h)) in
      let high : (o * 2 ^ 32 + s) / 2 ^ 32 ≡ o = omega arith in
      let low : (o * 2 ^ 32 + s) % 2 ^ 32 ≡ s = omega arith in rw (h, high, low) (ground arith)
  | inr h ↦ rw h (ground (arith, h))
]

module _ (object_id : ℕ) (symbols : SymbolTable) where
  -- The packed target of the last symbol with the index that stands for a section.
  unfoldable pub last_target : List InputSymbol → ℕ → Option ℕ
  last_target [] i = none
  last_target (sy ∷ syms) i = elim (last_target syms i) [
    | some t ↦ some t
    | none ↦ if sy.index == i then resolve_symbol_target object_id sy symbols else none
  ]

  abbrev or_else : Option ℕ → Option ℕ → Option ℕ
  or_else none d = d
  or_else (some t) d = some t

  -- The symbols' indices are below the length.
  abbrev Below : ℕ → List InputSymbol → Type 0
  Below n [] = Unit
  Below n (sy ∷ syms) = (sy.index < n) × Below n syms

  fill_dense_lem :
      (targets : List ℕ) (syms : List InputSymbol) (i : ℕ)
      → Below (length targets) syms
      → get_elem? (fill_dense object_id symbols targets syms) i
        ≡ or_else (last_target syms i) (get_elem? targets i)
  unfolding fill_dense last_target
  fill_dense_lem targets [] i b = refl
  fill_dense_lem targets (sy ∷ syms) i b =
      go (resolve_symbol_target object_id sy symbols) refl
        (λ targets' b'. fill_dense_lem targets' syms i b')
    where
      go :
          (o : Option ℕ)
          → resolve_symbol_target object_id sy symbols ≡ o
          → ((targets' : List ℕ)
              → Below (length targets') syms
              → get_elem? (fill_dense object_id symbols targets' syms) i
                ≡ or_else (last_target syms i) (get_elem? targets' i))
          → get_elem? (fill_dense object_id symbols targets (sy ∷ syms)) i
            ≡ or_else (last_target (sy ∷ syms) i) (get_elem? targets i)
      go none e rest = rw (e, fill_dense, rest targets b.1) (ground arith)
      go (some t) e rest =
          let (old, there) = get_elem?-some targets sy.index b.0 in
          let more = rest (set targets sy.index t) (rw (length-set targets sy.index t) b.1) in
          rw (e, fill_dense, more, get_elem?-set_if targets sy.index i t there) (ground arith)

  fill_sparse_lem :
      (targets : List (ℕ × ℕ)) (syms : List InputSymbol) (i : ℕ)
      → get i (fill_sparse object_id symbols targets syms)
        ≡ or_else (last_target syms i) (get i targets)
  unfolding fill_sparse last_target
  fill_sparse_lem targets [] i = refl
  fill_sparse_lem targets (sy ∷ syms) i =
      go (resolve_symbol_target object_id sy symbols) refl
        (λ targets'. fill_sparse_lem targets' syms i)
    where
      go :
          (o : Option ℕ)
          → resolve_symbol_target object_id sy symbols ≡ o
          → ((targets' : List (ℕ × ℕ))
              → get i (fill_sparse object_id symbols targets' syms)
                ≡ or_else (last_target syms i) (get i targets'))
          → get i (fill_sparse object_id symbols targets (sy ∷ syms))
            ≡ or_else (last_target (sy ∷ syms) i) (get i targets)
      go none e rest = rw (e, rest targets, fill_sparse) (ground (arith, e))
      go (some t) e rest =
          rw (e, fill_sparse, rest (insert sy.index t targets), get-insert sy.index i t targets)
            (ground (arith, e))

  Below-suc : (m n : ℕ) (syms : List InputSymbol) → m ≤ n → Below m syms → Below n syms
  Below-suc m n [] h b = tt
  Below-suc m n (sy ∷ syms) h b = (omega arith, Below-suc m n syms h b.1)

  max_symbol_index-none : (syms : List InputSymbol) → max_symbol_index syms ≡ none → syms ≡ []
  unfolding max_symbol_index
  max_symbol_index-none [] e = refl
  max_symbol_index-none (sy ∷ syms) e = elim (Option-cases (max_symbol_index syms)) [
    | inl k ↦ absurd (ground (arith, e, k))
    | inr (x, k) ↦ absurd (ground (arith, e, k))
  ]

  max_symbol_index-Below :
      (syms : List InputSymbol) (m : ℕ) → max_symbol_index syms ≡ some m → Below (m + 1) syms
  unfolding max_symbol_index
  max_symbol_index-Below [] m e = tt
  max_symbol_index-Below (sy ∷ syms) m e =
      go (max_symbol_index syms) refl (λ x. max_symbol_index-Below syms x)
    where
      go :
          (o : Option ℕ)
          → max_symbol_index syms ≡ o
          → ((x : ℕ) → max_symbol_index syms ≡ some x → Below (x + 1) syms)
          → Below (m + 1) (sy ∷ syms)
      go none k rest =
          let last : syms ≡ [] = max_symbol_index-none syms k in
          let at : sy.index ≡ m = ground (arith, e, k) in (omega arith, rw last tt)
      go (some x) k rest =
          let at_most : max sy.index x ≡ m = ground (arith, e, k) in
          (
            ground (arith, at_most),
            Below-suc (x + 1) (m + 1) syms (ground (arith, at_most)) (rest x k),
          )

  blank : (n i : ℕ) → (get_elem? (replicate n no_target) i >>= unpack) ≡ none
  unfolding unpack
  blank zero i = refl
  blank (suc n) zero = refl
  blank (suc n) (suc i) = blank n i

  over_blank : (o d : Option ℕ) → (d >>= unpack) ≡ none → (or_else o d >>= unpack) ≡ (o >>= unpack)
  over_blank none d e = e
  over_blank (some t) d e = refl

  build_none :
      (obj : InputObject)
      → max_symbol_index obj.symbols ≡ none
      → build_object_targets object_id obj symbols ≡ empty
  unfolding build_object_targets
  build_none obj k = rw (k, build_object_targets) refl

  build_some :
      (obj : InputObject) (m : ℕ)
      → max_symbol_index obj.symbols ≡ some m
      → build_object_targets object_id obj symbols ≡ (
          if leb m (dense_limit obj.symbols)
          then dense (fill_dense object_id symbols (replicate (m + 1) no_target) obj.symbols)
          else sparse (fill_sparse object_id symbols [] obj.symbols))
  unfolding build_object_targets
  build_some obj m k = rw (k, build_object_targets) refl

  -- Whichever form an object's targets have, an index reads the last symbol of the object that has
  -- the index and stands for a section, and no other index reads anything.
  target_of-build_object_targets :
      (obj : InputObject) (i : ℕ)
      → target_of (build_object_targets object_id obj symbols) i
        ≡ (last_target obj.symbols i >>= unpack)
  unfolding target_of last_target get
  target_of-build_object_targets obj i = elim (Option-cases (max_symbol_index obj.symbols)) [
    | inl k ↦
        rw (build_none obj k)
          (sym (ap (λ syms. last_target syms i >>= unpack) (max_symbol_index-none obj.symbols k)))
    | inr (m, k) ↦
        let syms = obj.symbols in
        let start = replicate (m + 1) no_target in
        let below : Below (length start) syms =
          rw (length-replicate (m + 1) no_target) (max_symbol_index-Below syms m k) in
        let full =
          ap (λ o. o >>= unpack) (fill_dense_lem start syms i below)
          ∙ over_blank (last_target syms i) (get_elem? start i) (blank (m + 1) i) in
        let thin =
          ap (λ o. o >>= unpack) (fill_sparse_lem [] syms i)
          ∙ over_blank (last_target syms i) none refl in
        elim (Bool-cases (leb m (dense_limit syms))) [
          | inl b ↦ rw (build_some obj m k, b) full
          | inr b ↦ rw (build_some obj m k, b) thin
        ]
  ]

module _ (symbols : SymbolTable) (i : ℕ) where
  build_maps_lem :
      (n : ℕ) (objects : List InputObject) (o k : ℕ)
      → k ≡ n + o
      → (get_elem? (build_maps n objects symbols) o >>= λ t. target_of t i)
        ≡ (get_elem? objects o >>= λ obj. last_target k symbols obj.symbols i >>= unpack)
  unfolding build_maps
  build_maps_lem n [] o k e = refl
  build_maps_lem n (obj ∷ objs) zero k e =
      let same : k ≡ n = omega arith in rw same (target_of-build_object_targets n symbols obj i)
  build_maps_lem n (obj ∷ objs) (suc o) k e = build_maps_lem (n + 1) objs o k (omega arith)

  -- A relocation's symbol stands for the section of the last symbol of its object that has the index
  -- and stands for a section that packs: for a local symbol its own section, for another the one that the
  -- symbol table resolves its name to. An object that there is not, and an index that no symbol has,
  -- stand for nothing, and neither does the key that packs to the marker. The form chosen for the
  -- object's targets makes no difference.
  pub target-new :
      (objects : List InputObject) (o : ℕ)
      → target (new objects symbols) o i
        ≡ (get_elem? objects o >>= λ obj. last_target o symbols obj.symbols i >>= unpack)
  unfolding target new
  target-new objects o = build_maps_lem 0 objects o o (omega arith)
