-- ===== src/Icf/Significant.antt =====
-- No symbol of a folded section has its address taken by name (peony-layout/src/icf.rs).
use peony.Base.{
  ℕ, ◌+◌, ◌≡◌, refl, sym, ◌∙◌, ap, subst, inl, inr, true, false, true≢false, List, [], ◌∷◌, Option,
  none, some, ◌>>=◌, arith, Bool-cases, Option-cases, get_elem?, length, Mem,
}
use peony.Base.Bytes.{Bytes, bytes_eq, bytes_eq_iff}
use peony.Base.Map.{bytes_key, pair_eq, nat_eq, get}
use peony.Icf.Folds.{is_text, key_relocs, compute_fold_map}
use peony.Icf.Key.{FoldKey}
use peony.Icf.Folds.Sound.{Keyed, fold_key_for-Foldable, compute_fold_map-IsFold}
use peony.Icf.Taint.{
  has, reloc_takes_address, AddrTaint, no_taint, read_addrsig, find_addrsig, add_table,
  parse_addrsig, is_empty_name, taint_symbol, taint_one_reloc, taint_relocs, taint_sections,
  taint_objects, address_taint, is_address_significant, any_significant,
  defines_address_significant,
}
use peony.Object.{InputObject, InputSection, InputReloc, InputSymbol, symbol_pos}

-- The symbol of a relocation.
abbrev pub symbol_at : InputObject → ℕ → Option InputSymbol
symbol_at obj index = symbol_pos obj index >>= λ pos. get_elem? obj.symbols pos

module _ (name : Bytes) where
  abbrev IsTaken : AddrTaint → Type 0
  IsTaken t = has name t.by_name ≡ true

  taint_symbol-kept :
      (t : AddrTaint) (o : ℕ) (sy : InputSymbol) → IsTaken t → IsTaken (taint_symbol t o sy)
  unfolding taint_symbol has
  taint_symbol-kept t o sy h = elim (Bool-cases (is_empty_name sy.name)) [
    | inl e ↦ elim (Option-cases sy.section) [ inl f ↦ rw (e, f) h | inr (si, f) ↦ rw (e, f) h ]
    | inr e ↦ rw e (ground (arith, h))
  ]

  taint_symbol-IsTaken :
      (t : AddrTaint) (o : ℕ) (sy : InputSymbol)
      → sy.name ≡ name
      → is_empty_name name ≡ false
      → IsTaken (taint_symbol t o sy)
  unfolding taint_symbol has
  taint_symbol-IsTaken t o sy e n =
      let same : bytes_eq sy.name name ≡ true = (bytes_eq_iff sy.name name).1 e in
      let full : is_empty_name sy.name ≡ false = subst (λ x. is_empty_name x ≡ false) (sym e) n in
      rw (full, same) refl

  taint_one_reloc-kept :
      (t : AddrTaint) (obj : InputObject) (o : ℕ) (r : InputReloc)
      → IsTaken t
      → IsTaken (taint_one_reloc t obj o r)
  unfolding taint_one_reloc
  taint_one_reloc-kept t obj o r h = elim (Bool-cases (reloc_takes_address r.r_type)) [
    | inl a ↦ elim (Option-cases (symbol_at obj r.symbol)) [
      | inl f ↦ rw (a, f) h
      | inr (sy, f) ↦ rw (a, f) (taint_symbol-kept t o sy h)
    ]
    | inr a ↦ rw a h
  ]

  taint_one_reloc-IsTaken :
      (t : AddrTaint) (obj : InputObject) (o : ℕ) (r : InputReloc) (sy : InputSymbol)
      → reloc_takes_address r.r_type ≡ true
      → symbol_at obj r.symbol ≡ some sy
      → sy.name ≡ name
      → is_empty_name name ≡ false
      → IsTaken (taint_one_reloc t obj o r)
  unfolding taint_one_reloc
  taint_one_reloc-IsTaken t obj o r sy a f e n = rw (a, f) (taint_symbol-IsTaken t o sy e n)

  taint_relocs-kept :
      (obj : InputObject) (o : ℕ) (rs : List InputReloc) (t : AddrTaint)
      → IsTaken t
      → IsTaken (taint_relocs t obj o rs)
  unfolding taint_relocs
  taint_relocs-kept obj o [] t h = h
  taint_relocs-kept obj o (r ∷ rs) t h =
      taint_relocs-kept obj o rs (taint_one_reloc t obj o r) (taint_one_reloc-kept t obj o r h)

  taint_sections-kept :
      (obj : InputObject) (o : ℕ) (secs : List InputSection) (t : AddrTaint)
      → IsTaken t
      → IsTaken (taint_sections t obj o secs)
  unfolding taint_sections
  taint_sections-kept obj o [] t h = h
  taint_sections-kept obj o (sec ∷ secs) t h =
      taint_sections-kept obj o secs (taint_relocs t obj o sec.relocs)
        (taint_relocs-kept obj o sec.relocs t h)

  add_table-kept :
      (t : AddrTaint) (o : ℕ) (m : Option (List (ℕ × ℕ))) → IsTaken t → IsTaken (add_table t o m)
  add_table-kept t o none h = h
  add_table-kept t o (some syms) h = h

  parse_addrsig-kept :
      (t : AddrTaint) (obj : InputObject) (o : ℕ) → IsTaken t → IsTaken (parse_addrsig t obj o)
  unfolding parse_addrsig
  parse_addrsig-kept t obj o h =
      add_table-kept t o
        (find_addrsig obj.sections >>= λ sec. read_addrsig (length sec.bytes) obj o sec.bytes) h

  taint_objects-kept :
      (o : ℕ) (objs : List InputObject) (t : AddrTaint)
      → IsTaken t
      → IsTaken (taint_objects t o objs)
  unfolding taint_objects
  taint_objects-kept o [] t h = h
  taint_objects-kept o (obj ∷ objs) t h =
      taint_objects-kept (o + 1) objs _
        (parse_addrsig-kept _ obj o (taint_sections-kept obj o obj.sections t h))

  -- A relocation takes the address of a symbol with the name.
  pub record TakesAddress (obj : InputObject) (r : InputReloc) : Type 0 where
    pub symbol : InputSymbol
    pub taking : reloc_takes_address r.r_type ≡ true
    pub refers : symbol_at obj r.symbol ≡ some symbol
    pub named : symbol.name ≡ name

  module _ (full : is_empty_name name ≡ false) where
    taint_relocs-IsTaken :
        (obj : InputObject) (o : ℕ) (rs : List InputReloc) (t : AddrTaint) (r : InputReloc)
        → Mem r rs
        → TakesAddress obj r
        → IsTaken (taint_relocs t obj o rs)
    unfolding taint_relocs
    taint_relocs-IsTaken obj o [] t r m k = absurd m
    taint_relocs-IsTaken obj o (x ∷ rs) t r (inl e) k =
        taint_relocs-kept obj o rs (taint_one_reloc t obj o x) (
          subst (λ y. IsTaken (taint_one_reloc t obj o y)) e
            (taint_one_reloc-IsTaken t obj o r k.symbol k.taking k.refers k.named full))
    taint_relocs-IsTaken obj o (x ∷ rs) t r (inr m) k =
        taint_relocs-IsTaken obj o rs (taint_one_reloc t obj o x) r m k

    taint_sections-IsTaken :
        (obj : InputObject) (o : ℕ) (secs : List InputSection) (t : AddrTaint) (sec : InputSection)
        (r : InputReloc)
        → Mem sec secs
        → Mem r sec.relocs
        → TakesAddress obj r
        → IsTaken (taint_sections t obj o secs)
    unfolding taint_sections
    taint_sections-IsTaken obj o [] t sec r m n k = absurd m
    taint_sections-IsTaken obj o (x ∷ secs) t sec r (inl e) n k =
        taint_sections-kept obj o secs (taint_relocs t obj o x.relocs) (
          subst (λ y. IsTaken (taint_relocs t obj o y.relocs)) e
            (taint_relocs-IsTaken obj o sec.relocs t r n k))
    taint_sections-IsTaken obj o (x ∷ secs) t sec r (inr m) n k =
        taint_sections-IsTaken obj o secs (taint_relocs t obj o x.relocs) sec r m n k

    taint_objects-IsTaken :
        (o : ℕ) (objs : List InputObject) (t : AddrTaint) (obj : InputObject) (sec : InputSection)
        (r : InputReloc)
        → Mem obj objs
        → Mem sec obj.sections
        → Mem r sec.relocs
        → TakesAddress obj r
        → IsTaken (taint_objects t o objs)
    unfolding taint_objects
    taint_objects-IsTaken o [] t obj sec r l m n k = absurd l
    taint_objects-IsTaken o (x ∷ objs) t obj sec r (inl e) m n k =
        taint_objects-kept (o + 1) objs _ (
          subst (λ y. IsTaken (parse_addrsig (taint_sections t y o y.sections) y o)) e
            (parse_addrsig-kept _ obj o (taint_sections-IsTaken obj o obj.sections t sec r m n k)))
    taint_objects-IsTaken o (x ∷ objs) t obj sec r (inr l) m n k =
        taint_objects-IsTaken (o + 1) objs _ obj sec r l m n k

-- A section without an address-significant symbol has none whose name is taken.
any_significant-taken :
    (taint : AddrTaint) (o index pos : ℕ) (syms : List InputSymbol) (sy : InputSymbol)
    → Mem sy syms
    → sy.section ≡ some index
    → sy.is_undefined ≡ false
    → is_empty_name sy.name ≡ false
    → has sy.name taint.by_name ≡ true
    → any_significant taint o index pos syms ≡ true
unfolding any_significant is_address_significant
any_significant-taken taint o index pos [] sy m s u n h = absurd m
any_significant-taken taint o index pos (x ∷ syms) sy (inl e) s u n h =
    subst (λ y. any_significant taint o index pos (y ∷ syms) ≡ true) e
      (rw (s, u, n, h) (ground arith))
any_significant-taken taint o index pos (x ∷ syms) sy (inr m) s u n h =
    let rest = any_significant-taken taint o index (pos + 1) syms sy m s u n h in
    ground (arith, rest)

significant_lem :
    (taint : AddrTaint) (obj : InputObject) (o p : ℕ) (sec : InputSection)
    → get_elem? obj.sections p ≡ some sec
    → any_significant taint o sec.index 0 obj.symbols ≡ true
    → defines_address_significant obj o p taint ≡ true
unfolding defines_address_significant
significant_lem taint obj o p sec a h = rw (a, h, defines_address_significant) (ground arith)

-- No relocation of any object takes the address of a named symbol that is defined in the section.
pub record Untaken (objects : List InputObject) (o p i : ℕ) : Type 0 where
  pub obj : InputObject
  pub sec : InputSection
  pub object_at : get_elem? objects o ≡ some obj
  pub section_at : get_elem? obj.sections p ≡ some sec
  pub index_of : i ≡ sec.index
  pub untaken :
      (sy : InputSymbol)
      → Mem sy obj.symbols
      → sy.section ≡ some i
      → sy.is_undefined ≡ false
      → is_empty_name sy.name ≡ false
      → (other : InputObject) (in_sec : InputSection) (r : InputReloc) → Mem other objects
      → Mem in_sec other.sections
      → Mem r in_sec.relocs
      → ¬ TakesAddress sy.name other r

Keyed-Untaken :
    {objects : List InputObject} {o p i : ℕ} {key : FoldKey}
    → Keyed objects (address_taint objects) o p i key
    → Untaken objects o p i
unfolding address_taint defines_address_significant
Keyed-Untaken {objects} {o} {p} {i} {key} k =
    let taint = address_taint objects in
    let fine = fold_key_for-Foldable objects taint k.obj o p k.sec key k.section_at k.key_of in
    record {
      obj = k.obj;
      sec = k.sec;
      object_at = k.object_at;
      section_at = k.section_at;
      index_of = k.index_of;
      untaken = λ sy m s u n other in_sec r l ms mr takes.
          let taken =
            taint_objects-IsTaken sy.name n 0 objects no_taint other in_sec r l ms mr takes in
          let found =
            any_significant-taken taint o k.sec.index 0 k.obj.symbols sy m (s ∙ ap some k.index_of)
              u n taken in
          true≢false
            (sym (significant_lem taint k.obj o p k.sec k.section_at found) ∙ fine.insignificant);
    }

-- Two sections that are taken for one another.
pub record Folded (objects : List InputObject) (d c : ℕ × ℕ) : Type 0 where
  pub pos : ℕ
  pub canonical_pos : ℕ
  pub here : Untaken objects d.0 pos d.1
  pub there : Untaken objects c.0 canonical_pos c.1
  pub both_text : (is_text here.sec.kind ≡ true) × (is_text there.sec.kind ≡ true)
  pub same_flags : here.sec.flags ≡ there.sec.flags
  pub same_bytes : here.sec.bytes ≡ there.sec.bytes
  pub same_relocs : key_relocs here.obj here.sec.relocs ≡ key_relocs there.obj there.sec.relocs

-- A section is folded onto another only if both are code with the same flags, the same bytes and, in order, relocations
-- with the same offsets, types, addends and names of the targets, and if no relocation of any object takes the
-- address of a named symbol that one of the two defines.
pub compute_fold_map-Folded :
    (objects : List InputObject) (d c : ℕ × ℕ)
    → get d (compute_fold_map objects) ≡ some c
    → Folded objects d c
unfolding Keyed-Untaken
compute_fold_map-Folded objects d c e =
    let taint = address_taint objects in
    let fold = compute_fold_map-IsFold objects d c e in
    let a =
      fold_key_for-Foldable objects taint fold.here.obj d.0 fold.pos fold.here.sec fold.key
        fold.here.section_at fold.here.key_of in
    let b =
      fold_key_for-Foldable objects taint fold.there.obj c.0 fold.canonical_pos fold.there.sec
        fold.key fold.there.section_at fold.there.key_of in
    record {
      pos = fold.pos;
      canonical_pos = fold.canonical_pos;
      here = Keyed-Untaken fold.here;
      there = Keyed-Untaken fold.there;
      both_text = (a.text_kind, b.text_kind);
      same_flags = sym a.flags_of ∙ b.flags_of;
      same_bytes = fold.same_bytes;
      same_relocs = a.relocs_of ∙ sym b.relocs_of;
    }
