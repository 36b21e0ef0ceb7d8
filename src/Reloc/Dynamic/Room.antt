-- ===== src/Reloc/Dynamic/Room.antt =====
-- The counts that size `.rela.dyn` before layout against the relocations collected after it
-- (peony-reloc/src/dynamic.rs).
use peony.Base.{
  ℕ, ◌+◌, ◌*◌, ◌≤◌, ◌≡◌, refl, sym, ◌∙◌, subst, inl, inr, Bool, true, false, ◌&&◌, ◌||◌, not, List,
  [], ◌∷◌, ◌++◌, Option, none, some, ◌>>=◌, ◌==◌, if◌then◌else◌, is_some, arith, Bool-cases,
  Option-cases, length, bind_some,
}
use peony.Base.Sort.{length-sort_unstable_by, pair_le}
use peony.Base.Word.{wrapping_add}
use peony.Object.{InputObject, InputSection, InputReloc, InputSymbol, symbol_by_index}
use peony.Reloc.Dynamic.{
  DynamicRelocCounts, no_counts, relative_counts, is_alloc, r64, count_global, count_symbol,
  count_reloc, count_relocs, count_sections, count_objects, count_got_slot, count_got,
  count_dynamic_relocs, DataLayout, DataReloc, relative, irelative, as_relative, as_irelative,
  as_symbolic, address_of, based, any_reloc, any_section, got_reloc, got_relocs, entry_of,
  over_sections, over_objects, triple_le, collect_data_and_symbolic_relocs,
}
use peony.Reloc.Dynamic.Single.{at_site, any_section_lem}
use peony.Reloc.Scan.{is_local}
use peony.Reloc.Slots.{filter_map}
use peony.Reloc.Slots.FilterMap.{filter_map-cons}
use peony.Reloc.Tls.{TlsGotInfo, resolution_of}
use peony.Symbols.Resolution.{SymbolResolution, is_defined}
use peony.Symbols.Table.{SymbolTable, lookup}
use peony.Symbols.Updates.{name_by_id}
use peony.Reloc.Dynamic.Covers.{
  Covers, Covers-add, cons_if-entry_of, nothing-Covers, dropped-Covers, based-Covers,
  symbolic-Covers, HasPlainImports, global-Covers,
}

module _ (layout : DataLayout) (symbols : SymbolTable) (fair : HasPlainImports symbols) where
  local-Covers :
      (sy : InputSymbol) (id site addend : ℕ)
      → Covers (if is_some sy.section then relative_counts sy.is_ifunc else no_counts) (
          entry_of (
            sy.section >>= λ si. address_of layout id si >>= λ va.
            some (based sy.is_ifunc site (wrapping_add va sy.value) addend)))
  local-Covers sy id site addend = elim (Option-cases sy.section) [
    | inl k ↦ rw k nothing-Covers
    | inr (si, k) ↦ elim (Option-cases (address_of layout id si)) [
      | inl a ↦ rw (k, a) (dropped-Covers sy.is_ifunc)
      | inr (va, a) ↦ rw (k, a) (based-Covers sy.is_ifunc site (wrapping_add va sy.value) addend)
    ]
  ]

  count_global-fine : (res : SymbolResolution) → Covers (count_global res) []
  unfolding count_global
  count_global-fine res = elim (Bool-cases (res.import && not res.copy_reloc)) [
    | inl c ↦ rw c (symbolic-Covers true 0 0 0)
    | inr c ↦ elim (Bool-cases (is_defined res)) [
      | inl d ↦ rw (c, d) (dropped-Covers (not res.import && res.is_ifunc))
      | inr d ↦ rw (c, d) nothing-Covers
    ]
  ]

  -- A count has room for a relocation that makes no entry.
  count_reloc-fine :
      (obj : InputObject) (reloc : InputReloc) → Covers (count_reloc symbols obj reloc) []
  unfolding count_reloc count_symbol
  count_reloc-fine obj reloc = elim (Bool-cases (reloc.r_type == r64)) [
    | inl h ↦ elim (Option-cases (symbol_by_index obj reloc.symbol)) [
      | inl e ↦ rw (h, e) nothing-Covers
      | inr (sy, e) ↦ elim (Bool-cases (is_local sy.binding)) [
        | inl l ↦ elim (Bool-cases (is_some sy.section)) [
          | inl k ↦ rw (h, e, l, k) (dropped-Covers sy.is_ifunc)
          | inr k ↦ rw (h, e, l, k) nothing-Covers
        ]
        | inr l ↦ elim (Option-cases (lookup symbols sy.name)) [
          | inl k ↦ rw (h, e, l, k) nothing-Covers
          | inr (res, k) ↦ rw (h, e, l, k) (count_global-fine res)
        ]
      ]
    ]
    | inr h ↦ rw h nothing-Covers
  ]

  any_reloc-Covers :
      (id : ℕ) (obj : InputObject) (va : ℕ) (reloc : InputReloc)
      → Covers (count_reloc symbols obj reloc) (entry_of (any_reloc layout symbols id obj va reloc))
  unfolding count_reloc count_symbol any_reloc
  any_reloc-Covers id obj va reloc = elim (Bool-cases (reloc.r_type == r64)) [
    | inl h ↦ elim (Option-cases (symbol_by_index obj reloc.symbol)) [
      | inl e ↦ rw (h, e) nothing-Covers
      | inr (sy, e) ↦ elim (Bool-cases (is_local sy.binding)) [
        | inl l ↦ rw (h, e, l) (local-Covers sy id (wrapping_add va reloc.offset) reloc.addend)
        | inr l ↦ elim (Option-cases (lookup symbols sy.name)) [
          | inl k ↦ rw (h, e, l, k) nothing-Covers
          | inr (res, k) ↦
              rw (h, e, l, k)
                (global-Covers res (fair sy.name res k) (wrapping_add va reloc.offset) reloc.addend)
        ]
      ]
    ]
    | inr h ↦ rw h nothing-Covers
  ]

  at_site-Covers :
      (id : ℕ) (obj : InputObject) (sec : InputSection) (reloc : InputReloc)
      → Covers (count_reloc symbols obj reloc) (entry_of (at_site layout symbols id obj sec reloc))
  at_site-Covers id obj sec reloc = elim (Option-cases (address_of layout id sec.index)) [
    | inl e ↦ rw e (count_reloc-fine obj reloc)
    | inr (va, e) ↦ rw e (any_reloc-Covers id obj va reloc)
  ]

  count_relocs-Covers :
      (id : ℕ) (obj : InputObject) (sec : InputSection) (relocs : List InputReloc)
      → Covers
          (count_relocs symbols obj relocs)
          (filter_map (at_site layout symbols id obj sec) relocs)
  unfolding count_relocs
  count_relocs-Covers id obj sec [] = nothing-Covers
  count_relocs-Covers id obj sec (reloc ∷ relocs) =
      let f = at_site layout symbols id obj sec in
      subst (Covers (count_relocs symbols obj (reloc ∷ relocs)))
        (cons_if-entry_of (f reloc) (filter_map f relocs) ∙ sym (filter_map-cons f reloc relocs))
        (Covers-add (count_reloc symbols obj reloc) (count_relocs symbols obj relocs)
          (entry_of (f reloc)) (filter_map f relocs) (at_site-Covers id obj sec reloc)
          (count_relocs-Covers id obj sec relocs))

  any_section-Covers :
      (id : ℕ) (obj : InputObject) (sec : InputSection)
      → Covers
          (if is_alloc sec then count_relocs symbols obj sec.relocs else no_counts)
          (any_section layout symbols id obj sec)
  any_section-Covers id obj sec =
      rw (any_section_lem layout symbols id obj sec) (elim (Bool-cases (is_alloc sec)) [
        | inl h ↦ rw h (count_relocs-Covers id obj sec sec.relocs)
        | inr h ↦ rw h nothing-Covers
      ])

  sections-Covers :
      (id : ℕ) (obj : InputObject) (secs : List InputSection)
      → Covers
          (count_sections symbols obj secs)
          (over_sections (any_section layout symbols) id obj secs)
  unfolding count_sections over_sections
  sections-Covers id obj [] = nothing-Covers
  sections-Covers id obj (sec ∷ secs) =
      Covers-add _ _ _ _ (any_section-Covers id obj sec) (sections-Covers id obj secs)

  objects-Covers :
      (id : ℕ) (objs : List InputObject)
      → Covers (count_objects symbols objs) (over_objects (any_section layout symbols) id objs)
  unfolding count_objects over_objects
  objects-Covers id [] = nothing-Covers
  objects-Covers id (obj ∷ objs) =
      Covers-add _ _ _ _ (sections-Covers id obj obj.sections) (objects-Covers (id + 1) objs)

  -- The entry of a GOT slot, by its resolution.
  slot_entry : ℕ → SymbolResolution → Option DataReloc
  slot_entry i res =
      if (res.import && not res.copy_reloc) || not (is_defined res)
      then none
      else (let site = wrapping_add layout.got_base (i * 8) in
          if res.is_ifunc
          then some (irelative site res.virtual_address)
          else some (relative site res.virtual_address))

  slot_counts : SymbolResolution → DynamicRelocCounts
  slot_counts res =
      if (not res.import || res.copy_reloc) && is_defined res
      then relative_counts (not res.import && res.is_ifunc)
      else no_counts

  one_slot-Covers :
      (ifunc : Bool) (x v : ℕ)
      → Covers
          (relative_counts ifunc)
          (entry_of (if ifunc then some (irelative x v) else some (relative x v)))
  one_slot-Covers true x v = record {
    plain = omega arith;
    ifuncs = omega arith;
    symbols = omega arith;
  }
  one_slot-Covers false x v = record {
    plain = omega arith;
    ifuncs = omega arith;
    symbols = omega arith;
  }

  slot-Covers :
      (i : ℕ) (res : SymbolResolution)
      → (res.import ≡ true → res.is_ifunc ≡ false)
      → Covers (slot_counts res) (entry_of (slot_entry i res))
  unfolding slot_entry slot_counts
  slot-Covers i res plain_import =
      let site = wrapping_add layout.got_base (i * 8) in
      elim (Bool-cases ((res.import && not res.copy_reloc) || not (is_defined res))) [
        | inl c ↦
            let out : ((not res.import || res.copy_reloc) && is_defined res) ≡ false =
              ground (arith, c) in
            rw (c, out) nothing-Covers
        | inr c ↦
            let kept : ((not res.import || res.copy_reloc) && is_defined res) ≡ true =
              ground (arith, c) in
            elim (Bool-cases res.import) [
              | inl m ↦
                  rw (c, kept, m, plain_import m) (one_slot-Covers false site res.virtual_address)
              | inr m ↦ rw (c, kept, m) (one_slot-Covers res.is_ifunc site res.virtual_address)
            ]
      ]

  got_reloc-Covers :
      (i id : ℕ) → Covers (count_got_slot symbols id) (entry_of (got_reloc layout symbols i id))
  unfolding count_got_slot got_reloc slot_entry slot_counts
  got_reloc-Covers i id = go (resolution_of symbols id) refl
    where
      go :
          (o : Option SymbolResolution)
          → resolution_of symbols id ≡ o
          → Covers (count_got_slot symbols id) (entry_of (got_reloc layout symbols i id))
      go none k = rw (k, count_got_slot, got_reloc) nothing-Covers
      go (some res) k =
          let (name, _, found) =
            bind_some (name_by_id symbols id) (λ name. lookup symbols name) res k in
          rw (k, count_got_slot, got_reloc) (slot-Covers i res (fair name res found))

  got-Covers :
      (i : ℕ) (ids : List ℕ) → Covers (count_got symbols ids) (got_relocs layout symbols i ids)
  unfolding count_got got_relocs
  got-Covers i [] = nothing-Covers
  got-Covers i (id ∷ ids) = Covers-add _ _ _ _ (got_reloc-Covers i id) (got-Covers (i + 1) ids)

-- If no imported symbol is an IFUNC, what is collected after layout fits in what was counted before it, for the
-- GOT slots of the layout: the IFUNC entries in their count, the other relative ones in the rest of the
-- total, and the symbolic ones in theirs.
pub collect_data_and_symbolic_relocs-count_dynamic_relocs :
    (objects : List InputObject) (symbols : SymbolTable) (layout : DataLayout) (tls : TlsGotInfo)
    (is_shared : Bool)
    → HasPlainImports symbols
    → let counts = count_dynamic_relocs objects symbols layout.got_slots tls is_shared in
      let (relatives, irelatives, symbolics) =
        collect_data_and_symbolic_relocs objects symbols layout in
      (length relatives + counts.irelative ≤ counts.relative_total)
      × (length irelatives ≤ counts.irelative)
      × (length symbolics ≤ counts.symbolic_data)
unfolding count_dynamic_relocs collect_data_and_symbolic_relocs
collect_data_and_symbolic_relocs-count_dynamic_relocs objects symbols layout tls is_shared fair =
    let found =
      over_objects (any_section layout symbols) 0 objects
      ++ got_relocs layout symbols 0 layout.got_slots in
    let room =
      Covers-add _ _ _ _ (objects-Covers layout symbols fair 0 objects)
        (got-Covers layout symbols fair 0 layout.got_slots) in
    (
      rw (length-sort_unstable_by pair_le (filter_map as_relative found)) room.plain,
      rw (length-sort_unstable_by pair_le (filter_map as_irelative found)) room.ifuncs,
      rw (length-sort_unstable_by triple_le (filter_map as_symbolic found)) room.symbols,
    )
