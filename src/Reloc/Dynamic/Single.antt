-- ===== src/Reloc/Dynamic/Single.antt =====
-- The single pass over the data relocations (peony-reloc/src/dynamic.rs) against the two that it replaces.
use peony.Base.{
  ℕ, ◌+◌, ◌≡◌, refl, sym, ◌∙◌, ap, inl, inr, Bool, true, false, ◌&&◌, ◌||◌, not, List, [], ◌∷◌,
  ◌++◌, Option, none, some, ◌>>=◌, ◌==◌, if◌then◌else◌, arith, Bool-cases, Option-cases,
}
use mathlib.Core.List.{append-nil}
use peony.Base.Word.{wrapping_add}
use peony.Object.{InputObject, InputSection, InputReloc, InputSymbol, symbol_by_index}
use peony.Reloc.Dynamic.{
  DataLayout, DataReloc, symbolic, as_relative, as_irelative, as_symbolic, is_alloc, address_of,
  r64, based, image_target, data_reloc, symbolic_reloc, global_reloc, any_reloc, data_section,
  symbolic_section, any_section, got_reloc, got_relocs, entry_of, over_sections, over_objects,
  collect_symbolic_data_relocs, collect_dynamic_data_relocs, collect_data_and_symbolic_relocs,
}
use peony.Reloc.Scan.{is_local}
use peony.Reloc.Slots.{filter_map}
use peony.Reloc.Slots.FilterMap.{
  cons_if, filter_map-cons, filter_map-append, filter_map-same, filter_map-none,
  filter_map-filter_map,
}
use peony.Reloc.Tls.{resolution_of}
use peony.Symbols.Resolution.{is_defined}
use peony.Symbols.Table.{SymbolTable, lookup}

-- Loops whose sections agree on the entries of a kind agree on them.
module _ {ℓ} {B : Type ℓ} (p : DataReloc → Option B)
    (f g : ℕ → InputObject → InputSection → List DataReloc)
    (same : (id : ℕ) (obj : InputObject) (sec : InputSection)
      → filter_map p (f id obj sec) ≡ filter_map p (g id obj sec)) where
  over_sections-same :
      (id : ℕ) (obj : InputObject) (secs : List InputSection)
      → filter_map p (over_sections f id obj secs) ≡ filter_map p (over_sections g id obj secs)
  unfolding over_sections
  over_sections-same id obj [] = refl
  over_sections-same id obj (sec ∷ secs) =
      rw
        (
          filter_map-append p (f id obj sec) (over_sections f id obj secs),
          filter_map-append p (g id obj sec) (over_sections g id obj secs),
          same id obj sec,
          over_sections-same id obj secs,
        )
        refl

  over_objects-same :
      (id : ℕ) (objs : List InputObject)
      → filter_map p (over_objects f id objs) ≡ filter_map p (over_objects g id objs)
  unfolding over_objects
  over_objects-same id [] = refl
  over_objects-same id (obj ∷ objs) =
      rw
        (
          filter_map-append p (over_sections f id obj obj.sections) (over_objects f (id + 1) objs),
          filter_map-append p (over_sections g id obj obj.sections) (over_objects g (id + 1) objs),
          over_sections-same id obj obj.sections,
          over_objects-same (id + 1) objs,
        )
        refl

  pub found-same :
      (id : ℕ) (objs : List InputObject) (rest : List DataReloc)
      → filter_map p (over_objects f id objs ++ rest)
        ≡ filter_map p (over_objects g id objs ++ rest)
  found-same id objs rest =
      filter_map-append p (over_objects f id objs) rest
      ∙ ap (λ xs. xs ++ filter_map p rest) (over_objects-same id objs)
      ∙ sym (filter_map-append p (over_objects g id objs) rest)

module _ (layout : DataLayout) (symbols : SymbolTable) (id : ℕ) (obj : InputObject)
    (sec : InputSection) where
  -- The single pass's entry, with the look-up of the section's address back in the loop.
  abbrev pub at_site : InputReloc → Option DataReloc
  at_site reloc = address_of layout id sec.index >>= λ va. any_reloc layout symbols id obj va reloc

  pub any_section_lem :
      any_section layout symbols id obj sec
      ≡ (if is_alloc sec then filter_map at_site sec.relocs else [])
  unfolding any_section
  any_section_lem = elim (Option-cases (address_of layout id sec.index)) [
    | inl e ↦
        let nothing : filter_map at_site sec.relocs ≡ [] =
          filter_map-none at_site sec.relocs
            (λ r. ap (λ o. o >>= λ va. any_reloc layout symbols id obj va r) e) in
        rw (e, nothing) (elim (Bool-cases (is_alloc sec)) [ inl h ↦ rw h refl | inr h ↦ rw h refl ])
    | inr (va, e) ↦
        let placed : filter_map at_site sec.relocs
            ≡ filter_map (any_reloc layout symbols id obj va) sec.relocs =
          ap (λ o. filter_map (λ r. o >>= λ va. any_reloc layout symbols id obj va r) sec.relocs)
            e in
        rw (e, placed) refl
  ]

-- A chain whose rest never gives a result gives none.
bind_empty {ℓ κ} :
    {A : Type ℓ} {B : Type κ} (o : Option A) (f : A → Option B)
    → ((a : A) → f a ≡ none)
    → (o >>= f) ≡ none
bind_empty none f same = refl
bind_empty (some a) f same = same a

-- What the three passes make of one relocation.
pub data Split (any data_entry symbolic_entry : Option DataReloc) : Type 0 where
  neither :
      any ≡ none → data_entry ≡ none → symbolic_entry ≡ none → Split any data_entry symbolic_entry
  image :
      (ifunc : Bool) (site target addend : ℕ)
      → any ≡ some (based ifunc site target addend)
      → data_entry ≡ some (based ifunc site target addend)
      → symbolic_entry ≡ none
      → Split any data_entry symbolic_entry
  shared :
      (site index addend : ℕ)
      → any ≡ some (symbolic site index addend)
      → data_entry ≡ none
      → symbolic_entry ≡ some (symbolic site index addend)
      → Split any data_entry symbolic_entry

module _ (layout : DataLayout) (symbols : SymbolTable) (id : ℕ) (obj : InputObject)
    (sec : InputSection) (reloc : InputReloc) where
  abbrev IsSplit : Type 0
  IsSplit =
      Split (at_site layout symbols id obj sec reloc) (data_reloc layout symbols id obj sec reloc)
        (symbolic_reloc layout symbols id obj sec reloc)

  split : IsSplit
  unfolding any_reloc data_reloc symbolic_reloc image_target global_reloc
  split =
      go (reloc.r_type == r64) refl (symbol_by_index obj reloc.symbol) refl
        (address_of layout id sec.index) refl
    where
      go :
          (b : Bool)
          → (reloc.r_type == r64) ≡ b
          → (o : Option InputSymbol) → symbol_by_index obj reloc.symbol ≡ o
          → (a : Option ℕ) → address_of layout id sec.index ≡ a
          → IsSplit
      go false h o e none f = neither (rw (h, f) refl) (rw (h) refl) (rw h refl)
      go false h o e (some va) f = neither (rw (h, f) refl) (rw (h) refl) (rw h refl)
      go true h none e none f = neither (rw f refl) (rw (h, e) refl) (rw (h, e) refl)
      go true h none e (some va) f = neither (rw (f, h, e) refl) (rw (h, e) refl) (rw (h, e) refl)
      go true h (some sy) e none f =
          neither (rw f refl)
            (rw (h, e) (bind_empty (image_target layout symbols id sy) _ (λ t. rw f refl)))
            (rw (h, e)
              (elim (Bool-cases (is_local sy.binding)) [
                | inl l ↦ rw l refl
                | inr l ↦ rw l (
                    bind_empty (lookup symbols sy.name) _ (λ res.
                      elim (Bool-cases
                        (not res.import || res.copy_reloc || res.dynsym_index == 0)) [
                          | inl n ↦ rw n refl
                          | inr n ↦ rw (n, f) refl
                        ]))
              ]))
      go true h (some sy) e (some va) f = elim (Bool-cases (is_local sy.binding)) [
        | inl l ↦ elim (Option-cases sy.section) [
          | inl k ↦ neither (rw (f, h, e, l, k) refl) (rw (h, e, l, k) refl) (rw (h, e, l) refl)
          | inr (si, k) ↦ elim (Option-cases (address_of layout id si)) [
            | inl a ↦
                neither (rw (f, h, e, l, k, a) refl) (rw (h, e, l, k, a) refl) (rw (h, e, l) refl)
            | inr (target, a) ↦
                image sy.is_ifunc (wrapping_add va reloc.offset) (wrapping_add target sy.value)
                  reloc.addend (rw (f, h, e, l, k, a) refl) (rw (h, e, l, k, a, f) refl)
                  (rw (h, e, l) refl)
          ]
        ]
        | inr l ↦ elim (Option-cases (lookup symbols sy.name)) [
          | inl k ↦ neither (rw (f, h, e, l, k) refl) (rw (h, e, l, k) refl) (rw (h, e, l, k) refl)
          | inr (res, k) ↦
              elim (Bool-cases (is_defined res && (not res.import || res.copy_reloc))) [
                | inl d ↦
                    let stays : (not res.import || res.copy_reloc || res.dynsym_index == 0) ≡ true =
                      ground (arith, d) in
                    image res.is_ifunc (wrapping_add va reloc.offset) res.virtual_address
                      reloc.addend (rw (f, h, e, l, k, d) refl) (rw (h, e, l, k, d, f) refl)
                      (rw (h, e, l, k, stays) refl)
                | inr d ↦
                    elim (Bool-cases (not res.import || res.copy_reloc || res.dynsym_index == 0)) [
                      | inl n ↦
                          let out : (res.import
                                && not res.copy_reloc
                                && not (res.dynsym_index == 0))
                              ≡ false =
                            ground (arith, n) in
                          neither (rw (f, h, e, l, k, d, out) refl) (rw (h, e, l, k, d) refl)
                            (rw (h, e, l, k, n) refl)
                      | inr n ↦
                          let out : (res.import
                                && not res.copy_reloc
                                && not (res.dynsym_index == 0))
                              ≡ true =
                            ground (arith, n) in
                          shared (wrapping_add va reloc.offset) res.dynsym_index reloc.addend
                            (rw (f, h, e, l, k, d, out) refl) (rw (h, e, l, k, d) refl)
                            (rw (h, e, l, k, n, f) refl)
                    ]
              ]
        ]
      ]

-- The three vectors of the single pass agree, section by section, with those of the other two.
module _ (layout : DataLayout) (symbols : SymbolTable) (id : ℕ) (obj : InputObject)
    (sec : InputSection) where
  same_section :
      {B : Type 0} (p : DataReloc → Option B) (f : InputReloc → Option DataReloc)
      → ((reloc : InputReloc) → (at_site layout symbols id obj sec reloc >>= p) ≡ (f reloc >>= p))
      → filter_map p (any_section layout symbols id obj sec)
        ≡ filter_map p (if is_alloc sec then filter_map f sec.relocs else [])
  same_section p f same =
      ap (filter_map p) (any_section_lem layout symbols id obj sec)
      ∙ elim (Bool-cases (is_alloc sec)) [
        | inl h ↦ rw h (
            filter_map-filter_map (at_site layout symbols id obj sec) p sec.relocs
            ∙ filter_map-same _ _ sec.relocs same
            ∙ sym (filter_map-filter_map f p sec.relocs))
        | inr h ↦ rw h refl
      ]

  any_section-relative :
      filter_map as_relative (any_section layout symbols id obj sec)
      ≡ filter_map as_relative (data_section layout symbols id obj sec)
  unfolding data_section
  any_section-relative = same_section as_relative (data_reloc layout symbols id obj sec) (λ reloc.
      elim (split layout symbols id obj sec reloc) [
        | neither a d s ↦ ap (λ o. o >>= as_relative) (a ∙ sym d)
        | image i x t y a d s ↦ ap (λ o. o >>= as_relative) (a ∙ sym d)
        | shared x i y a d s ↦ ap (λ o. o >>= as_relative) a ∙ sym (ap (λ o. o >>= as_relative) d)
      ])

  any_section-irelative :
      filter_map as_irelative (any_section layout symbols id obj sec)
      ≡ filter_map as_irelative (data_section layout symbols id obj sec)
  unfolding data_section
  any_section-irelative = same_section as_irelative (data_reloc layout symbols id obj sec) (λ reloc.
      elim (split layout symbols id obj sec reloc) [
        | neither a d s ↦ ap (λ o. o >>= as_irelative) (a ∙ sym d)
        | image i x t y a d s ↦ ap (λ o. o >>= as_irelative) (a ∙ sym d)
        | shared x i y a d s ↦ ap (λ o. o >>= as_irelative) a ∙ sym (ap (λ o. o >>= as_irelative) d)
      ])

  based-as_symbolic : (i : Bool) (x t y : ℕ) → as_symbolic (based i x t y) ≡ none
  based-as_symbolic true x t y = refl
  based-as_symbolic false x t y = refl

  any_section-symbolic :
      filter_map as_symbolic (any_section layout symbols id obj sec)
      ≡ filter_map as_symbolic (symbolic_section layout symbols id obj sec)
  unfolding symbolic_section
  any_section-symbolic =
      same_section as_symbolic (symbolic_reloc layout symbols id obj sec) (λ reloc.
        elim (split layout symbols id obj sec reloc) [
          | neither a d s ↦ ap (λ o. o >>= as_symbolic) (a ∙ sym s)
          | image i x t y a d s ↦
              ap (λ o. o >>= as_symbolic) a
              ∙ based-as_symbolic i x t y
              ∙ sym (ap (λ o. o >>= as_symbolic) s)
          | shared x i y a d s ↦ ap (λ o. o >>= as_symbolic) (a ∙ sym s)
        ])

entry_of-filter_map {ℓ} :
    {B : Type ℓ} (p : DataReloc → Option B) (o : Option DataReloc) (es : List DataReloc)
    → filter_map p (entry_of o ++ es) ≡ cons_if (o >>= p) (filter_map p es)
entry_of-filter_map p none es = refl
entry_of-filter_map p (some e) es = filter_map-cons p e es

module _ (layout : DataLayout) (symbols : SymbolTable) where
  got_reloc-symbolic : (i id : ℕ) → (got_reloc layout symbols i id >>= as_symbolic) ≡ none
  unfolding got_reloc
  got_reloc-symbolic i id = elim (Option-cases (resolution_of symbols id)) [
    | inl k ↦ rw k refl
    | inr (res, k) ↦
        elim (Bool-cases ((res.import && not res.copy_reloc) || not (is_defined res))) [
          | inl c ↦ rw (k, c) refl
          | inr c ↦ elim (Bool-cases res.is_ifunc) [
            | inl f ↦ rw (k, c, f) refl
            | inr f ↦ rw (k, c, f) refl
          ]
        ]
  ]

  got_relocs-symbolic :
      (i : ℕ) (ids : List ℕ) → filter_map as_symbolic (got_relocs layout symbols i ids) ≡ []
  unfolding got_relocs got_reloc
  got_relocs-symbolic i [] = refl
  got_relocs-symbolic i (id ∷ ids) =
      entry_of-filter_map as_symbolic (got_reloc layout symbols i id)
        (got_relocs layout symbols (i + 1) ids)
      ∙ ap (λ o. cons_if o (filter_map as_symbolic (got_relocs layout symbols (i + 1) ids)))
          (got_reloc-symbolic i id)
      ∙ got_relocs-symbolic (i + 1) ids

-- The single pass returns the same vectors as the two passes that it replaces, for any objects, symbols and
-- layout: every data relocation goes to exactly one of them.
pub collect_data_and_symbolic_relocs-collect_dynamic_data_relocs :
    (objects : List InputObject) (symbols : SymbolTable) (layout : DataLayout)
    → collect_data_and_symbolic_relocs objects symbols layout ≡ (
      (collect_dynamic_data_relocs objects symbols layout).0,
      (collect_dynamic_data_relocs objects symbols layout).1,
      collect_symbolic_data_relocs objects symbols layout,
    )
unfolding collect_data_and_symbolic_relocs collect_dynamic_data_relocs collect_symbolic_data_relocs
collect_data_and_symbolic_relocs-collect_dynamic_data_relocs objects symbols layout =
    let got = got_relocs layout symbols 0 layout.got_slots in
    let one =
      found-same as_relative (any_section layout symbols) (data_section layout symbols)
        (any_section-relative layout symbols) 0 objects got in
    let two =
      found-same as_irelative (any_section layout symbols) (data_section layout symbols)
        (any_section-irelative layout symbols) 0 objects got in
    let three =
      found-same as_symbolic (any_section layout symbols) (symbolic_section layout symbols)
        (any_section-symbolic layout symbols) 0 objects got
      ∙ filter_map-append as_symbolic (over_objects (symbolic_section layout symbols) 0 objects) got
      ∙ ap
          (λ xs.
            filter_map as_symbolic (over_objects (symbolic_section layout symbols) 0 objects) ++ xs)
          (got_relocs-symbolic layout symbols 0 layout.got_slots)
      ∙ append-nil
          (filter_map as_symbolic (over_objects (symbolic_section layout symbols) 0 objects)) in
    rw (one, two, three) refl
