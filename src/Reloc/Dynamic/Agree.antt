-- ===== src/Reloc/Dynamic/Agree.antt =====
-- `count_dynamic_relocs` against the counts that it replaces (peony-reloc/src/dynamic.rs and tls.rs).
use peony.Base.{
  ℕ, ◌+◌, ◌≡◌, refl, inl, inr, Bool, ◌&&◌, ◌||◌, not, List, [], ◌∷◌, Option, none, some, ◌==◌,
  if◌then◌else◌, is_some, arith, Bool-cases, Option-cases,
}
use peony.Object.{InputObject, InputSection, InputReloc, InputSymbol, symbol_by_index}
use peony.Reloc.Dynamic.{
  DynamicRelocCounts, no_counts, add_counts, relative_counts, is_alloc, r64, count_global,
  count_symbol, count_reloc, count_relocs, count_sections, count_objects, count_got_slot, count_got,
  count_dynamic_relocs,
}
use peony.Reloc.Dynamic.Counts.{
  is_some_and, is_relative_target, is_symbolic_target, is_irelative_target, count_site, count_sites,
  count_in_sections, count_in_objects, count_slots, count_relative, count_symbolic_data_relocs,
  count_got_relative, count_irelative,
}
use peony.Reloc.Scan.{is_local}
use peony.Reloc.Tls.{TlsGotInfo, resolution_of, count_tls_relocs}
use peony.Symbols.Resolution.{SymbolResolution, is_defined}
use peony.Symbols.Table.{SymbolTable, lookup}

-- The three counts that are compared.
pub record Same (c : DynamicRelocCounts) (total ifuncs symbolics : ℕ) : Type 0 where
  pub same_total : c.relative_total ≡ total
  pub same_ifuncs : c.irelative ≡ ifuncs
  pub same_symbolics : c.symbolic_data ≡ symbolics

Same-add :
    {a b : DynamicRelocCounts} {t i s t' i' s' : ℕ}
    → Same a t i s
    → Same b t' i' s'
    → Same (add_counts a b) (t + t') (i + i') (s + s')
Same-add h k = record {
  same_total = omega (arith, h.same_total, k.same_total);
  same_ifuncs = omega (arith, h.same_ifuncs, k.same_ifuncs);
  same_symbolics = omega (arith, h.same_symbolics, k.same_symbolics);
}

nothing : Same no_counts 0 0 0
nothing = record { same_total = refl; same_ifuncs = refl; same_symbolics = refl }

abbrev one_if : Bool → ℕ
one_if b = if b then 1 else 0

module _ (symbols : SymbolTable) where
  count_global-Same :
      (res : SymbolResolution)
      → Same
          (count_global res)
          (one_if (is_defined res && (not res.import || res.copy_reloc)))
          (one_if (is_defined res && not res.import && res.is_ifunc))
          (one_if (res.import && not res.copy_reloc))
  unfolding count_global
  count_global-Same res = record {
    same_total = ground arith;
    same_ifuncs = ground arith;
    same_symbolics = ground arith;
  }

  count_symbol-Same :
      (sy : InputSymbol)
      → Same
          (count_symbol symbols sy)
          (one_if (is_relative_target symbols sy))
          (one_if (is_irelative_target symbols sy))
          (one_if (is_symbolic_target symbols sy))
  unfolding count_symbol is_relative_target is_irelative_target is_symbolic_target
  count_symbol-Same sy = elim (Bool-cases (is_local sy.binding)) [
    | inl l ↦ elim (Bool-cases (is_some sy.section)) [
      | inl k ↦ rw (l, k) (record { same_total = refl; same_ifuncs = refl; same_symbolics = refl })
      | inr k ↦ rw (l, k) nothing
    ]
    | inr l ↦ elim (Option-cases (lookup symbols sy.name)) [
      | inl k ↦ rw (l, k) nothing
      | inr (res, k) ↦ rw (l, k) (count_global-Same res)
    ]
  ]

  count_reloc-Same :
      (obj : InputObject) (reloc : InputReloc)
      → Same
          (count_reloc symbols obj reloc)
          (count_site (is_relative_target symbols) obj reloc)
          (count_site (is_irelative_target symbols) obj reloc)
          (count_site (is_symbolic_target symbols) obj reloc)
  unfolding count_reloc count_site
  count_reloc-Same obj reloc = elim (Bool-cases (reloc.r_type == r64)) [
    | inl h ↦ elim (Option-cases (symbol_by_index obj reloc.symbol)) [
      | inl e ↦ rw (h, e) nothing
      | inr (sy, e) ↦ rw (h, e) (count_symbol-Same sy)
    ]
    | inr h ↦ rw h nothing
  ]

  count_relocs-Same :
      (obj : InputObject) (relocs : List InputReloc)
      → Same
          (count_relocs symbols obj relocs)
          (count_sites (is_relative_target symbols) obj relocs)
          (count_sites (is_irelative_target symbols) obj relocs)
          (count_sites (is_symbolic_target symbols) obj relocs)
  unfolding count_relocs count_sites
  count_relocs-Same obj [] = nothing
  count_relocs-Same obj (reloc ∷ relocs) =
      Same-add (count_reloc-Same obj reloc) (count_relocs-Same obj relocs)

  count_section-Same :
      (obj : InputObject) (sec : InputSection)
      → Same
          (if is_alloc sec then count_relocs symbols obj sec.relocs else no_counts)
          (if is_alloc sec then count_sites (is_relative_target symbols) obj sec.relocs else 0)
          (if is_alloc sec then count_sites (is_irelative_target symbols) obj sec.relocs else 0)
          (if is_alloc sec then count_sites (is_symbolic_target symbols) obj sec.relocs else 0)
  count_section-Same obj sec = elim (Bool-cases (is_alloc sec)) [
    | inl h ↦ rw h (count_relocs-Same obj sec.relocs)
    | inr h ↦ rw h nothing
  ]

  count_sections-Same :
      (obj : InputObject) (secs : List InputSection)
      → Same
          (count_sections symbols obj secs)
          (count_in_sections (is_relative_target symbols) obj secs)
          (count_in_sections (is_irelative_target symbols) obj secs)
          (count_in_sections (is_symbolic_target symbols) obj secs)
  unfolding count_sections count_in_sections
  count_sections-Same obj [] = nothing
  count_sections-Same obj (sec ∷ secs) =
      Same-add (count_section-Same obj sec) (count_sections-Same obj secs)

  count_objects-Same :
      (objs : List InputObject)
      → Same
          (count_objects symbols objs)
          (count_in_objects (is_relative_target symbols) objs)
          (count_in_objects (is_irelative_target symbols) objs)
          (count_in_objects (is_symbolic_target symbols) objs)
  unfolding count_objects count_in_objects
  count_objects-Same [] = nothing
  count_objects-Same (obj ∷ objs) =
      Same-add (count_sections-Same obj obj.sections) (count_objects-Same objs)

  count_got_slot-Same :
      (o : Option SymbolResolution)
      → Same
          (elim o as (λ _. DynamicRelocCounts) [
            | none ↦ no_counts
            | some res ↦
                if (not res.import || res.copy_reloc) && is_defined res
                then relative_counts (not res.import && res.is_ifunc)
                else no_counts
          ])
          (one_if (is_some_and o (λ r. (not r.import || r.copy_reloc) && is_defined r)))
          (one_if (is_some_and o (λ r. not r.import && is_defined r && r.is_ifunc)))
          0
  count_got_slot-Same none = nothing
  count_got_slot-Same (some res) = record {
    same_total = ground arith;
    same_ifuncs = ground arith;
    same_symbolics = ground arith;
  }

  count_got-Same :
      (ids : List ℕ)
      → Same
          (count_got symbols ids)
          (count_slots (λ r. (not r.import || r.copy_reloc) && is_defined r) symbols ids)
          (count_slots (λ r. not r.import && is_defined r && r.is_ifunc) symbols ids)
          0
  unfolding count_got count_got_slot count_slots
  count_got-Same [] = nothing
  count_got-Same (id ∷ ids) =
      Same-add (count_got_slot-Same (resolution_of symbols id)) (count_got-Same ids)

-- The counts of the single pass are those of the passes that it replaces: the relative relocations of the data and
-- of the GOT, the IFUNC ones among them, the symbolic ones and the ones for thread-local storage.
pub count_dynamic_relocs-count_relative :
    (objects : List InputObject) (symbols : SymbolTable) (got_syms : List ℕ) (tls : TlsGotInfo)
    (is_shared : Bool)
    → let counts = count_dynamic_relocs objects symbols got_syms tls is_shared in
      (counts.relative_total ≡ count_relative objects symbols + count_got_relative got_syms symbols)
      × (counts.irelative ≡ count_irelative objects symbols got_syms)
      × (counts.symbolic_data ≡ count_symbolic_data_relocs objects symbols)
      × (counts.tls ≡ count_tls_relocs symbols tls is_shared)
unfolding count_dynamic_relocs count_relative count_got_relative count_irelative
    count_symbolic_data_relocs
count_dynamic_relocs-count_relative objects symbols got_syms tls is_shared =
    let all = Same-add (count_objects-Same symbols objects) (count_got-Same symbols got_syms) in
    (all.same_total, all.same_ifuncs, omega (arith, all.same_symbolics), refl)
