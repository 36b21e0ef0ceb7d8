-- ===== src/Reloc/Copy/Chosen.antt =====
-- The symbols that `copy_reloc_symbols` (peony-reloc/src/copy.rs) chooses.
use peony.Base.{
  ℕ, ◌≡◌, refl, ap, subst, ◌↔◌, inl, inr, true, List, [], ◌∷◌, map, some, Mem, Nodup,
  Mem-append_left, Mem-append_right, Mem-split, Bool-cases,
}
use peony.Base.Bytes.{Bytes}
use peony.Object.{InputReloc, InputSection, InputObject}
use peony.Symbols.Table.{SymbolTable}
use peony.Reloc.Scan.Got.{Mem-filter_map}
use peony.Reloc.Copy.{
  copy_candidate, is_read_only, collect_section, collect_sections, collect_obj, merge_found, ids,
  copy_reloc_symbols,
}
use peony.Reloc.Copy.Merge.{concat, merge_found-Adds, Mem-sort_by_name, Nodup-sort_by_name}

module _ (symbols : SymbolTable) (id : ℕ) where
  -- A relocation in a read-only section of the list that asks for a copy of the symbol.
  abbrev pub AsksInSections : InputObject → List InputSection → Type 0
  AsksInSections obj secs =
      (sec : InputSection) × Mem sec secs
      × (is_read_only sec ≡ true)
      × ((reloc : InputReloc) × Mem reloc sec.relocs
          × ((name : Bytes) × (copy_candidate obj symbols reloc ≡ some (id, name))))

  abbrev pub Asks : List InputObject → Type 0
  Asks objects = (obj : InputObject) × Mem obj objects × AsksInSections obj obj.sections

  Mem-ids : (ps : List (ℕ × Bytes)) → Mem id (ids ps) ↔ ((name : Bytes) × Mem (id, name) ps)
  Mem-ids [] = ((λ m. absurd m), (λ (n, m). absurd m))
  Mem-ids ((j, v) ∷ ps) =
      let more = Mem-ids ps in
      (
        (λ m. elim m [
          | inl e ↦ (v, inl (ap (λ k. (k, v)) e))
          | inr i ↦ let (n, k) = more.0 i in (n, inr k)
        ]),
        (λ (n, m). elim m [ inl e ↦ inl (ap (λ p. p.0) e) | inr k ↦ inr (more.1 (n, k)) ]),
      )

  Mem-section :
      (name : Bytes) (obj : InputObject) (sec : InputSection)
      → Mem (id, name) (collect_section obj symbols sec) ↔ (
          (is_read_only sec ≡ true)
          × ((reloc : InputReloc) × Mem reloc sec.relocs
              × (copy_candidate obj symbols reloc ≡ some (id, name))))
  Mem-section name obj sec = elim (Bool-cases (is_read_only sec)) [
    | inl e ↦
        let here = Mem-filter_map (copy_candidate obj symbols) (id, name) sec.relocs in
        rw e ((λ m. (refl, here.0 m)), (λ (_, h). here.1 h))
    | inr e ↦ rw e ((λ m. absurd m), (λ (h, _). absurd cc))
  ]

  Mem-sections :
      (obj : InputObject) (secs : List InputSection)
      → ((name : Bytes) × Mem (id, name) (collect_sections obj symbols secs))
        ↔ AsksInSections obj secs
  unfolding collect_sections
  Mem-sections obj [] = ((λ (n, m). absurd m), (λ (sec, m, ro, h). absurd m))
  Mem-sections obj (sec ∷ secs) =
      let first = collect_section obj symbols sec in
      let rest = collect_sections obj symbols secs in
      let more = Mem-sections obj secs in
      (
        (λ (n, m). elim (Mem-split (id, n) first rest m) [
          | inl i ↦
              let (ro, (r, k, e)) = (Mem-section n obj sec).0 i in
              (sec, inl refl, ro, (r, k, (n, e)))
          | inr i ↦ let (s, k, ro, h) = more.0 (n, i) in (s, inr k, ro, h)
        ]),
        (λ (s, m, ro, (r, k, (n, e))). elim m [
          | inl q ↦ (
            n,
            Mem-append_left (id, n) first rest
                (subst (λ x. Mem (id, n) (collect_section obj symbols x)) q
                  ((Mem-section n obj s).1 (ro, (r, k, e)))),
          )
          | inr i ↦
              let (n', j) = more.1 (s, i, ro, (r, k, (n, e))) in
              (n', Mem-append_right (id, n') first rest j)
        ]),
      )

  Mem-objects :
      (objects : List InputObject)
      → ((name : Bytes) × Mem (id, name) (concat (map (collect_obj symbols) objects)))
        ↔ Asks objects
  unfolding collect_obj
  Mem-objects [] = ((λ (n, m). absurd m), (λ (o, m, h). absurd m))
  Mem-objects (obj ∷ objs) =
      let first = collect_obj symbols obj in
      let rest = concat (map (collect_obj symbols) objs) in
      let here = Mem-sections obj obj.sections in
      let more = Mem-objects objs in
      (
        (λ (n, m). elim (Mem-split (id, n) first rest m) [
          | inl i ↦ (obj, inl refl, here.0 (n, i))
          | inr i ↦ let (o, k, h) = more.0 (n, i) in (o, inr k, h)
        ]),
        (λ (o, m, h). elim m [
          | inl q ↦
              let (n, j) = here.1 (subst (λ x. AsksInSections x x.sections) q h) in
              (n, Mem-append_left (id, n) first rest j)
          | inr i ↦ let (n, j) = more.1 (o, i, h) in (n, Mem-append_right (id, n) first rest j)
        ]),
      )

  -- A symbol is chosen exactly if a relocation in an allocated read-only section of some object asks
  -- for a copy of it, and no symbol is chosen twice.
  pub copy_reloc_symbols-Asks :
      (objects : List InputObject)
      → Nodup (copy_reloc_symbols objects symbols)
        × (Mem id (copy_reloc_symbols objects symbols) ↔ Asks objects)
  unfolding copy_reloc_symbols
  copy_reloc_symbols-Asks objects =
      let pss = map (collect_obj symbols) objects in
      let a = merge_found-Adds [] pss tt in
      let sorted = Mem-sort_by_name id (merge_found [] pss) in
      let found = Mem-ids (concat pss) in
      let asked = Mem-objects objects in
      (
        Nodup-sort_by_name (merge_found [] pss) a.0,
        (
          (λ m. elim ((a.1 id).0 (sorted.0 m)) [ inl z ↦ absurd z | inr i ↦ asked.0 (found.0 i) ]),
          (λ h. sorted.1 ((a.1 id).1 (inr (found.1 (asked.1 h))))),
        ),
      )
