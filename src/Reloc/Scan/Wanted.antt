-- ===== src/Reloc/Scan/Wanted.antt =====
-- The slots of `scan_relocations` (peony-reloc/src/scan.rs) are those that a relocation asks for,
-- each of them once.
use peony.Base.{
  ℕ, zero, suc, ◌+◌, ◌≡◌, refl, sym, ap, subst, ◌↔◌, ◌⊎◌, inl, inr, Bool, List, [], ◌∷◌, Option,
  none, some, some-injective, arith, get_elem?, Mem, Nodup, Mem-append_left, Mem-append_right,
  Mem-split,
}
use peony.Object.{InputReloc, InputSection, InputObject}
use peony.Symbols.Table.{SymbolTable}
use peony.Reloc.Slots.{SyntheticSlot, no_slots}
use peony.Reloc.Scan.{
  scan_reloc, push_slot, scan_relocs, scan_sections, scan_object, scan_objects, scan_relocations,
}
use peony.Reloc.Scan.Step.{concat, no_slots-IsInStep, add_all-Adds}

module _ (symbols : SymbolTable) (shared : Bool) (s : SyntheticSlot) where
  -- A relocation of the list that asks for the slot.
  abbrev pub AskedBy : InputObject → ℕ → List InputReloc → Type 0
  AskedBy obj obj_id relocs =
      (reloc : InputReloc) × Mem reloc relocs
      × (scan_reloc obj obj_id symbols shared reloc ≡ some s)

  abbrev pub AskedInSections : InputObject → ℕ → List InputSection → Type 0
  AskedInSections obj obj_id secs =
      (sec : InputSection) × Mem sec secs × AskedBy obj obj_id sec.relocs

  -- A relocation of the objects, of which the first has the id `obj_id`, that asks for the slot.
  abbrev pub Asked : ℕ → List InputObject → Type 0
  Asked obj_id objects =
      (i : ℕ) × (obj : InputObject) × (get_elem? objects i ≡ some obj)
      × AskedInSections obj (obj_id + i) obj.sections

  Mem-push_slot :
      (o : Option SyntheticSlot) (xs : List SyntheticSlot)
      → Mem s (push_slot o xs) ↔ ((o ≡ some s) ⊎ Mem s xs)
  Mem-push_slot none xs = ((λ m. inr m), (λ m. elim m [ inl e ↦ absurd cc | inr i ↦ i ]))
  Mem-push_slot (some x) xs = (
    (λ m. elim m [ inl e ↦ inl (ap some (sym e)) | inr i ↦ inr i ]),
    (λ m. elim m [ inl e ↦ inl (sym (some-injective x s e)) | inr i ↦ inr i ]),
  )

  Mem-scan_relocs :
      (obj : InputObject) (obj_id : ℕ) (relocs : List InputReloc)
      → Mem s (scan_relocs obj obj_id symbols shared relocs) ↔ AskedBy obj obj_id relocs
  unfolding scan_relocs
  Mem-scan_relocs obj obj_id [] = ((λ m. absurd m), (λ (r, m, e). absurd m))
  Mem-scan_relocs obj obj_id (reloc ∷ relocs) =
      let here =
        Mem-push_slot (scan_reloc obj obj_id symbols shared reloc)
          (scan_relocs obj obj_id symbols shared relocs) in
      let more = Mem-scan_relocs obj obj_id relocs in
      (
        (λ m. elim (here.0 m) [
          | inl e ↦ (reloc, inl refl, e)
          | inr i ↦ let (r, k, e) = more.0 i in (r, inr k, e)
        ]),
        (λ (r, m, e). elim m [
          | inl q ↦ here.1 (inl (subst (λ x. scan_reloc obj obj_id symbols shared x ≡ some s) q e))
          | inr k ↦ here.1 (inr (more.1 (r, k, e)))
        ]),
      )

  Mem-scan_sections :
      (obj : InputObject) (obj_id : ℕ) (secs : List InputSection)
      → Mem s (scan_sections obj obj_id symbols shared secs) ↔ AskedInSections obj obj_id secs
  unfolding scan_sections
  Mem-scan_sections obj obj_id [] = ((λ m. absurd m), (λ (r, m, e). absurd m))
  Mem-scan_sections obj obj_id (sec ∷ secs) =
      let first = scan_relocs obj obj_id symbols shared sec.relocs in
      let rest = scan_sections obj obj_id symbols shared secs in
      let here = Mem-scan_relocs obj obj_id sec.relocs in
      let more = Mem-scan_sections obj obj_id secs in
      (
        (λ m. elim (Mem-split s first rest m) [
          | inl i ↦ (sec, inl refl, here.0 i)
          | inr i ↦ let (r, k, e) = more.0 i in (r, inr k, e)
        ]),
        (λ (r, m, e). elim m [
          | inl q ↦
              Mem-append_left s first rest (here.1 (subst (λ x. AskedBy obj obj_id x.relocs) q e))
          | inr k ↦ Mem-append_right s first rest (more.1 (r, k, e))
        ]),
      )

  Asked-cons :
      (obj_id : ℕ) (obj : InputObject) (objs : List InputObject) (i : ℕ) (o : InputObject)
      → get_elem? (obj ∷ objs) i ≡ some o
      → AskedInSections o (obj_id + i) o.sections
      → AskedInSections obj obj_id obj.sections ⊎ Asked (obj_id + 1) objs
  Asked-cons obj_id obj objs zero o e a = inl (
      subst (λ x. AskedInSections x obj_id x.sections) (sym (some-injective obj o e))
        (subst (λ k. AskedInSections o k o.sections) (omega arith) a))
  Asked-cons obj_id obj objs (suc i) o e a =
      inr (i, o, e, subst (λ k. AskedInSections o k o.sections) (omega arith) a)

  Mem-scan_objects :
      (obj_id : ℕ) (objects : List InputObject)
      → Mem s (concat (scan_objects obj_id symbols shared objects)) ↔ Asked obj_id objects
  unfolding scan_objects scan_object
  Mem-scan_objects obj_id [] = ((λ m. absurd m), (λ (i, o, e, a). absurd cc))
  Mem-scan_objects obj_id (obj ∷ objs) =
      let first = scan_object obj obj_id symbols shared in
      let rest = concat (scan_objects (obj_id + 1) symbols shared objs) in
      let here = Mem-scan_sections obj obj_id obj.sections in
      let more = Mem-scan_objects (obj_id + 1) objs in
      (
        (λ m. elim (Mem-split s first rest m) [
          | inl i ↦ (
            0,
            obj,
            refl,
            subst (λ k. AskedInSections obj k obj.sections) (omega arith) (here.0 i),
          )
          | inr j ↦
              let (i, o, e, a) = more.0 j in
              (suc i, o, e, subst (λ k. AskedInSections o k o.sections) (omega arith) a)
        ]),
        (λ (i, o, e, a). elim (Asked-cons obj_id obj objs i o e a) [
          | inl h ↦ Mem-append_left s first rest (here.1 h)
          | inr h ↦ Mem-append_right s first rest (more.1 h)
        ]),
      )

  -- A slot is in the result of the scan exactly if some relocation of some object asks for it, and
  -- the result has no slot twice.
  pub scan_relocations-Asked :
      (objects : List InputObject)
      → Nodup (scan_relocations objects symbols shared).slots
        × (Mem s (scan_relocations objects symbols shared).slots ↔ Asked 0 objects)
  unfolding scan_relocations no_slots
  scan_relocations-Asked objects =
      let a = add_all-Adds no_slots (scan_objects 0 symbols shared objects) no_slots-IsInStep in
      let m = Mem-scan_objects 0 objects in
      (
        a.0.0,
        (
          (λ k. elim ((a.1 s).0 k) [ inl z ↦ absurd z | inr i ↦ m.0 i ]),
          (λ h. (a.1 s).1 (inr (m.1 h))),
        ),
      )
