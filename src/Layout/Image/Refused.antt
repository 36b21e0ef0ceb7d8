-- ===== src/Layout/Image/Refused.antt =====
-- What the layout of the input sections refuses (peony-layout/src/lib.rs, compute_layout_icf, pass 5).
use peony.Base.{
  ℕ, suc, ◌+◌, ◌≡◌, refl, subst, false, inl, inr, List, [], ◌∷◌, Option, some, arith, get_elem?,
  Mem,
}
use peony.Layout.Align.{is_power_of_two}
use peony.Layout.Group.{
  LayoutError, bad_alignment, align_of, Grouping, SectionFilter, is_left_out, group_section,
  group_sections, group_objects, group_input_sections, symbol_anchored,
}
use peony.Layout.Group.Packed.Grouped.{Either-cases}
use peony.Layout.Image.{Buckets, lay_out}
use peony.Layout.Script.{ScriptLayout}
use peony.Object.{InputSection, InputObject}

module _ (anchored : List (ℕ × ℕ)) (live : SectionFilter) (script : Option ScriptLayout)
    (fold_map : Option (List ((ℕ × ℕ) × (ℕ × ℕ)))) where
  -- The section is taken, its alignment is no power of two, and the error names both.
  abbrev pub IsMisaligned : LayoutError → ℕ → InputObject → InputSection → Type 0
  IsMisaligned e obj_idx obj sec =
      (is_left_out anchored live script fold_map obj_idx sec ≡ false)
      × (is_power_of_two (align_of sec) ≡ false)
      × (e ≡ bad_alignment (align_of sec) obj.path)

  group_section-IsMisaligned :
      (obj : InputObject) (obj_idx section_pos : ℕ) (sec : InputSection) (g : Grouping)
      (e : LayoutError)
      → group_section anchored live script fold_map obj obj_idx section_pos sec g ≡ inl e
      → IsMisaligned e obj_idx obj sec
  unfolding group_section
  group_section-IsMisaligned obj obj_idx section_pos sec g e h =
      (ground (arith, h), ground (arith, h), ground (arith, h))

  group_sections-IsMisaligned :
      (obj : InputObject) (obj_idx section_pos : ℕ) (secs : List InputSection) (g : Grouping)
      (e : LayoutError)
      → group_sections anchored live script fold_map obj obj_idx section_pos secs g ≡ inl e
      → (sec : InputSection) × Mem sec secs × IsMisaligned e obj_idx obj sec
  unfolding group_sections
  group_sections-IsMisaligned obj obj_idx section_pos [] g e h = absurd (ground (arith, h))
  group_sections-IsMisaligned obj obj_idx section_pos (sec ∷ secs) g e h =
      elim (Either-cases
        (group_section anchored live script fold_map obj obj_idx section_pos sec g)) [
          | inl (err, bad) ↦
              let same : err ≡ e = ground (arith, h, bad) in
              (
                sec,
                inl refl,
                subst (λ x. IsMisaligned x obj_idx obj sec) same
                    (group_section-IsMisaligned obj obj_idx section_pos sec g err bad),
              )
          | inr (next, step) ↦
              let rest : group_sections anchored live script fold_map obj obj_idx (section_pos + 1)
                    secs next
                  ≡ inl e =
                ground (arith, h, step) in
              let (s, m, bad) =
                group_sections-IsMisaligned obj obj_idx (section_pos + 1) secs next e rest in
              (s, inr m, bad)
        ]

  group_objects-IsMisaligned :
      (obj_idx : ℕ) (objects : List InputObject) (g : Grouping) (e : LayoutError)
      → group_objects anchored live script fold_map obj_idx objects g ≡ inl e
      → (i : ℕ) × ((obj : InputObject) × (get_elem? objects i ≡ some obj)
          × ((sec : InputSection) × Mem sec obj.sections × IsMisaligned e (obj_idx + i) obj sec))
  unfolding group_objects
  group_objects-IsMisaligned obj_idx [] g e h = absurd (ground (arith, h))
  group_objects-IsMisaligned obj_idx (obj ∷ objects) g e h =
      elim (Either-cases
        (group_sections anchored live script fold_map obj obj_idx 0 obj.sections g)) [
          | inl (err, bad) ↦
              let same : err ≡ e = ground (arith, h, bad) in
              let (sec, m, why) =
                group_sections-IsMisaligned obj obj_idx 0 obj.sections g err bad in
              let here : obj_idx ≡ obj_idx + 0 = omega arith in
              (
                0,
                (
                  obj,
                  refl,
                  (
                    sec,
                    m,
                    subst (λ n. IsMisaligned e n obj sec) here
                        (subst (λ x. IsMisaligned x obj_idx obj sec) same why),
                  ),
                ),
              )
          | inr (next, step) ↦
              let rest : group_objects anchored live script fold_map (obj_idx + 1) objects next
                  ≡ inl e =
                ground (arith, h, step) in
              let (i, (found, at, (sec, m, why))) =
                group_objects-IsMisaligned (obj_idx + 1) objects next e rest in
              let there : obj_idx + 1 + i ≡ obj_idx + suc i = omega arith in
              (suc i, (found, at, (sec, m, subst (λ n. IsMisaligned e n found sec) there why)))
        ]

pub lay_out-IsMisaligned :
    (objects : List InputObject) (base page header_size : ℕ) (script : Option ScriptLayout)
    (fold_map : Option (List ((ℕ × ℕ) × (ℕ × ℕ)))) (synthetic : Buckets) (live : SectionFilter)
    (e : LayoutError)
    → lay_out base page header_size script fold_map synthetic objects live ≡ inl e
    → (i : ℕ) × ((obj : InputObject) × (get_elem? objects i ≡ some obj)
        × ((sec : InputSection) × Mem sec obj.sections
            × IsMisaligned (symbol_anchored 0 objects) live script fold_map e i obj sec))
unfolding lay_out group_input_sections
lay_out-IsMisaligned objects base page header_size script fold_map synthetic live e h =
    let start : Grouping = record { builders = []; order = [] } in
    elim (Either-cases (group_input_sections objects live script fold_map)) [
      | inr (g, grouped) ↦ absurd (ground (arith, h, grouped))
      | inl (err, bad) ↦
          let same : err ≡ e = ground (arith, h, bad) in
          let (i, (obj, at, (sec, m, why))) =
            group_objects-IsMisaligned (symbol_anchored 0 objects) live script fold_map 0 objects
              start err bad in
          (
            i,
            (
              obj,
              at,
              (
                sec,
                m,
                subst
                    (λ x. IsMisaligned (symbol_anchored 0 objects) live script fold_map x i obj sec)
                    same
                    (subst
                      (λ n.
                        IsMisaligned (symbol_anchored 0 objects) live script fold_map err n obj sec)
                      (omega arith) why),
              ),
            ),
          )
    ]
