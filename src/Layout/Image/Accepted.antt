-- ===== src/Layout/Image/Accepted.antt =====
-- When the layout of the input sections fails (peony-layout/src/lib.rs, compute_layout_icf, pass 5).
use peony.Base.{
  ℕ, zero, suc, ◌+◌, ◌<◌, ◌^◌, ◌≡◌, ◌↔◌, sym, subst, true, false, inl, inr, List, [], ◌∷◌, Option,
  some, arith, get_elem?, Mem,
}
use peony.Layout.Align.{is_power_of_two}
use peony.Layout.Align.Bounds.{is_power_of_two_iff}
use peony.Layout.Group.{
  LayoutError, bad_alignment, align_of, Grouping, SectionFilter, is_left_out, group_section,
  group_sections, group_objects, group_input_sections, symbol_anchored,
}
use peony.Layout.Group.Packed.Grouped.{Either-cases}
use peony.Layout.Image.{Buckets, lay_out}
use peony.Layout.Image.Refused.{lay_out-IsMisaligned}
use peony.Layout.Script.{ScriptLayout}
use peony.Object.{InputSection, InputObject}

-- The alignment, a field 0 read as 1, is no power of two of a word.
abbrev pub IsOdd : InputSection → Type 0
IsOdd sec = ¬ ((k : ℕ) × (k < 64) × (align_of sec ≡ 2 ^ k))

is_power_of_two-IsOdd : (sec : InputSection) → is_power_of_two (align_of sec) ≡ false → IsOdd sec
is_power_of_two-IsOdd sec h p =
    let yes = (is_power_of_two_iff (align_of sec)).1 p in absurd (ground (arith, h, yes))

module _ (anchored : List (ℕ × ℕ)) (live : SectionFilter) (script : Option ScriptLayout)
    (fold_map : Option (List ((ℕ × ℕ) × (ℕ × ℕ)))) where
  group_section-aligned :
      (obj : InputObject) (obj_idx section_pos : ℕ) (sec : InputSection) (g out : Grouping)
      → group_section anchored live script fold_map obj obj_idx section_pos sec g ≡ inr out
      → is_left_out anchored live script fold_map obj_idx sec ≡ false
      → is_power_of_two (align_of sec) ≡ true
  unfolding group_section
  group_section-aligned obj obj_idx section_pos sec g out h taken = ground (arith, h, taken)

  group_sections-aligned :
      (obj : InputObject) (obj_idx section_pos : ℕ) (secs : List InputSection) (g out : Grouping)
      (sec : InputSection)
      → group_sections anchored live script fold_map obj obj_idx section_pos secs g ≡ inr out
      → Mem sec secs
      → is_left_out anchored live script fold_map obj_idx sec ≡ false
      → is_power_of_two (align_of sec) ≡ true
  unfolding group_sections
  group_sections-aligned obj obj_idx section_pos [] g out sec h m taken = absurd m
  group_sections-aligned obj obj_idx section_pos (x ∷ secs) g out sec h m taken =
      elim (Either-cases
        (group_section anchored live script fold_map obj obj_idx section_pos x g)) [
          | inl (err, bad) ↦ absurd (ground (arith, h, bad))
          | inr (next, step) ↦
              let rest : group_sections anchored live script fold_map obj obj_idx (section_pos + 1)
                    secs next
                  ≡ inr out =
                ground (arith, h, step) in
              elim m [
                | inl same ↦
                    let here =
                      subst (λ y. is_left_out anchored live script fold_map obj_idx y ≡ false) same
                        taken in
                    subst (λ y. is_power_of_two (align_of y) ≡ true) (sym same)
                      (group_section-aligned obj obj_idx section_pos x g next step here)
                | inr later ↦
                    group_sections-aligned obj obj_idx (section_pos + 1) secs next out sec rest
                      later taken
              ]
        ]

  group_objects-aligned :
      (obj_idx : ℕ) (objects : List InputObject) (g out : Grouping) (i : ℕ) (obj : InputObject)
      (sec : InputSection)
      → group_objects anchored live script fold_map obj_idx objects g ≡ inr out
      → get_elem? objects i ≡ some obj
      → Mem sec obj.sections
      → is_left_out anchored live script fold_map (obj_idx + i) sec ≡ false
      → is_power_of_two (align_of sec) ≡ true
  unfolding group_objects
  group_objects-aligned obj_idx [] g out i obj sec h at m taken = absurd (ground (arith, at))
  group_objects-aligned obj_idx (x ∷ objects) g out zero obj sec h at m taken =
      elim (Either-cases (group_sections anchored live script fold_map x obj_idx 0 x.sections g)) [
        | inl (err, bad) ↦ absurd (ground (arith, h, bad))
        | inr (next, step) ↦
            let same : obj ≡ x = ground (arith, at) in
            group_sections-aligned x obj_idx 0 x.sections g next sec step
              (subst (λ y. Mem sec y.sections) same m)
              (subst (λ n. is_left_out anchored live script fold_map n sec ≡ false) (omega arith)
                taken)
      ]
  group_objects-aligned obj_idx (x ∷ objects) g out (suc i) obj sec h at m taken =
      elim (Either-cases (group_sections anchored live script fold_map x obj_idx 0 x.sections g)) [
        | inl (err, bad) ↦ absurd (ground (arith, h, bad))
        | inr (next, step) ↦
            group_objects-aligned (obj_idx + 1) objects next out i obj sec (ground (arith, h, step))
              at m
              (subst (λ n. is_left_out anchored live script fold_map n sec ≡ false) (omega arith)
                taken)
      ]

module _ (objects : List InputObject) (live : SectionFilter) (script : Option ScriptLayout)
    (fold_map : Option (List ((ℕ × ℕ) × (ℕ × ℕ)))) where
  -- The section at hand is one of the objects' that is not skipped and whose alignment is no power of two.
  abbrev pub IsBlamed : ℕ → InputObject → InputSection → Type 0
  IsBlamed i obj sec =
      (get_elem? objects i ≡ some obj)
      × Mem sec obj.sections
      × (is_left_out (symbol_anchored 0 objects) live script fold_map i sec ≡ false)
      × IsOdd sec

  module _ (base page header_size : ℕ) (synthetic : Buckets) where
    lay_out_blames :
        (e : LayoutError)
        → lay_out base page header_size script fold_map synthetic objects live ≡ inl e
        → (i : ℕ) × ((obj : InputObject) × ((sec : InputSection) × IsBlamed i obj sec
              × (e ≡ bad_alignment (align_of sec) obj.path)))
    lay_out_blames e h =
        let (i, (obj, at, (sec, m, (taken, odd, named)))) =
          lay_out-IsMisaligned objects base page header_size script fold_map synthetic live e h in
        (i, (obj, (sec, (at, m, taken, is_power_of_two-IsOdd sec odd), named)))

    lay_out_fails :
        (i : ℕ) (obj : InputObject) (sec : InputSection)
        → IsBlamed i obj sec
        → (e : LayoutError) × (lay_out base page header_size script fold_map synthetic objects live
            ≡ inl e)
    unfolding lay_out group_input_sections
    lay_out_fails i obj sec (at, m, taken, odd) =
        elim (Either-cases (group_input_sections objects live script fold_map)) [
          | inl (e, bad) ↦ (e, ground (arith, bad))
          | inr (g, grouped) ↦
              let start : Grouping = record { builders = []; order = [] } in
              let even =
                group_objects-aligned (symbol_anchored 0 objects) live script fold_map 0 objects
                  start g i obj sec grouped at m
                  (subst
                    (λ n.
                      is_left_out (symbol_anchored 0 objects) live script fold_map n sec ≡ false)
                    (omega arith) taken) in
              absurd (odd ((is_power_of_two_iff (align_of sec)).0 even))
        ]

    -- The layout of the input sections fails exactly if an object has an input section that is not skipped and whose
    -- alignment, a field 0 read as 1, is none of the 64 powers of two of a word; and the error names the alignment of
    -- such a section and its object's path.
    pub lay_out-fails_iff :
        (((e : LayoutError) × (lay_out base page header_size script fold_map synthetic objects live
              ≡ inl e))
          ↔ ((i : ℕ) × ((obj : InputObject) × ((sec : InputSection) × IsBlamed i obj sec))))
        × ((e : LayoutError)
            → lay_out base page header_size script fold_map synthetic objects live ≡ inl e
            → (i : ℕ) × ((obj : InputObject) × ((sec : InputSection) × IsBlamed i obj sec
                  × (e ≡ bad_alignment (align_of sec) obj.path))))
    lay_out-fails_iff = (
      (
        λ (e, h).
            let (i, (obj, (sec, blamed, named))) = lay_out_blames e h in (i, (obj, (sec, blamed))),
        λ (i, (obj, (sec, blamed))). lay_out_fails i obj sec blamed,
      ),
      lay_out_blames,
    )
