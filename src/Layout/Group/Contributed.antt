-- ===== src/Layout/Group/Contributed.antt =====
-- Every input section that is not skipped contributes to an output section (peony-layout/src/lib.rs,
-- compute_layout_icf, pass 5).
use peony.Base.{
  ℕ, zero, suc, ◌+◌, ◌≡◌, sym, subst, false, List, [], ◌∷◌, Option, some, get_elem?, inl, inr,
  Bool-cases, Mem, some-injective, none-ne-some, arith,
}
use peony.Base.Map.{get, bytes_key}
use peony.Layout.Align.{is_power_of_two}
use peony.Layout.Group.{
  align_of, Grouping, add_section, SectionFilter, is_left_out, out_name_of, group_section,
  group_sections, group_objects, group_input_sections, symbol_anchored,
}
use peony.Layout.Group.Added.{
  IsContributed, IsOrderOf, add_section-IsOrderOf, add_section-own, add_section-IsContributed,
}
use peony.Layout.Group.Packed.Grouped.{Either-cases}
use peony.Layout.Script.{ScriptLayout}
use peony.Object.{InputSection, InputObject}

-- What every later round keeps.
abbrev Keeps : Grouping → Grouping → Type 0
Keeps g out = ((key : ℕ × ℕ) → IsContributed key g → IsContributed key out) × IsOrderOf out

module _ (anchored : List (ℕ × ℕ)) (live : SectionFilter) (script : Option ScriptLayout)
    (fold_map : Option (List ((ℕ × ℕ) × (ℕ × ℕ)))) where
  group_section-Keeps :
      (obj : InputObject) (obj_idx section_pos : ℕ) (sec : InputSection) (g out : Grouping)
      → IsOrderOf g
      → group_section anchored live script fold_map obj obj_idx section_pos sec g ≡ inr out
      → Keeps g out
        × ((is_left_out anchored live script fold_map obj_idx sec ≡ false)
            → IsContributed (obj_idx, sec.index) out)
  unfolding group_section
  group_section-Keeps obj obj_idx section_pos sec g out ordered e =
      elim (Bool-cases (is_left_out anchored live script fold_map obj_idx sec)) [
        | inl skipped ↦
            let same : g ≡ out = ground (arith, e, skipped) in
            subst
              (λ o.
                Keeps g o
                × ((is_left_out anchored live script fold_map obj_idx sec ≡ false)
                    → IsContributed (obj_idx, sec.index) o))
              same (((λ key h. h), ordered), λ taken. absurd (ground (arith, skipped, taken)))
        | inr taken ↦ elim (Bool-cases (is_power_of_two (align_of sec))) [
          | inl power ↦
              let name = out_name_of anchored live script fold_map sec in
              let same : add_section name obj_idx section_pos sec (align_of sec) g ≡ out =
                ground (arith, e, taken, power) in
              subst
                (λ o.
                  Keeps g o
                  × ((is_left_out anchored live script fold_map obj_idx sec ≡ false)
                      → IsContributed (obj_idx, sec.index) o))
                same
                (
                  (
                    add_section-IsContributed name obj_idx section_pos sec (align_of sec) g,
                    add_section-IsOrderOf name obj_idx section_pos sec (align_of sec) g ordered,
                  ),
                  λ _. add_section-own name obj_idx section_pos sec (align_of sec) g ordered,
                )
          | inr bad ↦ absurd (ground (arith, e, taken, bad))
        ]
      ]

  group_sections-Keeps :
      (obj : InputObject) (obj_idx section_pos : ℕ) (secs : List InputSection) (g out : Grouping)
      → IsOrderOf g
      → group_sections anchored live script fold_map obj obj_idx section_pos secs g ≡ inr out
      → Keeps g out
        × ((sec : InputSection)
            → Mem sec secs
            → is_left_out anchored live script fold_map obj_idx sec ≡ false
            → IsContributed (obj_idx, sec.index) out)
  unfolding group_sections
  group_sections-Keeps obj obj_idx section_pos [] g out ordered e =
      let same : g ≡ out = ground (arith, e) in
      (subst (Keeps g) same ((λ key h. h), ordered), λ sec m. elim m [ ])
  group_sections-Keeps obj obj_idx section_pos (sec ∷ secs) g out ordered e =
      elim (Either-cases
        (group_section anchored live script fold_map obj obj_idx section_pos sec g)) [
          | inl (err, bad) ↦ absurd (ground (arith, e, bad))
          | inr (next, step) ↦
              let rest : group_sections anchored live script fold_map obj obj_idx (section_pos + 1)
                    secs next
                  ≡ inr out =
                ground (arith, e, step) in
              let ((keeps, ordered'), own) =
                group_section-Keeps obj obj_idx section_pos sec g next ordered step in
              let ((later, ordered''), others) =
                group_sections-Keeps obj obj_idx (section_pos + 1) secs next out ordered' rest in
              (
                ((λ key h. later key (keeps key h)), ordered''),
                λ s m. elim m [
                  | inl same ↦
                      subst
                        (λ t.
                          is_left_out anchored live script fold_map obj_idx t ≡ false
                          → IsContributed (obj_idx, t.index) out)
                        (sym same) (λ taken. later (obj_idx, sec.index) (own taken))
                  | inr m' ↦ others s m'
                ],
              )
        ]

  abbrev AllContributed : Grouping → ℕ → InputObject → Type 0
  AllContributed out obj_idx obj =
      (sec : InputSection)
      → Mem sec obj.sections
      → is_left_out anchored live script fold_map obj_idx sec ≡ false
      → IsContributed (obj_idx, sec.index) out

  object_at :
      (obj_idx : ℕ) (obj : InputObject) (objects : List InputObject) (out : Grouping) (i : ℕ)
      → AllContributed out obj_idx obj
      → ((j : ℕ) (other : InputObject) (sec : InputSection)
          → get_elem? objects j ≡ some other
          → Mem sec other.sections
          → is_left_out anchored live script fold_map (obj_idx + 1 + j) sec ≡ false
          → IsContributed (obj_idx + 1 + j, sec.index) out)
      → (found : InputObject) (sec : InputSection) → get_elem? (obj ∷ objects) i ≡ some found
      → Mem sec found.sections
      → is_left_out anchored live script fold_map (obj_idx + i) sec ≡ false
      → IsContributed (obj_idx + i, sec.index) out
  object_at obj_idx obj objects out zero own others found sec e =
      subst (λ o. AllContributed out (obj_idx + 0) o) (some-injective obj found e)
        (subst (λ n. AllContributed out n obj) (omega arith) own) sec
  object_at obj_idx obj objects out (suc i) own others found sec e =
      subst
        (λ n.
          Mem sec found.sections
          → is_left_out anchored live script fold_map n sec ≡ false
          → IsContributed (n, sec.index) out)
        (omega arith) (others i found sec e)

  group_objects-Keeps :
      (obj_idx : ℕ) (objects : List InputObject) (g out : Grouping)
      → IsOrderOf g
      → group_objects anchored live script fold_map obj_idx objects g ≡ inr out
      → Keeps g out
        × ((i : ℕ) (obj : InputObject) (sec : InputSection)
            → get_elem? objects i ≡ some obj
            → Mem sec obj.sections
            → is_left_out anchored live script fold_map (obj_idx + i) sec ≡ false
            → IsContributed (obj_idx + i, sec.index) out)
  unfolding group_objects
  group_objects-Keeps obj_idx [] g out ordered e =
      let same : g ≡ out = ground (arith, e) in
      (
        subst (Keeps g) same ((λ key h. h), ordered),
        λ i obj sec found. absurd (none-ne-some obj found),
      )
  group_objects-Keeps obj_idx (obj ∷ objects) g out ordered e =
      elim (Either-cases
        (group_sections anchored live script fold_map obj obj_idx 0 obj.sections g)) [
          | inl (err, bad) ↦ absurd (ground (arith, e, bad))
          | inr (next, step) ↦
              let rest : group_objects anchored live script fold_map (obj_idx + 1) objects next
                  ≡ inr out =
                ground (arith, e, step) in
              let ((keeps, ordered'), own) =
                group_sections-Keeps obj obj_idx 0 obj.sections g next ordered step in
              let ((later, ordered''), others) =
                group_objects-Keeps (obj_idx + 1) objects next out ordered' rest in
              (
                ((λ key h. later key (keeps key h)), ordered''),
                λ i.
                    object_at obj_idx obj objects out i
                      (λ sec m taken. later (obj_idx, sec.index) (own sec m taken)) others,
              )
        ]

-- After a grouping that succeeds, an input section that the loop does not skip has contributed to one of the
-- output sections, whose name is in the order.
pub group_input_sections-IsContributed :
    (objects : List InputObject) (live : SectionFilter) (script : Option ScriptLayout)
    (fold_map : Option (List ((ℕ × ℕ) × (ℕ × ℕ)))) (out : Grouping) (i : ℕ) (obj : InputObject)
    (sec : InputSection)
    → group_input_sections objects live script fold_map ≡ inr out
    → get_elem? objects i ≡ some obj
    → Mem sec obj.sections
    → is_left_out (symbol_anchored 0 objects) live script fold_map i sec ≡ false
    → IsContributed (i, sec.index) out
unfolding group_input_sections get
group_input_sections-IsContributed objects live script fold_map out i obj sec e found m =
    let (keeps, all) =
      group_objects-Keeps (symbol_anchored 0 objects) live script fold_map 0 objects
        (record { builders = []; order = [] }) out (λ name b bad. absurd (none-ne-some b bad)) e in
    subst
      (λ n.
        is_left_out (symbol_anchored 0 objects) live script fold_map n sec ≡ false
        → IsContributed (n, sec.index) out)
      (omega arith) (all i obj sec found m)
