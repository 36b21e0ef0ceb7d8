-- ===== src/Layout/Group/Added.antt =====
-- What one section adds to the grouping (peony-layout/src/lib.rs, compute_layout_icf, pass 5).
use peony.Base.{
  ℕ, ◌≡◌, refl, sym, ap, subst, true, [], ◌∷◌, some, inl, inr, if◌then◌else◌, Bool-cases,
  Option-cases, Mem, Mem-append_left, Mem-append_right, unwrap_or, arith, is_some,
}
use peony.Base.Bytes.{Bytes, bytes_eq, bytes_eq_iff}
use peony.Base.Map.{get, bytes_key, get-insert}
use peony.Layout.Align.{align_up}
use peony.Layout.Group.{
  SectionContribution, Builder, new_builder, contribute, Grouping, add_section,
}
use peony.Object.{InputSection}

-- One of the builder's contributions has the key.
abbrev pub HasKey : ℕ × ℕ → Builder → Type 0
HasKey key b =
    (c : SectionContribution) × Mem c b.contributions × ((c.object_id, c.section_index) ≡ key)

-- A builder of the grouping, whose name is in the order, has the key.
abbrev pub IsContributed : ℕ × ℕ → Grouping → Type 0
IsContributed key g =
    (name : Bytes) × ((b : Builder) × (get name g.builders ≡ some b)
      × Mem name g.order
      × HasKey key b)

contribute-HasKey :
    (key : ℕ × ℕ) (obj_idx section_pos : ℕ) (sec : InputSection) (align : ℕ) (b : Builder)
    → HasKey key b
    → HasKey key (contribute obj_idx section_pos sec align b)
unfolding contribute
contribute-HasKey key obj_idx section_pos sec align b (c, m, e) =
    let d : SectionContribution = record {
      object_id = obj_idx;
      section_index = sec.index;
      section_pos = section_pos;
      offset = align_up b.size align;
      size = sec.size;
    } in
    (c, Mem-append_left c b.contributions (d ∷ []) m, e)

contribute-HasKey_own :
    (obj_idx section_pos : ℕ) (sec : InputSection) (align : ℕ) (b : Builder)
    → HasKey (obj_idx, sec.index) (contribute obj_idx section_pos sec align b)
unfolding contribute
contribute-HasKey_own obj_idx section_pos sec align b =
    let c : SectionContribution = record {
      object_id = obj_idx;
      section_index = sec.index;
      section_pos = section_pos;
      offset = align_up b.size align;
      size = sec.size;
    } in
    (c, Mem-append_right c b.contributions (c ∷ []) (inl refl), refl)

-- The names of the map are in the order.
abbrev pub IsOrderOf : Grouping → Type 0
IsOrderOf g = (name : Bytes) (b : Builder) → get name g.builders ≡ some b → Mem name g.order

module _ (name : Bytes) (obj_idx section_pos : ℕ) (sec : InputSection) (align : ℕ)
    (g : Grouping) where
  abbrev pub added : Grouping
  added = add_section name obj_idx section_pos sec align g

  abbrev base_builder : Builder
  base_builder = unwrap_or (get name g.builders) (new_builder name sec align)

  -- A name that was in the order still is, and so is the section's.
  add_section-order : (other : Bytes) → Mem other g.order → Mem other added.order
  unfolding add_section
  add_section-order other m = elim (Bool-cases (is_some (get name g.builders))) [
    | inl found ↦ rw found m
    | inr missing ↦ rw missing (Mem-append_left other g.order (name ∷ []) m)
  ]

  add_section-order_own : IsOrderOf g → Mem name added.order
  unfolding add_section
  add_section-order_own ordered = elim (Option-cases (get name g.builders)) [
    | inl missing ↦ rw missing (Mem-append_right name g.order (name ∷ []) (inl refl))
    | inr (b, found) ↦ rw found (ordered name b found)
  ]

  add_section-get :
      (other : Bytes)
      → get other added.builders ≡ (
          if bytes_eq name other
          then some (contribute obj_idx section_pos sec align base_builder)
          else get other g.builders)
  unfolding add_section
  add_section-get other =
      get-insert name other (contribute obj_idx section_pos sec align base_builder) g.builders

  pub add_section-IsOrderOf : IsOrderOf g → IsOrderOf added
  add_section-IsOrderOf ordered other b e = elim (Bool-cases (bytes_eq name other)) [
    | inl same ↦
        subst (λ n. Mem n added.order) ((bytes_eq_iff name other).0 same)
          (add_section-order_own ordered)
    | inr apart ↦
        let before : get other g.builders ≡ some b =
          ground (arith, e, apart, add_section-get other) in
        add_section-order other (ordered other b before)
  ]

  pub add_section-own : IsOrderOf g → IsContributed (obj_idx, sec.index) added
  add_section-own ordered =
      let here : bytes_eq name name ≡ true = (bytes_eq_iff name name).1 refl in
      let b = contribute obj_idx section_pos sec align base_builder in
      (
        name,
        (
          b,
          ground (arith, here, add_section-get name),
          add_section-order_own ordered,
          contribute-HasKey_own obj_idx section_pos sec align base_builder,
        ),
      )

  pub add_section-IsContributed : (key : ℕ × ℕ) → IsContributed key g → IsContributed key added
  add_section-IsContributed key (other, (b, found, m, has)) =
      elim (Bool-cases (bytes_eq name other)) [
        | inl same ↦
            let equal : name ≡ other = (bytes_eq_iff name other).0 same in
            let there : get name g.builders ≡ some b =
              subst (λ n. get n g.builders ≡ some b) (sym equal) found in
            let base_is : base_builder ≡ b =
              ap (λ o. unwrap_or o (new_builder name sec align)) there in
            (
              other,
              (
                contribute obj_idx section_pos sec align base_builder,
                ground (arith, same, add_section-get other),
                add_section-order other m,
                contribute-HasKey key obj_idx section_pos sec align base_builder
                    (subst (HasKey key) (sym base_is) has),
              ),
            )
        | inr apart ↦ (
          other,
          (b, ground (arith, apart, found, add_section-get other), add_section-order other m, has),
        )
      ]
