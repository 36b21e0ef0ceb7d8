-- ===== src/Layout/Group/Packed/Grouped.antt =====
-- The grouping keeps every output section packed (peony-layout/src/lib.rs, compute_layout_icf, pass 5).
use peony.Base.{
  ℕ, suc, ◌+◌, ◌^◌, ◌≤◌, ◌≡◌, refl, sym, ap, ◌∙◌, subst, List, [], ◌∷◌, Option, some, arith,
  get_elem?, inl, inr, ◌⊎◌, if◌then◌else◌, Bool-cases, Option-cases, some-injective, none-ne-some,
  unwrap_or,
}
use peony.Base.Bytes.{Bytes, bytes_eq}
use peony.Base.Map.{get, bytes_key, get-insert}
use peony.Layout.Align.{IsPower, is_power_of_two}
use peony.Layout.Align.Bounds.{is_power_of_two-IsPower}
use peony.Layout.Group.{
  Builder, new_builder, contribute, align_of, Grouping, add_section, SectionFilter, is_left_out,
  out_name_of, group_section, group_sections, group_objects, group_input_sections, symbol_anchored,
}
use peony.Layout.Group.Packed.{IsPacked, IsPacked-mono, contribute-IsPacked}
use peony.Layout.Script.{ScriptLayout}
use peony.Object.{InputSection, InputObject}

abbrev pub IsGrouped : List InputObject → ℕ → Grouping → Type 0
IsGrouped objects spent g =
    (name : Bytes) (b : Builder) → get name g.builders ≡ some b → IsPacked objects spent b

-- The bytes that the sections can take, with the gaps before them.
abbrev pub sections_room : List InputSection → ℕ
sections_room [] = 0
sections_room (sec ∷ secs) = align_of sec + sec.size + sections_room secs

abbrev pub objects_room : List InputObject → ℕ
objects_room [] = 0
objects_room (obj ∷ objects) = sections_room obj.sections + objects_room objects

module _ (objects : List InputObject) where
  IsGrouped-mono :
      (spent more : ℕ) (g : Grouping)
      → spent ≤ more
      → IsGrouped objects spent g
      → IsGrouped objects more g
  IsGrouped-mono spent more g h p name b e = IsPacked-mono objects spent more b h (p name b e)

  new_builder-IsPacked :
      (spent : ℕ) (name : Bytes) (sec : InputSection)
      → IsPower (align_of sec)
      → IsPacked objects spent (new_builder name sec (align_of sec))
  unfolding new_builder
  new_builder-IsPacked spent name sec power = record {
    power = power;
    small = omega arith;
    ordered = omega arith;
    inputs = tt;
  }

  add_section-IsGrouped :
      (spent : ℕ) (name : Bytes) (obj_idx section_pos : ℕ) (obj : InputObject) (sec : InputSection)
      (g : Grouping)
      → IsGrouped objects spent g
      → IsPower (align_of sec)
      → get_elem? objects obj_idx ≡ some obj
      → get_elem? obj.sections section_pos ≡ some sec
      → spent + (align_of sec + sec.size) ≤ 2 ^ 64
      → IsGrouped objects
          (spent + (align_of sec + sec.size))
          (add_section name obj_idx section_pos sec (align_of sec) g)
  unfolding add_section
  add_section-IsGrouped spent name obj_idx section_pos obj sec g grouped power there here room other
        b e =
      let found = unwrap_or (get name g.builders) (new_builder name sec (align_of sec)) in
      let packed : IsPacked objects spent found = elim (Option-cases (get name g.builders)) [
        | inl missing ↦ rw missing (new_builder-IsPacked spent name sec power)
        | inr (old, present) ↦ rw present (grouped name old present)
      ] in
      let now = contribute obj_idx section_pos sec (align_of sec) found in
      let at = sym (get-insert name other now g.builders) ∙ e in
      elim (Bool-cases (bytes_eq name other)) [
        | inl same ↦
            subst (IsPacked objects (spent + (align_of sec + sec.size)))
              (some-injective now b
                (sym (ap (λ t. if t then some now else get other g.builders) same) ∙ at))
              (contribute-IsPacked objects spent obj_idx section_pos obj sec found packed power
                there here room)
        | inr apart ↦
            IsPacked-mono objects spent (spent + (align_of sec + sec.size)) b (omega arith) (
              grouped other b
                (sym (ap (λ t. if t then some now else get other g.builders) apart) ∙ at))
      ]

-- The list is what the other one holds from a place on.
abbrev IsTail {ℓ} : {A : Type ℓ} → List A → ℕ → List A → Type ℓ
IsTail xs n ys = (i : ℕ) → get_elem? xs (n + i) ≡ get_elem? ys i

IsTail-head {ℓ} :
    {A : Type ℓ} (xs : List A) (n : ℕ) (y : A) (ys : List A)
    → IsTail xs n (y ∷ ys)
    → get_elem? xs n ≡ some y
IsTail-head xs n y ys h = subst (λ m. get_elem? xs m ≡ some y) (omega arith) (h 0)

IsTail-next {ℓ} :
    {A : Type ℓ} (xs : List A) (n : ℕ) (y : A) (ys : List A)
    → IsTail xs n (y ∷ ys)
    → IsTail xs (n + 1) ys
IsTail-next xs n y ys h i = subst (λ m. get_elem? xs m ≡ get_elem? ys i) (omega arith) (h (suc i))

pub Either-cases {ℓ κ} :
    {A : Type ℓ} {B : Type κ} (o : A ⊎ B) → ((a : A) × (o ≡ inl a)) ⊎ ((b : B) × (o ≡ inr b))
Either-cases (inl a) = inl (a, refl)
Either-cases (inr b) = inr (b, refl)

module _ (objects : List InputObject) (anchored : List (ℕ × ℕ)) (live : SectionFilter)
    (script : Option ScriptLayout) (fold_map : Option (List ((ℕ × ℕ) × (ℕ × ℕ)))) where
  group_section-IsGrouped :
      (spent : ℕ) (obj : InputObject) (obj_idx section_pos : ℕ) (sec : InputSection)
      (g out : Grouping)
      → IsGrouped objects spent g
      → get_elem? objects obj_idx ≡ some obj
      → get_elem? obj.sections section_pos ≡ some sec
      → spent + (align_of sec + sec.size) ≤ 2 ^ 64
      → group_section anchored live script fold_map obj obj_idx section_pos sec g ≡ inr out
      → IsGrouped objects (spent + (align_of sec + sec.size)) out
  unfolding group_section
  group_section-IsGrouped spent obj obj_idx section_pos sec g out grouped there here room e =
      elim (Bool-cases (is_left_out anchored live script fold_map obj_idx sec)) [
        | inl skipped ↦
            let same : g ≡ out = ground (arith, e, skipped) in
            subst (IsGrouped objects (spent + (align_of sec + sec.size))) same (
              IsGrouped-mono objects spent (spent + (align_of sec + sec.size)) g (omega arith)
                grouped)
        | inr taken ↦ elim (Bool-cases (is_power_of_two (align_of sec))) [
          | inl power ↦
              let same : add_section (out_name_of anchored live script fold_map sec) obj_idx
                    section_pos sec (align_of sec) g
                  ≡ out =
                ground (arith, e, taken, power) in
              subst (IsGrouped objects (spent + (align_of sec + sec.size))) same (
                add_section-IsGrouped objects spent (out_name_of anchored live script fold_map sec)
                  obj_idx section_pos obj sec g grouped
                  (is_power_of_two-IsPower (align_of sec) power) there here room)
          | inr bad ↦ absurd (ground (arith, e, taken, bad))
        ]
      ]

  group_sections-IsGrouped :
      (spent : ℕ) (obj : InputObject) (obj_idx section_pos : ℕ) (secs : List InputSection)
      (g out : Grouping)
      → IsGrouped objects spent g
      → get_elem? objects obj_idx ≡ some obj
      → IsTail obj.sections section_pos secs
      → spent + sections_room secs ≤ 2 ^ 64
      → group_sections anchored live script fold_map obj obj_idx section_pos secs g ≡ inr out
      → IsGrouped objects (spent + sections_room secs) out
  unfolding group_sections
  group_sections-IsGrouped spent obj obj_idx section_pos [] g out grouped there here room e =
      let same : g ≡ out = ground (arith, e) in
      subst (IsGrouped objects (spent + 0)) same
        (IsGrouped-mono objects spent (spent + 0) g (omega arith) grouped)
  group_sections-IsGrouped spent obj obj_idx section_pos (sec ∷ secs) g out grouped there here room
        e =
      elim (Either-cases
        (group_section anchored live script fold_map obj obj_idx section_pos sec g)) [
          | inl (err, bad) ↦ absurd (ground (arith, e, bad))
          | inr (next, step) ↦
              let rest : group_sections anchored live script fold_map obj obj_idx (section_pos + 1)
                    secs next
                  ≡ inr out =
                ground (arith, e, step) in
              let now =
                group_section-IsGrouped spent obj obj_idx section_pos sec g next grouped there
                  (IsTail-head obj.sections section_pos sec secs here) (omega arith) step in
              let done =
                group_sections-IsGrouped (spent + (align_of sec + sec.size)) obj obj_idx
                  (section_pos + 1) secs next out now there
                  (IsTail-next obj.sections section_pos sec secs here) (omega arith) rest in
              IsGrouped-mono objects (spent + (align_of sec + sec.size) + sections_room secs)
                (spent + sections_room (sec ∷ secs)) out (omega arith) done
        ]

  group_objects-IsGrouped :
      (spent obj_idx : ℕ) (rest : List InputObject) (g out : Grouping)
      → IsGrouped objects spent g
      → IsTail objects obj_idx rest
      → spent + objects_room rest ≤ 2 ^ 64
      → group_objects anchored live script fold_map obj_idx rest g ≡ inr out
      → IsGrouped objects (spent + objects_room rest) out
  unfolding group_objects
  group_objects-IsGrouped spent obj_idx [] g out grouped here room e =
      let same : g ≡ out = ground (arith, e) in
      subst (IsGrouped objects (spent + 0)) same
        (IsGrouped-mono objects spent (spent + 0) g (omega arith) grouped)
  group_objects-IsGrouped spent obj_idx (obj ∷ rest) g out grouped here room e =
      elim (Either-cases
        (group_sections anchored live script fold_map obj obj_idx 0 obj.sections g)) [
          | inl (err, bad) ↦ absurd (ground (arith, e, bad))
          | inr (next, step) ↦
              let later : group_objects anchored live script fold_map (obj_idx + 1) rest next
                  ≡ inr out =
                ground (arith, e, step) in
              let now =
                group_sections-IsGrouped spent obj obj_idx 0 obj.sections g next grouped
                  (IsTail-head objects obj_idx obj rest here)
                  (λ i. ap (get_elem? obj.sections) (omega arith)) (omega arith) step in
              let done =
                group_objects-IsGrouped (spent + sections_room obj.sections) (obj_idx + 1) rest next
                  out now (IsTail-next objects obj_idx obj rest here) (omega arith) later in
              IsGrouped-mono objects (spent + sections_room obj.sections + objects_room rest)
                (spent + objects_room (obj ∷ rest)) out (omega arith) done
        ]

-- A grouping that succeeds, of sections that take with their alignments at most 2^64 bytes, leaves each output
-- section with an alignment that is a power of two, and with contributions that are input sections, with their
-- sizes, each at a multiple of its alignment, which is a power of two and at most the output section's, and each
-- behind the one before, in the size of the output section.
pub group_input_sections-IsPacked :
    (objects : List InputObject) (live : SectionFilter) (script : Option ScriptLayout)
    (fold_map : Option (List ((ℕ × ℕ) × (ℕ × ℕ)))) (out : Grouping) (name : Bytes) (b : Builder)
    → objects_room objects ≤ 2 ^ 64
    → group_input_sections objects live script fold_map ≡ inr out
    → get name out.builders ≡ some b
    → IsPacked objects (objects_room objects) b
unfolding group_input_sections get
group_input_sections-IsPacked objects live script fold_map out name b room e found =
    IsPacked-mono objects (0 + objects_room objects) (objects_room objects) b (omega arith) (
      group_objects-IsGrouped objects (symbol_anchored 0 objects) live script fold_map 0 0 objects
        (record { builders = []; order = [] }) out
        (λ other c none_yet. absurd (none-ne-some c none_yet))
        (λ i. ap (get_elem? objects) (omega arith)) (omega arith) e name b found)
