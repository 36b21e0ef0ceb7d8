-- ===== src/Cache/Plan/Colors.antt =====
-- The colors of a plan that was made (peony-cache/src/lib.rs).
use peony.Base.{
  ℕ, ◌≡◌, refl, ap, sym, ◌∙◌, Bool, true, false, ◌||◌, ◌&&◌, not, inr, List, [], ◌∷◌, arith,
}
use peony.Base.Bytes.{Bytes, bytes_eq}
use peony.Base.Map.{get, bytes_key}
use peony.Cache.Index.{RelocReverseIndex}
use peony.Cache.Plan.{
  SectionRecord, PatchSectionRecord, PartialRelinkPlan, Names, contains, is_red, is_green,
  section_references_moved_checked, colored, plan_sections, previous_sections, plan_partial_relink,
  moved_reloc_sections,
}
use peony.Cache.Plan.Steps.{plan_sections-next, inl-ne-inr, inr-injective}
use peony.Cache.Plan.Moved.{contains-insert, contains-moved_reloc_sections}

abbrev pub same_bit : Bool → Bool → Bool
same_bit true b = b
same_bit false b = not b

-- Whether a section of that name and color is among the sections, by the test given for moved symbols.
unfoldable pub has_color : (Bytes → Bool) → Bool → Bytes → List PatchSectionRecord → Bool
has_color moved red_wanted name [] = false
has_color moved red_wanted name (current ∷ sections) =
    (bytes_eq current.name name
      && same_bit red_wanted (current.input_changed || moved current.name))
    || has_color moved red_wanted name sections

or_false : (b : Bool) → (b || false) ≡ b
or_false true = refl
or_false false = refl

is_red-colored :
    (plan : PartialRelinkPlan) (name other : Bytes) (b : Bool)
    → is_red (colored plan name b) other
      ≡ ((bytes_eq name other && same_bit true b) || is_red plan other)
unfolding colored
is_red-colored plan name other true = ground (arith, contains-insert name other plan.red_sections)
is_red-colored plan name other false = ground arith

is_green-colored :
    (plan : PartialRelinkPlan) (name other : Bytes) (b : Bool)
    → is_green (colored plan name b) other
      ≡ ((bytes_eq name other && same_bit false b) || is_green plan other)
unfolding colored
is_green-colored plan name other true = ground arith
is_green-colored plan name other false =
    ground (arith, contains-insert name other plan.green_sections)

-- The names of each color in the plan that the loop returns.
plan_sections-has_color :
    (previous : List (Bytes × SectionRecord)) (moved : Names) (sections : List PatchSectionRecord)
    (plan out : PartialRelinkPlan) (name : Bytes)
    → plan_sections previous moved sections plan ≡ inr out
    → (is_red out name ≡ (has_color (λ n. contains n moved) true name sections || is_red plan name))
      × (is_green out name
          ≡ (has_color (λ n. contains n moved) false name sections || is_green plan name))
unfolding plan_sections has_color
plan_sections-has_color previous moved [] plan out name e =
    let same : plan ≡ out = inr-injective e in
    (ap (λ p. is_red p name) (sym same), ap (λ p. is_green p name) (sym same))
plan_sections-has_color previous moved (current ∷ sections) plan out name e =
    let (cached, there, fine, rest) =
      plan_sections-next previous moved current sections plan out e in
    let emit = current.input_changed || contains current.name moved in
    let (reds, greens) =
      plan_sections-has_color previous moved sections (colored plan current.name emit) out name
        rest in
    (
      reds ∙ ground (arith, is_red-colored plan current.name name emit),
      greens ∙ ground (arith, is_green-colored plan current.name name emit),
    )

has_color-ext :
    (f g : Bytes → Bool) (b : Bool) (name : Bytes) (sections : List PatchSectionRecord)
    → ((n : Bytes) → f n ≡ g n)
    → has_color f b name sections ≡ has_color g b name sections
unfolding has_color
has_color-ext f g b name [] same = refl
has_color-ext f g b name (current ∷ sections) same =
    rw (same current.name, has_color-ext f g b name sections same) refl

-- In a plan that is made, a name is red just when a current section of that name comes from a changed input or
-- has a relocation of a moved symbol, by the test of that one section, and green just when a current section of
-- that name neither comes from a changed input nor has such a relocation.
pub plan_partial_relink-has_color :
    (cached : List SectionRecord) (sections : List PatchSectionRecord) (moved_symbol_ids : List ℕ)
    (rev_index : RelocReverseIndex) (reloc_sections : List Bytes) (plan : PartialRelinkPlan)
    (name : Bytes)
    → plan_partial_relink cached sections moved_symbol_ids rev_index reloc_sections ≡ inr plan
    → (is_red plan name
        ≡ has_color
            (λ n. section_references_moved_checked n rev_index reloc_sections moved_symbol_ids)
            true
            name
            sections)
      × (is_green plan name
          ≡ has_color
              (λ n. section_references_moved_checked n rev_index reloc_sections moved_symbol_ids)
              false
              name
              sections)
unfolding plan_partial_relink contains get
plan_partial_relink-has_color [] sections ids index rs plan name e = absurd (inl-ne-inr e)
plan_partial_relink-has_color (sec ∷ cached) [] ids index rs plan name e = absurd (inl-ne-inr e)
plan_partial_relink-has_color (sec ∷ cached) (current ∷ sections) ids index rs plan name e =
    let same = λ (n : Bytes). contains-moved_reloc_sections n index rs ids in
    let (reds, greens) =
      plan_sections-has_color (previous_sections (sec ∷ cached) [])
        (moved_reloc_sections ids index rs) (current ∷ sections)
        (record { colors = []; red_sections = []; green_sections = [] }) plan name e in
    (
      reds ∙ or_false _ ∙ has_color-ext _ _ true name (current ∷ sections) same,
      greens ∙ or_false _ ∙ has_color-ext _ _ false name (current ∷ sections) same,
    )
