-- ===== src/Examples/Images.antt =====
-- Runs of the layout of input sections and of the addresses of symbols (peony-layout/src/lib.rs).
use peony.Base.{
  ℕ, ◌+◌, ◌^◌, ◌≤◌, ◌<◌, ◌≡◌, ◌↔◌, refl, sym, ap, ◌∙◌, subst, arith, false, ◌⊎◌, inl, inr, List, [],
  ◌∷◌, none, some,
}
use peony.Base.Bytes.{bytes_eq, starts_with, codes}
use peony.Base.Map.{get, insert, bytes_key, pair_eq}
use peony.Base.Sort.{insert_by, sort_unstable_by}
use peony.Gc.Bits.{bit}
use peony.Layout.Align.{align_up, is_power_from, is_power_of_two}
use peony.Layout.Group.{
  LayoutError, bad_alignment, align_of, Perm, Builder, all, Grouping, emits, is_debug,
  is_nobits_kind, is_allocatable, perm_of, after_first, before_dot, output_section_name, sh_type_of,
  new_builder, contribute, add_section, anchors_of, symbol_anchored, out_name_of, is_left_out,
  group_section, group_sections, group_objects, group_input_sections,
}
use peony.Layout.Group.Taken.{IsTaken}
use peony.Layout.Image.{
  Buckets, add_builder, bucket, name_le, arrange_list, lists_of, place_grouped, lay_out,
}
use peony.Layout.Image.Addresses.{image_room}
use peony.Layout.Image.Complete.{lay_out-HasAddress}
use peony.Layout.Image.Positions.{HasIndices}
use peony.Layout.Image.Sections.{lay_out-disjoint}
use peony.Layout.Image.Accepted.{IsBlamed, lay_out-fails_iff}
use peony.Layout.Script.{is_utf8, find}
use peony.Layout.Segments.{bytes_le, script_le, sort_builders_by_script, Segments}
use peony.Link.Resolver.{contains_pair}
use peony.Object.{InputObject, InputSection, text, data_kind}
use peony.Examples.Data.{section, object}

-- Two objects, with code in each and data in the second.
abbrev code_section : ℕ → InputSection
code_section size = record (section [] []) {
  index = 1;
  name = codes ".text.f";
  kind = text;
  align = 16;
  size = size;
  flags = 6;
}

abbrev data_section : InputSection
data_section = record (section [] []) {
  index = 2;
  name = codes ".data";
  kind = data_kind;
  align = 8;
  size = 24;
  flags = 3;
}

abbrev objects : List InputObject
objects =
    object (97 ∷ []) (code_section 20 ∷ []) []
    ∷ object (98 ∷ []) (code_section 12 ∷ data_section ∷ []) []
    ∷ []

abbrev text_builder : Builder
text_builder = record {
  name = codes ".text";
  kind = text;
  sh_flags = 6;
  sh_type = 1;
  align = 16;
  size = 44;
  perm = Perm.rx;
  is_nobits = false;
  contributions =
      record { object_id = 0; section_index = 1; section_pos = 0; offset = 0; size = 20 }
      ∷ record { object_id = 1; section_index = 1; section_pos = 0; offset = 32; size = 12 }
      ∷ [];
}

abbrev data_builder : Builder
data_builder = record {
  name = codes ".data";
  kind = data_kind;
  sh_flags = 3;
  sh_type = 1;
  align = 8;
  size = 24;
  perm = Perm.rw;
  is_nobits = false;
  contributions =
      record { object_id = 1; section_index = 2; section_pos = 1; offset = 0; size = 24 } ∷ [];
}

abbrev grouping : Grouping
grouping = record {
  builders = (codes ".text", text_builder) ∷ (codes ".data", data_builder) ∷ [];
  order = codes ".text" ∷ codes ".data" ∷ [];
}

grouped : group_input_sections objects all none none ≡ inr grouping
unfolding bit find is_utf8 starts_with bytes_eq get insert contains_pair align_up is_power_from
    is_power_of_two emits is_debug is_nobits_kind is_allocatable perm_of after_first before_dot
    output_section_name sh_type_of new_builder contribute add_section anchors_of symbol_anchored
    out_name_of is_left_out group_section group_sections group_objects group_input_sections
grouped = refl

-- No section is made by the layout itself.
abbrev nothing : Buckets
nothing = record { ro_list = []; rx_list = []; rw_pb = []; rw_bss = [] }

abbrev lists : Buckets
lists = record { ro_list = []; rx_list = text_builder ∷ []; rw_pb = data_builder ∷ []; rw_bss = [] }

-- The base 0x400000, pages of 4096 bytes and headers of as many.
abbrev base_address : ℕ
base_address = 0x400000

lists_are : lists_of base_address 4096 4096 none none nothing grouping ≡ lists
unfolding bytes_eq get insert_by sort_unstable_by bytes_le name_le script_le sort_builders_by_script
    add_builder bucket arrange_list
lists_are = refl

abbrev grouping_or : LayoutError ⊎ Grouping → Grouping
grouping_or (inl e) = grouping
grouping_or (inr g) = g

fits :
    (g : Grouping)
    → group_input_sections objects all none none ≡ inr g
    → image_room base_address 4096 4096 (lists_of base_address 4096 4096 none none nothing g)
      < 2 ^ 64
fits g e =
    let same : grouping ≡ g = ap grouping_or (sym grouped ∙ e) in
    subst
      (λ x.
        image_room base_address 4096 4096 (lists_of base_address 4096 4096 none none nothing x)
        < 2 ^ 64)
      same (subst (λ l. image_room base_address 4096 4096 l < 2 ^ 64) (sym lists_are) (omega arith))

abbrev segments : Segments
segments = place_grouped base_address 4096 4096 none none nothing grouping

laid_out : lay_out base_address 4096 4096 none none nothing objects all ≡ inr segments
unfolding lay_out
laid_out = rw (grouped, lay_out) refl

taken : IsTaken all none 1 (object (98 ∷ []) (code_section 12 ∷ data_section ∷ []) []) data_section
unfolding bit is_debug starts_with emits get
taken = (refl, refl, refl, inl (omega arith), refl, refl)

abbrev first_object : InputObject
first_object = object (97 ∷ []) (code_section 20 ∷ []) []

abbrev second_object : InputObject
second_object = object (98 ∷ []) (code_section 12 ∷ data_section ∷ []) []

code_taken : IsTaken all none 0 first_object (code_section 20)
unfolding bit is_debug starts_with emits get
code_taken = (refl, refl, refl, inl (omega arith), refl, refl)

first_object-HasIndices : HasIndices first_object
first_object-HasIndices a b (inl m) (inl n) e = m ∙ sym n
first_object-HasIndices a b (inl m) (inr n) e = absurd n
first_object-HasIndices a b (inr m) n e = absurd m

second_object-HasIndices : HasIndices second_object
second_object-HasIndices a b (inl m) (inl n) e = m ∙ sym n
second_object-HasIndices a b (inl m) (inr (inl n)) e =
    let bad : 1 ≡ 2 = sym (ap (λ x. x.index) m) ∙ e ∙ ap (λ x. x.index) n in
    absurd (omega (arith, bad))
second_object-HasIndices a b (inl m) (inr (inr n)) e = absurd n
second_object-HasIndices a b (inr (inl m)) (inl n) e =
    let bad : 2 ≡ 1 = sym (ap (λ x. x.index) m) ∙ e ∙ ap (λ x. x.index) n in
    absurd (omega (arith, bad))
second_object-HasIndices a b (inr (inl m)) (inr (inl n)) e = m ∙ sym n
second_object-HasIndices a b (inr (inl m)) (inr (inr n)) e = absurd n
second_object-HasIndices a b (inr (inr m)) n e = absurd m

lay_out-disjoint_example :
    (va : ℕ) × ((vb : ℕ) × (get (0, 1) segments.placed.addresses ≡ some va)
      × (get (1, 2) segments.placed.addresses ≡ some vb)
      × ((va + 20 ≤ vb) ⊎ (vb + 24 ≤ va)))
lay_out-disjoint_example =
    lay_out-disjoint objects base_address 4096 4096 none none nothing all segments 0 1 first_object
      second_object (code_section 20) data_section (omega arith) (12, 52, refl, refl)
      (tt, tt, tt, tt) fits laid_out refl refl first_object-HasIndices second_object-HasIndices
      (inl refl) (inr (inl refl)) code_taken taken (λ p. omega (arith, p.0))

lay_out-HasAddress_example : (va : ℕ) × (get (1, 2) segments.placed.addresses ≡ some va)
lay_out-HasAddress_example =
    lay_out-HasAddress objects base_address 4096 4096 none none nothing all segments 1
      (object (98 ∷ []) (code_section 12 ∷ data_section ∷ []) []) data_section laid_out refl
      (inr (inl refl)) taken

-- An alignment of 12 is refused.
abbrev odd_section : InputSection
odd_section = record (code_section 20) { align = 12 }

abbrev odd_objects : List InputObject
odd_objects = object (97 ∷ []) (odd_section ∷ []) [] ∷ []

lay_out-fails_iff_example :
    (((e : LayoutError) × (lay_out base_address 4096 4096 none none nothing odd_objects all
          ≡ inl e))
      ↔ ((i : ℕ) × ((obj : InputObject) × ((sec : InputSection) × IsBlamed odd_objects all none none
                i obj sec))))
    × ((e : LayoutError)
        → lay_out base_address 4096 4096 none none nothing odd_objects all ≡ inl e
        → (i : ℕ) × ((obj : InputObject) × ((sec : InputSection) × IsBlamed odd_objects all none
                none i obj sec
              × (e ≡ bad_alignment (align_of sec) obj.path))))
lay_out-fails_iff_example =
    lay_out-fails_iff odd_objects all none none base_address 4096 4096 nothing

refused :
    lay_out base_address 4096 4096 none none nothing odd_objects all
    ≡ inl (bad_alignment 12 (97 ∷ []))
unfolding bytes_eq starts_with bit get contains_pair is_power_from is_power_of_two emits is_debug
    is_allocatable is_left_out group_section group_sections group_objects group_input_sections
    lay_out
refused = refl
