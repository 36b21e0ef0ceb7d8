-- ===== src/Layout/Group.antt =====
-- The grouping of input sections into output sections (peony-layout/src/lib.rs, compute_layout_icf, pass 5).
pub mod Packed
pub mod Added
pub mod Contributed
pub mod Taken
use Prim.Native.Nat.{bit_and}
use peony.Base.{
  ℕ, zero, suc, ◌+◌, Bool, true, false, not, ◌&&◌, ◌||◌, ◌⊎◌, inl, inr, List, [], ◌∷◌, ◌++◌, Option,
  none, some, ◌==◌, if◌then◌else◌, length, take, drop, is_some, unwrap_or, max, leb, ltb,
}
use peony.Base.Bytes.{Bytes, bytes_eq, starts_with, codes}
use peony.Base.Map.{get, insert, bytes_key, pair_eq}
use peony.Base.Word.{wrapping_add}
use peony.Gc.Bits.{bit}
use peony.Gc.Live.{LiveSections, contains}
use peony.Layout.Align.{align_up, is_power_of_two}
use peony.Layout.Script.{ScriptLayout, is_utf8, find, output_for_input}
use peony.Link.Resolver.{contains_pair}
use peony.Object.{SectionKind, debug, bss, tbss, InputSection, InputSymbol, InputObject}

-- A text is its bytes, and so is the name of an undefined symbol, which the code makes printable.
pub data LayoutError : Type 0 where
  bad_alignment : (align : ℕ) (object : Bytes) → LayoutError
  address_overflow : LayoutError
  no_entry : (name : Bytes) → LayoutError
  undefined : (name : Bytes) → LayoutError
  phdr_count_mismatch : (predicted actual : ℕ) → LayoutError
  unsupported : (feature : Bytes) → LayoutError

pub record SectionContribution : Type 0 where
  pub object_id : ℕ
  pub section_index : ℕ
  pub section_pos : ℕ
  pub offset : ℕ
  pub size : ℕ

pub data Perm : Type 0 where
  ro rx rw : Perm

pub record Builder : Type 0 where
  pub name : Bytes
  pub kind : SectionKind
  pub sh_flags : ℕ
  pub sh_type : ℕ
  pub align : ℕ
  pub size : ℕ
  pub perm : Perm
  pub is_nobits : Bool
  pub contributions : List SectionContribution

pub data SectionFilter : Type 0 where
  all : SectionFilter
  only : List (ℕ × ℕ) → SectionFilter
  only_live : LiveSections → SectionFilter
  except_set : List (ℕ × ℕ) → SectionFilter

unfoldable pub emits : SectionFilter → ℕ × ℕ → Bool
emits all key = true
emits (only set) (o, s) = contains_pair set o s
emits (only_live live) key = contains live key
emits (except_set set) (o, s) = not (contains_pair set o s)

unfoldable pub is_debug : SectionKind → Bool
is_debug debug = true
is_debug _ = false

-- `matches!(sec.kind, SectionKind::Bss | SectionKind::Tbss)`.
unfoldable pub is_nobits_kind : SectionKind → Bool
is_nobits_kind bss = true
is_nobits_kind tbss = true
is_nobits_kind _ = false

-- The bits 1, 0 and 2 of the flags are SHF_ALLOC, SHF_WRITE and SHF_EXECINSTR.
unfoldable pub is_allocatable : Bytes → SectionKind → ℕ → Bool
is_allocatable name kind flags =
    if not (bit flags 1)
    then false
    else if is_debug kind
    then false
    else not (starts_with name (codes ".note"))

unfoldable pub perm_of : ℕ → Perm
perm_of flags = if bit flags 2 then rx else if bit flags 0 then rw else ro

-- `s.get(1..)`: the rest of a text after one byte, if that is where a character ends.
unfoldable pub after_first : Bytes → Option Bytes
after_first [] = none
after_first (b ∷ []) = some []
after_first (b ∷ c ∷ bytes) = if leb 0x80 c && ltb c 0xc0 then none else some (c ∷ bytes)

-- The part of a text before its second dot, if it starts with one.
unfoldable pub before_dot : Bytes → Bytes
before_dot s = elim (after_first s) [
  | none ↦ s
  | some rest ↦ elim (find (codes ".") rest) [ none ↦ s | some dot2 ↦ take (dot2 + 1) s ]
]

unfoldable pub output_section_name : Bytes → Bytes
output_section_name name =
    let s = if is_utf8 name then name else codes ".unknown" in
    if starts_with s (codes ".note.") then s else before_dot s

-- SHT_NOBITS, SHT_INIT_ARRAY, SHT_FINI_ARRAY, SHT_PREINIT_ARRAY, SHT_NOTE and SHT_PROGBITS.
unfoldable pub sh_type_of : Bytes → InputSection → ℕ
sh_type_of out_name sec =
    if is_nobits_kind sec.kind
    then 8
    else if bytes_eq out_name (codes ".init_array")
    then 14
    else if bytes_eq out_name (codes ".fini_array")
    then 15
    else if bytes_eq out_name (codes ".preinit_array")
    then 16
    else if starts_with out_name (codes ".note") || sec.sh_type == 7
    then 7
    else 1

-- SHF_ALLOC, SHF_WRITE, SHF_EXECINSTR and SHF_TLS.
abbrev flag_mask : ℕ
flag_mask = 0x407

unfoldable pub new_builder : Bytes → InputSection → ℕ → Builder
new_builder out_name sec align = record {
  name = out_name;
  kind = sec.kind;
  sh_flags = bit_and sec.flags flag_mask;
  sh_type = sh_type_of out_name sec;
  align = align;
  size = 0;
  perm = perm_of sec.flags;
  is_nobits = is_nobits_kind sec.kind;
  contributions = [];
}

-- The contribution of a section to its builder.
unfoldable pub contribute : ℕ → ℕ → InputSection → ℕ → Builder → Builder
contribute obj_idx section_pos sec align b =
    let off = align_up b.size align in
    record b {
      contributions =
          b.contributions
          ++ record {
            object_id = obj_idx;
            section_index = sec.index;
            section_pos = section_pos;
            offset = off;
            size = sec.size;
          }
            ∷ [];
      size = wrapping_add off sec.size;
      align = max b.align align;
    }

-- The map of the builders, and their names in the order of their first sections.
pub record Grouping : Type 0 where
  pub builders : List (Bytes × Builder)
  pub order : List Bytes

unfoldable pub add_section : Bytes → ℕ → ℕ → InputSection → ℕ → Grouping → Grouping
add_section out_name obj_idx section_pos sec align g =
    let found = get out_name g.builders in
    let b = unwrap_or found (new_builder out_name sec align) in
    record {
      builders = insert out_name (contribute obj_idx section_pos sec align b) g.builders;
      order = if is_some found then g.order else g.order ++ out_name ∷ [];
    }

unfoldable pub anchors_of : ℕ → List InputSymbol → List (ℕ × ℕ)
anchors_of obj_idx [] = []
anchors_of obj_idx (sym ∷ symbols) = elim sym.section [
  | none ↦ anchors_of obj_idx symbols
  | some sec ↦ (obj_idx, sec) ∷ anchors_of obj_idx symbols
]

unfoldable pub symbol_anchored : ℕ → List InputObject → List (ℕ × ℕ)
symbol_anchored obj_idx [] = []
symbol_anchored obj_idx (obj ∷ objects) =
    anchors_of obj_idx obj.symbols ++ symbol_anchored (obj_idx + 1) objects

abbrev pub align_of : InputSection → ℕ
align_of sec = if sec.align == 0 then 1 else sec.align

module _ (anchored : List (ℕ × ℕ)) (live : SectionFilter) (script : Option ScriptLayout)
    (fold_map : Option (List ((ℕ × ℕ) × (ℕ × ℕ)))) where
  unfoldable pub out_name_of : InputSection → Bytes
  out_name_of sec = elim script [
    | none ↦ output_section_name sec.name
    | some layout ↦ unwrap_or (output_for_input layout sec.name) (output_section_name sec.name)
  ]

  abbrev is_folded : ℕ × ℕ → Bool
  is_folded key = elim fold_map [ none ↦ false | some fm ↦ is_some (get key fm) ]

  -- Whether the loop goes on to the next section at once.
  unfoldable pub is_left_out : ℕ → InputSection → Bool
  is_left_out obj_idx sec =
      not (is_allocatable sec.name sec.kind sec.flags)
      || (sec.size == 0 && not (contains_pair anchored obj_idx sec.index))
      || not (emits live (obj_idx, sec.index))
      || is_folded (obj_idx, sec.index)

  unfoldable pub group_section :
      InputObject → ℕ → ℕ → InputSection → Grouping → LayoutError ⊎ Grouping
  group_section obj obj_idx section_pos sec g =
      if is_left_out obj_idx sec
      then inr g
      else if not (is_power_of_two (align_of sec))
      then inl (bad_alignment (align_of sec) obj.path)
      else inr (add_section (out_name_of sec) obj_idx section_pos sec (align_of sec) g)

  unfoldable pub group_sections :
      InputObject → ℕ → ℕ → List InputSection → Grouping → LayoutError ⊎ Grouping
  group_sections obj obj_idx section_pos [] g = inr g
  group_sections obj obj_idx section_pos (sec ∷ secs) g =
      elim (group_section obj obj_idx section_pos sec g) [
        | inl e ↦ inl e
        | inr g' ↦ group_sections obj obj_idx (section_pos + 1) secs g'
      ]

  unfoldable pub group_objects : ℕ → List InputObject → Grouping → LayoutError ⊎ Grouping
  group_objects obj_idx [] g = inr g
  group_objects obj_idx (obj ∷ objects) g = elim (group_sections obj obj_idx 0 obj.sections g) [
    | inl e ↦ inl e
    | inr g' ↦ group_objects (obj_idx + 1) objects g'
  ]

unfoldable pub group_input_sections :
    List InputObject
    → SectionFilter
    → Option ScriptLayout
    → Option (List ((ℕ × ℕ) × (ℕ × ℕ)))
    → LayoutError ⊎ Grouping
group_input_sections objects live script fold_map =
    group_objects (symbol_anchored 0 objects) live script fold_map 0 objects
      (record { builders = []; order = [] })
