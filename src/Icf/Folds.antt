-- ===== src/Icf/Folds.antt =====
-- `compute_fold_map` of peony-layout/src/icf.rs.
pub mod Sound
use peony.Base.{
  ℕ, ◌+◌, ◌%◌, ◌^◌, Bool, true, false, ◌||◌, not, List, [], ◌∷◌, Option, none, some, ◌>>=◌,
  if◌then◌else◌, length, get_elem?,
}
use peony.Base.Bytes.{Bytes, bytes_eq}
use peony.Base.Map.{get, insert, pair_eq}
use peony.Icf.Key.{FoldKey, RelocKey, content_digest, fold_key_eq}
use peony.Icf.Taint.{AddrTaint, address_taint, defines_address_significant, is_empty_name}
use peony.Object.{SectionKind, text, InputObject, InputSection, InputReloc, symbol_by_index}

unfoldable pub reloc_target_name : InputObject → ℕ → Option Bytes
reloc_target_name obj symbol = symbol_by_index obj symbol >>= λ s. some s.name

unfoldable pub key_relocs : InputObject → List InputReloc → Option (List RelocKey)
key_relocs obj [] = some []
key_relocs obj (r ∷ rs) = reloc_target_name obj r.symbol >>= λ name. key_relocs obj rs >>= λ rest.
    some (record { offset = r.offset; r_type = r.r_type; addend = r.addend; target = name } ∷ rest)

abbrev pub is_text : SectionKind → Bool
is_text text = true
is_text _ = false

unfoldable pub fold_key_for : InputObject → ℕ → ℕ → AddrTaint → Option FoldKey
fold_key_for obj obj_id pos taint = get_elem? obj.sections pos >>= λ sec.
    if not (is_text sec.kind) || is_empty_name sec.bytes
    then none
    else if defines_address_significant obj obj_id pos taint
    then none
    else (key_relocs obj sec.relocs >>= λ relocs. some (record {
      flags = sec.flags;
      digest = content_digest sec.bytes;
      len = length sec.bytes % 2 ^ 32;
      relocs = relocs;
    }))

-- The two maps of the loop. A canonical section is an object, a position and a section index.
pub record FoldState : Type 0 where
  pub canonical : List (FoldKey × (ℕ × ℕ × ℕ))
  pub folds : List ((ℕ × ℕ) × (ℕ × ℕ))

-- The bytes at an object and a position.
abbrev pub bytes_at : List InputObject → ℕ → ℕ → Option Bytes
bytes_at objects c_obj c_pos =
    get_elem? objects c_obj >>= λ obj. get_elem? obj.sections c_pos >>= λ sec. some sec.bytes

module _ (objects : List InputObject) (taint : AddrTaint) where
  -- A section with the key, which another section has.
  unfoldable pub fold_onto : FoldState → ℕ → InputSection → ℕ × ℕ × ℕ → FoldState
  fold_onto s obj_id sec (c_obj, c_pos, c_index) = elim (bytes_at objects c_obj c_pos) [
    | none ↦ s
    | some canon_bytes ↦
        if bytes_eq sec.bytes canon_bytes
        then record s { folds = insert (obj_id, sec.index) (c_obj, c_index) s.folds }
        else s
  ]

  unfoldable pub fold_section : FoldState → InputObject → ℕ → ℕ → InputSection → FoldState
  fold_section s obj obj_id pos sec = elim (fold_key_for obj obj_id pos taint) [
    | none ↦ s
    | some key ↦ elim (get key s.canonical) [
      | none ↦ record s { canonical = insert key (obj_id, pos, sec.index) s.canonical }
      | some found ↦ fold_onto s obj_id sec found
    ]
  ]

  unfoldable pub fold_sections : FoldState → InputObject → ℕ → ℕ → List InputSection → FoldState
  fold_sections s obj obj_id pos [] = s
  fold_sections s obj obj_id pos (sec ∷ secs) =
      fold_sections (fold_section s obj obj_id pos sec) obj obj_id (pos + 1) secs

  unfoldable pub fold_objects : FoldState → ℕ → List InputObject → FoldState
  fold_objects s obj_id [] = s
  fold_objects s obj_id (obj ∷ objs) =
      fold_objects (fold_sections s obj obj_id 0 obj.sections) (obj_id + 1) objs

unfoldable pub compute_fold_map : List InputObject → List ((ℕ × ℕ) × (ℕ × ℕ))
compute_fold_map objects =
    (fold_objects objects (address_taint objects) (record { canonical = []; folds = [] }) 0
      objects).folds
