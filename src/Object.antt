-- ===== src/Object.antt =====
-- peony-object/src/model.rs: the parsed form of one relocatable object.
pub mod Index
use peony.Base.{ℕ, Bool, Option, List, get_elem?, ◌>>=◌}
use peony.Base.Bytes.{Bytes}
use peony.Object.Index.{IndexLookup, position}

pub data SectionKind : Type 0 where
  text read_only data_kind bss debug eh_frame merge_string merge_const : SectionKind
  init_array tdata tbss other : SectionKind

pub data Binding : Type 0 where
  local global weak : Binding

pub record InputReloc : Type 0 where
  pub offset : ℕ
  pub r_type : ℕ
  pub symbol : ℕ
  pub addend : ℕ

-- `bytes` is the field `data`.
pub record InputSection : Type 0 where
  pub index : ℕ
  pub name : Bytes
  pub kind : SectionKind
  pub sh_type : ℕ
  pub bytes : Bytes
  pub align : ℕ
  pub size : ℕ
  pub flags : ℕ
  pub relocs : List InputReloc

pub record InputSymbol : Type 0 where
  pub index : ℕ
  pub name : Bytes
  pub binding : Binding
  pub is_undefined : Bool
  pub is_common : Bool
  pub is_ifunc : Bool
  pub st_type : ℕ
  pub visibility : ℕ
  pub section : Option ℕ
  pub value : ℕ
  pub size : ℕ

pub record ComdatGroup : Type 0 where
  pub signature : Bytes
  pub members : List ℕ

pub record InputObject : Type 0 where
  pub path : Bytes
  pub sections : List InputSection
  pub symbols : List InputSymbol
  pub section_map : IndexLookup
  pub symbol_map : IndexLookup
  pub comdat_groups : List ComdatGroup

unfoldable pub section_pos : InputObject → ℕ → Option ℕ
section_pos obj raw_index = position obj.section_map raw_index

unfoldable pub section_by_index : InputObject → ℕ → Option InputSection
section_by_index obj raw_index = section_pos obj raw_index >>= λ pos. get_elem? obj.sections pos

unfoldable pub symbol_pos : InputObject → ℕ → Option ℕ
symbol_pos obj raw_index = position obj.symbol_map raw_index

unfoldable pub symbol_by_index : InputObject → ℕ → Option InputSymbol
symbol_by_index obj raw_index = symbol_pos obj raw_index >>= λ pos. get_elem? obj.symbols pos
