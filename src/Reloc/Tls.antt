-- ===== src/Reloc/Tls.antt =====
-- peony-reloc/src/tls.rs: the contents of the TLS region of the GOT and its dynamic relocations;
-- `TlsGotInfo`, and the part of `Layout` that they read, of peony-layout/src/lib.rs.
pub mod Room
use peony.Base.{
  ℕ, ◌+◌, ◌*◌, Bool, true, false, not, ◌&&◌, List, [], ◌∷◌, ◌++◌, Option, none, some, ◌>>=◌,
  is_some, unwrap_or, if◌then◌else◌, length, get_elem?,
}
use peony.Base.Word.{wrapping_add, wrapping_sub}
use peony.Base.Map.{get, pair_eq}
use peony.Object.{InputObject}
use peony.Symbols.Resolution.{SymbolResolution}
use peony.Symbols.Table.{SymbolTable, lookup}
use peony.Symbols.Updates.{name_by_id}
use peony.Reloc.Types.{code_of, dtpmod64, dtpoff64, tpoff64, tlsdesc}
use peony.Reloc.Slots.{TlsRef, local_ref, global_ref, ref_key_eq}

pub record TlsGotInfo : Type 0 where
  pub gd : List TlsRef
  pub ie : List TlsRef
  pub desc : List TlsRef
  pub ldm : Bool

unfoldable pub byte_size : TlsGotInfo → ℕ
byte_size tls =
    length tls.gd * 16 + length tls.desc * 16 + (if tls.ldm then 16 else 0) + length tls.ie * 8

abbrev is_nil : List TlsRef → Bool
is_nil [] = true
is_nil (_ ∷ _) = false

unfoldable pub is_unused : TlsGotInfo → Bool
is_unused tls = is_nil tls.gd && is_nil tls.ie && is_nil tls.desc && not tls.ldm

-- The keys of `tls_offsets` are an object and a section.
pub record TlsLayout : Type 0 where
  pub tls_size : ℕ
  pub tls_offsets : List ((ℕ × ℕ) × ℕ)
  pub tls_gd_addr : List (TlsRef × ℕ)
  pub tls_ie_addr : List (TlsRef × ℕ)
  pub tls_desc_addr : List (TlsRef × ℕ)
  pub tls_ldm_addr : Option ℕ

unfoldable pub tls_offset : TlsLayout → ℕ → ℕ → Option ℕ
tls_offset layout object_id section_index = get (object_id, section_index) layout.tls_offsets

-- The resolution behind an id.
abbrev pub resolution_of : SymbolTable → ℕ → Option SymbolResolution
resolution_of symbols id = name_by_id symbols id >>= λ name. lookup symbols name

-- An offset in the TLS block, and whether the symbol is imported.
abbrev global_offset : TlsLayout → SymbolResolution → Option ℕ → Option ℕ → Option (ℕ × Bool)
global_offset layout res (some def) (some si) =
    tls_offset layout def si >>= λ base. some (wrapping_add base res.value, false)
global_offset layout res _ _ = some (0, true)

unfoldable pub tls_ref_offset :
    TlsRef → List InputObject → SymbolTable → TlsLayout → Option (ℕ × Bool)
tls_ref_offset (local_ref obj_id sym_pos) objects symbols layout =
    get_elem? objects obj_id >>= λ obj. get_elem? obj.symbols sym_pos >>= λ sym.
    sym.section >>= λ si.
    tls_offset layout obj_id si >>= λ base. some (wrapping_add base sym.value, false)
tls_ref_offset (global_ref id) objects symbols layout =
    resolution_of symbols id >>= λ res. global_offset layout res res.defined_in res.section_index

unfoldable pub tls_ref_dynidx : TlsRef → SymbolTable → ℕ
tls_ref_dynidx (local_ref _ _) symbols = 0
tls_ref_dynidx (global_ref id) symbols = elim (resolution_of symbols id) [
  | none ↦ 0
  | some r ↦ r.dynsym_index
]

pub record TlsDynReloc : Type 0 where
  pub site_va : ℕ
  pub r_type : ℕ
  pub sym_index : ℕ
  pub addend : ℕ

pub record TlsGotContents : Type 0 where
  pub relocs : List TlsDynReloc
  pub static_writes : List (ℕ × ℕ)

abbrev pub push_reloc : TlsGotContents → TlsDynReloc → TlsGotContents
push_reloc c r = record c { relocs = c.relocs ++ r ∷ [] }

abbrev pub push_write : TlsGotContents → ℕ → ℕ → TlsGotContents
push_write c va value = record c { static_writes = c.static_writes ++ (va, value) ∷ [] }

abbrev dyn : ℕ → ℕ → ℕ → ℕ → TlsDynReloc
dyn site_va r_type sym_index addend = record {
  site_va = site_va;
  r_type = r_type;
  sym_index = sym_index;
  addend = addend;
}

-- `unwrap_or((0, true))`.
abbrev pub offset_or : Option (ℕ × Bool) → ℕ × Bool
offset_or o = unwrap_or o (0, true)

-- The round of each loop, for a reference at an address, with its offset and whether it is imported.
unfoldable pub push_gd : TlsGotContents → ℕ → ℕ → ℕ → Bool → TlsGotContents
push_gd c pair dynidx offset true =
    push_reloc (push_reloc c (dyn pair (code_of dtpmod64) dynidx 0))
      (dyn (wrapping_add pair 8) (code_of dtpoff64) dynidx 0)
push_gd c pair dynidx offset false =
    push_write (push_reloc c (dyn pair (code_of dtpmod64) 0 0)) (wrapping_add pair 8) offset

unfoldable pub push_desc : TlsGotContents → ℕ → ℕ → ℕ → Bool → TlsGotContents
push_desc c pair dynidx offset imported =
    push_reloc c
      (dyn pair (code_of tlsdesc) (if imported then dynidx else 0) (if imported then 0 else offset))

unfoldable pub push_ie : ℕ → Bool → TlsGotContents → ℕ → ℕ → ℕ → Bool → TlsGotContents
push_ie tls_size shared c slot dynidx offset true =
    push_reloc c (dyn slot (code_of tpoff64) dynidx 0)
push_ie tls_size true c slot dynidx offset false =
    push_reloc c (dyn slot (code_of tpoff64) 0 offset)
push_ie tls_size false c slot dynidx offset false = push_write c slot (wrapping_sub offset tls_size)

-- One of the three loops: the round takes the contents, the address, the index in the dynamic symbol
-- table, the offset and whether the reference is imported.
abbrev pub Round : Type 0
Round = TlsGotContents → ℕ → ℕ → ℕ → Bool → TlsGotContents

module _ (objects : List InputObject) (symbols : SymbolTable) (layout : TlsLayout) where
  abbrev pub found : TlsRef → ℕ × Bool
  found tref = offset_or (tls_ref_offset tref objects symbols layout)

  unfoldable pub collect_refs :
      Round → List (TlsRef × ℕ) → List TlsRef → TlsGotContents → TlsGotContents
  collect_refs push addrs [] c = c
  collect_refs push addrs (tref ∷ trefs) c = collect_refs push addrs trefs (elim (get tref addrs) [
    | none ↦ c
    | some va ↦ push c va (tls_ref_dynidx tref symbols) (found tref).0 (found tref).1
  ])

  -- The pair of the module.
  unfoldable pub collect_ldm : Option ℕ → TlsGotContents → TlsGotContents
  collect_ldm none c = c
  collect_ldm (some ldm) c =
      push_write (push_reloc c (dyn ldm (code_of dtpmod64) 0 0)) (wrapping_add ldm 8) 0

  unfoldable pub no_contents : TlsGotContents
  no_contents = record { relocs = []; static_writes = [] }

  unfoldable pub collect_shared : TlsGotInfo → TlsGotContents
  collect_shared tls = collect_ldm layout.tls_ldm_addr (
      collect_refs push_desc layout.tls_desc_addr tls.desc
        (collect_refs push_gd layout.tls_gd_addr tls.gd no_contents))

  unfoldable pub collect_tls_got : TlsGotInfo → Bool → TlsGotContents
  collect_tls_got tls shared =
      collect_refs (push_ie layout.tls_size shared) layout.tls_ie_addr tls.ie
        (if shared then collect_shared tls else no_contents)

-- The closure `imported`.
unfoldable pub is_imported_ref : SymbolTable → TlsRef → Bool
is_imported_ref symbols (local_ref _ _) = false
is_imported_ref symbols (global_ref id) = elim (resolution_of symbols id) [
  | none ↦ true
  | some r ↦ not (is_some r.defined_in)
]

-- The sum over the General-Dynamic pairs.
unfoldable pub count_gd : SymbolTable → List TlsRef → ℕ
count_gd symbols [] = 0
count_gd symbols (t ∷ ts) = (if is_imported_ref symbols t then 2 else 1) + count_gd symbols ts

unfoldable pub count_tls_relocs : SymbolTable → TlsGotInfo → Bool → ℕ
count_tls_relocs symbols tls shared =
    if not shared
    then length tls.ie
    else count_gd symbols tls.gd + length tls.desc + length tls.ie + (if tls.ldm then 1 else 0)
