-- ===== src/Layout/RelaDyn.antt =====
-- The assembly of `.rela.dyn` (peony-layout/src/lib.rs) from the relocations collected after layout.
pub mod Dynamic
pub mod Complete
pub mod Counted
use peony.Base.{
  ℕ, zero, suc, ◌+◌, Bool, true, false, List, [], ◌∷◌, ◌++◌, Option, none, some, ltb, leb, ◌==◌,
  if◌then◌else◌, length, unwrap_or, ◌*◌, ◌^◌,
}
use peony.Base.Bytes.{Bytes, le_bytes, from_le, slice, splice}
use peony.Base.Word.{wrapping_sub}
use peony.Reloc.Tls.{TlsDynReloc}

-- `DynBlobs`, the fields that are read or written here.
pub record DynBlobs : Type 0 where
  pub dynamic : Bytes
  pub rela_glob_dat : Bytes
  pub rela_copy : Bytes
  pub rela_dyn : Bytes

-- `Layout`, its blobs and the size of the output section `.rela.dyn`, if there is one.
pub record RelaLayout : Type 0 where
  pub dyn_blobs : DynBlobs
  pub rela_dyn_size : Option ℕ

abbrev pub rela_size : ℕ
rela_size = 24

-- `DT_RELASZ` and `DT_RELACOUNT`.
abbrev pub dt_relasz : ℕ
dt_relasz = 8

abbrev pub dt_relacount : ℕ
dt_relacount = 0x6ffffff9

-- The three words of an entry.
unfoldable pub rela : ℕ → ℕ → ℕ → Bytes
rela site info addend = le_bytes 8 site ++ le_bytes 8 info ++ le_bytes 8 addend

-- The types 8 (RELATIVE), 37 (IRELATIVE) and 1 (64).
abbrev pub relative_entry : ℕ × ℕ → Bytes
relative_entry (site, value) = rela site 8 value

abbrev pub irelative_entry : ℕ × ℕ → Bytes
irelative_entry (site, resolver) = rela site 37 resolver

abbrev pub tls_entry : TlsDynReloc → Bytes
tls_entry r = rela r.site_va (r.sym_index * 2 ^ 32 + r.r_type) r.addend

abbrev pub symbolic_entry : ℕ × ℕ × ℕ → Bytes
symbolic_entry (site, dynidx, addend) = rela site (dynidx * 2 ^ 32 + 1) addend

-- The loop over one list: entries are appended while there is room below the limit; how many were.
module _ {ℓ} {A : Type ℓ} (entry : A → Bytes) (limit : ℕ) where
  unfoldable pub fill : Bytes → List A → Bytes × ℕ
  fill bytes [] = (bytes, 0)
  fill bytes (x ∷ xs) =
      let rest = fill (bytes ++ entry x) xs in
      if ltb limit (length bytes + rela_size) then (bytes, 0) else (rest.0, rest.1 + 1)

-- The loop over the entries of `.dynamic`.
unfoldable pub patch_from : ℕ → ℕ → ℕ → ℕ → Bytes → Bytes
patch_from zero i tag value dynamic = dynamic
patch_from (suc fuel) i tag value dynamic =
    let rest = patch_from fuel (i + 16) tag value dynamic in
    if leb (i + 16) (length dynamic)
    then (if from_le (slice dynamic i 8) == tag
        then splice dynamic (i + 8) (le_bytes 8 value)
        else if from_le (slice dynamic i 8) == 0
        then dynamic
        else rest)
    else dynamic

unfoldable pub patch_dt_tag : ℕ → ℕ → Bytes → Bytes
patch_dt_tag tag value dynamic = patch_from (length dynamic) 0 tag value dynamic

unfoldable pub rela_dyn_section_size : RelaLayout → ℕ
rela_dyn_section_size layout = unwrap_or layout.rela_dyn_size 0

unfoldable pub set_rela_dyn_size : Option ℕ → ℕ → Option ℕ
set_rela_dyn_size none size = none
set_rela_dyn_size (some _) size = some size

unfoldable pub append_all_dynamic_relocs :
    RelaLayout → List (ℕ × ℕ) → List (ℕ × ℕ) → List TlsDynReloc → List (ℕ × ℕ × ℕ) → RelaLayout
append_all_dynamic_relocs layout relative irelative tls symbolic =
    let blobs = layout.dyn_blobs in
    let suffix_len = length blobs.rela_glob_dat + length blobs.rela_copy in
    let limit = wrapping_sub (rela_dyn_section_size layout) suffix_len in
    let (b1, written) = fill relative_entry limit [] relative in
    let (b2, _) = fill irelative_entry limit b1 irelative in
    let (b3, _) = fill tls_entry limit b2 tls in
    let (b4, _) = fill symbolic_entry limit b3 symbolic in
    let bytes = b4 ++ blobs.rela_glob_dat ++ blobs.rela_copy in
    record {
      dyn_blobs = record {
        dynamic =
            patch_dt_tag dt_relasz (length bytes) (patch_dt_tag dt_relacount written blobs.dynamic);
        rela_glob_dat = [];
        rela_copy = [];
        rela_dyn = bytes;
      };
      rela_dyn_size = set_rela_dyn_size layout.rela_dyn_size (length bytes);
    }
