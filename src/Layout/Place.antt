-- ===== src/Layout/Place.antt =====
-- The placement of output sections (peony-layout/src/lib.rs, place).
pub mod Laid
use peony.Base.{ℕ, ◌+◌, Bool, true, false, List, [], ◌∷◌, ◌++◌, ◌==◌, if◌then◌else◌, length}
use peony.Base.Bytes.{Bytes, bytes_eq, codes}
use peony.Base.Map.{insert, pair_eq}
use peony.Base.Word.{wrapping_add, wrapping_sub}
use peony.Layout.Align.{align_up}
use peony.Layout.Group.{SectionContribution, Builder}
use peony.Object.{SectionKind}

-- The sources that `place` gives.
pub data SecSource : Type 0 where
  input bss_bytes got note_build_id note_gnu_property interp hash gnu_hash dynsym dynstr : SecSource
  rela_dyn dynamic plt got_plt rela_plt gnu_version gnu_version_r eh_frame_hdr : SecSource

pub record OutputSection : Type 0 where
  pub name : Bytes
  pub kind : SectionKind
  pub sh_type : ℕ
  pub sh_flags : ℕ
  pub sh_addr : ℕ
  pub sh_offset : ℕ
  pub sh_size : ℕ
  pub sh_link : ℕ
  pub sh_info : ℕ
  pub sh_addralign : ℕ
  pub sh_entsize : ℕ
  pub sh_name : ℕ
  pub shndx : ℕ
  pub contributions : List SectionContribution
  pub source : SecSource

-- SHT_SYMTAB, SHT_DYNSYM, SHT_RELA, SHT_DYNAMIC, SHT_HASH and SHT_GNU_VERSYM.
unfoldable pub entsize_of : ℕ → ℕ
entsize_of sh_type =
    if sh_type == 2
    then 24
    else if sh_type == 11
    then 24
    else if sh_type == 4
    then 24
    else if sh_type == 6
    then 16
    else if sh_type == 5
    then 4
    else if sh_type == 0x6fffffff
    then 2
    else 0

unfoldable pub source_of : Bytes → Bool → SecSource
source_of name is_nobits =
    if bytes_eq name (codes ".got")
    then got
    else if bytes_eq name (codes ".note.gnu.build-id")
    then note_build_id
    else if bytes_eq name (codes ".note.gnu.property")
    then note_gnu_property
    else if bytes_eq name (codes ".interp")
    then interp
    else if bytes_eq name (codes ".hash")
    then hash
    else if bytes_eq name (codes ".gnu.hash")
    then gnu_hash
    else if bytes_eq name (codes ".dynsym")
    then dynsym
    else if bytes_eq name (codes ".dynstr")
    then dynstr
    else if bytes_eq name (codes ".rela.dyn")
    then rela_dyn
    else if bytes_eq name (codes ".dynamic")
    then dynamic
    else if bytes_eq name (codes ".plt")
    then plt
    else if bytes_eq name (codes ".got.plt")
    then got_plt
    else if bytes_eq name (codes ".rela.plt")
    then rela_plt
    else if bytes_eq name (codes ".gnu.version")
    then gnu_version
    else if bytes_eq name (codes ".gnu.version_r")
    then gnu_version_r
    else if bytes_eq name (codes ".eh_frame_hdr")
    then eh_frame_hdr
    else if is_nobits
    then bss_bytes
    else input

abbrev pub Addresses : Type 0
Addresses = List ((ℕ × ℕ) × ℕ)

-- The four variables that `place` changes.
pub record Placement : Type 0 where
  pub va : ℕ
  pub sections : List OutputSection
  pub addresses : Addresses
  pub sec_to_out : Addresses

unfoldable pub put_addresses : ℕ → List SectionContribution → Addresses → Addresses
put_addresses sh_addr [] addresses = addresses
put_addresses sh_addr (c ∷ cs) addresses =
    put_addresses sh_addr cs
      (insert (c.object_id, c.section_index) (wrapping_add sh_addr c.offset) addresses)

unfoldable pub put_outs : ℕ → List SectionContribution → Addresses → Addresses
put_outs out_idx [] outs = outs
put_outs out_idx (c ∷ cs) outs =
    put_outs out_idx cs (insert (c.object_id, c.section_index) out_idx outs)

unfoldable pub output_section : ℕ → ℕ → Builder → OutputSection
output_section base sh_addr b = record {
  name = b.name;
  kind = b.kind;
  sh_type = b.sh_type;
  sh_flags = b.sh_flags;
  sh_addr = sh_addr;
  sh_offset = wrapping_sub sh_addr base;
  sh_size = b.size;
  sh_link = 0;
  sh_info = 0;
  sh_addralign = b.align;
  sh_entsize = entsize_of b.sh_type;
  sh_name = 0;
  shndx = 0;
  contributions = b.contributions;
  source = source_of b.name b.is_nobits;
}

unfoldable pub place_one : ℕ → Builder → Placement → Placement
place_one base b p =
    let sh_addr = align_up p.va b.align in
    record {
      va = wrapping_add sh_addr b.size;
      sections = p.sections ++ output_section base sh_addr b ∷ [];
      addresses = put_addresses sh_addr b.contributions p.addresses;
      sec_to_out = put_outs (length p.sections) b.contributions p.sec_to_out;
    }

unfoldable pub place : ℕ → List Builder → Placement → Placement
place base [] p = p
place base (b ∷ builders) p = place base builders (place_one base b p)
