-- ===== src/Emit/Footprints.antt =====
-- peony-emit/src/input_work/footprints.rs: the bytes that a relocation may write.
pub mod Windows
pub mod Covers
use peony.Base.{ℕ, ◌-◌, Option, none, some, ltb, if◌then◌else◌}
use peony.Object.{InputReloc}
use peony.Reloc.Types.{
  RelocType, r64, pc32, got32, plt32, gotpcrel, r32, r32s, r16, pc16, r8, pc8, dtpoff64, tpoff64,
  tlsgd, tlsld, dtpoff32, gottpoff, tpoff32, pc64, gotoff64, gotpc32, size32, size64,
  gotpc32_tlsdesc, tlsdesc_call, gotpcrelx, rex_gotpcrelx, reloc_type,
}
use peony.Emit.Errors.{Result, ok, err, relocation_before_section}

pub record RelocationFootprint : Type 0 where
  pub start : ℕ
  pub len : ℕ

-- `(prefix_len, len)`, or `none` where the `match` returns at once.
unfoldable pub window : RelocType → Option (ℕ × ℕ)
window r64 = some (0, 8)
window pc64 = some (0, 8)
window gotoff64 = some (0, 8)
window size64 = some (0, 8)
window tpoff64 = some (0, 8)
window dtpoff64 = some (0, 8)
window r32 = some (0, 4)
window r32s = some (0, 4)
window pc32 = some (0, 4)
window size32 = some (0, 4)
window plt32 = some (0, 4)
window gotpcrel = some (0, 4)
window gotpcrelx = some (0, 4)
window rex_gotpcrelx = some (0, 4)
window got32 = some (0, 4)
window gotpc32 = some (0, 4)
window tpoff32 = some (0, 4)
window dtpoff32 = some (0, 4)
window gottpoff = some (0, 4)
window r16 = some (0, 2)
window pc16 = some (0, 2)
window r8 = some (0, 1)
window pc8 = some (0, 1)
window tlsgd = some (4, 16)
window tlsld = some (3, 12)
window gotpc32_tlsdesc = some (3, 7)
window tlsdesc_call = some (0, 2)
window _ = none

-- On a 64-bit host `usize::try_from(reloc.offset)` does not fail.
unfoldable pub relocation_footprint : ℕ → ℕ → InputReloc → Result (Option RelocationFootprint)
relocation_footprint item_index reloc_index reloc = elim (window (reloc_type reloc.r_type)) [
  | none ↦ ok none
  | some (prefix_len, len) ↦
      if ltb reloc.offset prefix_len
      then err
          (relocation_before_section item_index reloc_index reloc.r_type reloc.offset prefix_len)
      else ok (some (record { start = reloc.offset - prefix_len; len = len }))
]
