-- ===== src/Emit/Footprints/Covers.antt =====
-- `patch_buf` (peony-reloc/src/apply.rs) stays within the footprint that peony-emit computes.
use peony.Base.{
  ℕ, ◌+◌, ◌-◌, ◌^◌, ◌≤◌, ◌<◌, ◌≡◌, refl, ◌⊎◌, inl, inr, Option, none, some, arith, length, subst,
}
use peony.Base.Bytes.{Bytes}
use peony.Object.{InputReloc}
use peony.Reloc.Types.{reloc_type}
use peony.Reloc.Write.{done}
use peony.Reloc.Patch.{RelocAddrs, patch_buf}
use peony.Reloc.Touches.{Touches}
use peony.Emit.Errors.{ok}
use peony.Emit.Footprints.{RelocationFootprint, window, relocation_footprint}
use peony.Emit.Footprints.Windows.{patch_type-Covers, Covers}

-- What a footprint says of the relocation's type.
footprint_window :
    (item_index reloc_index : ℕ) (reloc : InputReloc) (o : Option RelocationFootprint)
    → relocation_footprint item_index reloc_index reloc ≡ ok o
    → ((o ≡ none) × (window (reloc_type reloc.r_type) ≡ none))
      ⊎ ((pre : ℕ) × (len : ℕ) × (window (reloc_type reloc.r_type) ≡ some (pre, len))
          × (pre ≤ reloc.offset)
          × (o ≡ some (record { start = reloc.offset - pre; len = len })))
unfolding relocation_footprint
footprint_window item_index reloc_index reloc o e = go (window (reloc_type reloc.r_type)) refl
  where
    go :
        (w : Option (ℕ × ℕ))
        → window (reloc_type reloc.r_type) ≡ w
        → ((o ≡ none) × (window (reloc_type reloc.r_type) ≡ none))
          ⊎ ((pre : ℕ) × (len : ℕ) × (window (reloc_type reloc.r_type) ≡ some (pre, len))
              × (pre ≤ reloc.offset)
              × (o ≡ some (record { start = reloc.offset - pre; len = len })))
    go none k = inl (ground arith, k)
    go (some (pre, len)) k = inr (pre, len, k, ground arith, ground arith)

-- Where `relocation_footprint` gives a window that lies in the buffer (shorter than 2 ^ 64 bytes), a
-- patch at the relocation's offset does not panic, and on success and on error it keeps the
-- buffer's length and every byte outside the window.
pub patch_buf-footprint :
    (item_index reloc_index : ℕ) (reloc : InputReloc) (buf : Bytes) (r : RelocAddrs)
    (object : Bytes) (fp : RelocationFootprint)
    → r.offset ≡ reloc.offset
    → relocation_footprint item_index reloc_index reloc ≡ ok (some fp)
    → length buf < 2 ^ 64
    → fp.start + fp.len ≤ length buf
    → Touches fp.start fp.len buf (patch_buf buf reloc.r_type r object)
unfolding patch_buf
patch_buf-footprint item_index reloc_index reloc buf r object fp same e small inside =
    elim (footprint_window item_index reloc_index reloc (some fp) e) [
      | inl (c, _) ↦ cc
      | inr (pre, len, k, le, found) ↦
          let at : fp.start ≡ r.offset - pre = ground arith in
          let wide : fp.len ≡ len = ground arith in
          rw (at, wide)
            (subst (λ w. Covers w r.offset buf (patch_buf buf reloc.r_type r object)) k
              (patch_type-Covers buf reloc.r_type r object small (reloc_type reloc.r_type))
              (omega arith) (omega arith))
    ]

-- Where `relocation_footprint` gives no window, a patch of a buffer shorter than 2 ^ 64 bytes changes
-- nothing.
pub patch_buf-no_footprint :
    (item_index reloc_index : ℕ) (reloc : InputReloc) (buf : Bytes) (r : RelocAddrs)
    (object : Bytes)
    → relocation_footprint item_index reloc_index reloc ≡ ok none
    → length buf < 2 ^ 64
    → patch_buf buf reloc.r_type r object ≡ done buf
unfolding patch_buf
patch_buf-no_footprint item_index reloc_index reloc buf r object e small =
    elim (footprint_window item_index reloc_index reloc none e) [
      | inl (_, k) ↦
          subst (λ w. Covers w r.offset buf (patch_buf buf reloc.r_type r object)) k
            (patch_type-Covers buf reloc.r_type r object small (reloc_type reloc.r_type))
      | inr (pre, len, k, le, found) ↦ cc
    ]
