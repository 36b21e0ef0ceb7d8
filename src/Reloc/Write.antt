-- ===== src/Reloc/Write.antt =====
-- peony-reloc/src/apply.rs, the width-checked writers, and `RelocError` of peony-reloc/src/lib.rs.
-- A writer changes the buffer in place, and so returns it on success and on error; an index or a
-- slice out of bounds panics.
use peony.Base.{
  ℕ, ◌+◌, ◌%◌, ◌^◌, ◌⊎◌, inl, inr, [], ◌∷◌, not, ◌&&◌, leb, ◌==◌, if◌then◌else◌, length,
}
use peony.Base.Bytes.{Bytes, le_bytes, splice}
use peony.Base.Word.{as_u32, sign_extend, fits_i32}
use peony.Reloc.Types.{r16, r8, code_of}

pub data RelocError : Type 0 where
  undefined_symbol : Bytes → Bytes → RelocError
  overflow : Bytes → ℕ → ℕ → ℕ → RelocError

pub data Patched : Type 0 where
  done : Bytes → Patched
  failed : RelocError → Bytes → Patched
  panicked : Patched

-- `p?; f`.
abbrev pub and_then : Patched → (Bytes → Patched) → Patched
and_then (done buf) f = f buf
and_then (failed e buf) f = failed e buf
and_then panicked f = panicked

-- `buf[off..off + bs.len()].copy_from_slice(bs)`.
unfoldable pub copy_from_slice : Bytes → ℕ → Bytes → Patched
copy_from_slice buf off bs =
    if leb (off + length bs) (length buf) then done (splice buf off bs) else panicked

unfoldable pub write_u64 : Bytes → ℕ → ℕ → Patched
write_u64 buf off val = copy_from_slice buf off (le_bytes 8 val)

unfoldable pub checked_i32_bytes : ℕ → ℕ → Bytes → ℕ → RelocError ⊎ Bytes
checked_i32_bytes val r_type object reloc_off =
    if fits_i32 val
    then inr (le_bytes 4 (as_u32 val))
    else inl (overflow object reloc_off val r_type)

unfoldable pub write_i32 : Bytes → ℕ → ℕ → ℕ → Bytes → ℕ → Patched
write_i32 buf off val r_type object reloc_off =
    elim (checked_i32_bytes val r_type object reloc_off) [
      | inl e ↦ failed e buf
      | inr bytes ↦ copy_from_slice buf off bytes
    ]

-- Accepts either zero-extended or sign-extended 32-bit values.
unfoldable pub write_u32 : Bytes → ℕ → ℕ → ℕ → Bytes → ℕ → Patched
write_u32 buf off val r_type object reloc_off =
    if not (as_u32 val == val) && not (sign_extend (2 ^ 31) val == val)
    then failed (overflow object reloc_off val r_type) buf
    else copy_from_slice buf off (le_bytes 4 (as_u32 val))

unfoldable pub write_u16 : Bytes → ℕ → ℕ → Bytes → ℕ → Patched
write_u16 buf off val object reloc_off =
    if not (sign_extend (2 ^ 15) val == val) && not (val % 2 ^ 16 == val)
    then failed (overflow object reloc_off val (code_of r16)) buf
    else copy_from_slice buf off (le_bytes 2 (val % 2 ^ 16))

unfoldable pub write_u8 : Bytes → ℕ → ℕ → Bytes → ℕ → Patched
write_u8 buf off val object reloc_off =
    if not (sign_extend (2 ^ 7) val == val) && not (val % 2 ^ 8 == val)
    then failed (overflow object reloc_off val (code_of r8)) buf
    else copy_from_slice buf off (val % 2 ^ 8 ∷ [])
