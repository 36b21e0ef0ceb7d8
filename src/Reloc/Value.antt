-- ===== src/Reloc/Value.antt =====
-- What the writers of peony-reloc/src/apply.rs store and when they refuse: the field in the buffer
-- against the number that it should hold.
use peony.Base.{
  ℕ, ◌+◌, ◌%◌, ◌^◌, ◌≤◌, ◌<◌, ◌≡◌, refl, ◌∙◌, ap, subst, ◌⊎◌, inl, inr, arith, Bool, true, false,
  not, ◌&&◌, ◌==◌, le→leb, length, [], ◌∷◌, Bool-cases, if◌then◌else◌,
}
use peony.Base.Bytes.{
  Bytes, le_bytes, from_le, splice, slice, slice-splice, from_le-le_bytes, length-le_bytes,
}
use peony.Base.Word.{fits_i32, sign_extend, as_u32}
use peony.Reloc.Types.{r16, r8, code_of}
use peony.Reloc.Write.{
  RelocError, overflow, Patched, done, failed, copy_from_slice, write_u64, write_i32, write_u32,
  write_u16, write_u8, checked_i32_bytes,
}

-- The kinds of field: eight bytes, or fewer bytes that hold a signed number, or one that may be
-- read either way.
pub data Field : Type 0 where
  word64 signed32 either32 either16 either8 : Field

abbrev pub width : Field → ℕ
width word64 = 8
width signed32 = 4
width either32 = 4
width either16 = 2
width either8 = 1

-- Whether the 64-bit pattern `v` is a number that the field can hold; patterns from 2 ^ 63 on are
-- negative numbers.
abbrev pub Fits : Field → ℕ → Type 0
Fits word64 v = v < 2 ^ 64
Fits signed32 v = (v < 2 ^ 31) ⊎ (2 ^ 64 ≤ v + 2 ^ 31)
Fits either32 v = (v < 2 ^ 32) ⊎ (2 ^ 64 ≤ v + 2 ^ 31)
Fits either16 v = (v < 2 ^ 16) ⊎ (2 ^ 64 ≤ v + 2 ^ 15)
Fits either8 v = (v < 2 ^ 8) ⊎ (2 ^ 64 ≤ v + 2 ^ 7)

-- The patch stores the low bytes of `v`.
abbrev pub Stores : ℕ → ℕ → ℕ → Patched → Type 0
Stores off n v p = (buf' : Bytes) × (p ≡ done buf') × (from_le (slice buf' off n) ≡ v % 256 ^ n)

-- The patch stores `v` if it fits the field, and else fails and leaves the buffer as it was.
abbrev pub Writes : Field → Bytes → ℕ → ℕ → Patched → Type 0
Writes f buf off v p =
    (Fits f v × Stores off (width f) v p) ⊎ ((¬ Fits f v) × ((e : RelocError) × (p ≡ failed e buf)))

module _ (buf : Bytes) (off : ℕ) where
  copy-Stores :
      (n v : ℕ)
      → off + n ≤ length buf
      → v < 256 ^ n
      → (buf' : Bytes) × (copy_from_slice buf off (le_bytes n v) ≡ done buf')
        × (from_le (slice buf' off n) ≡ v)
  unfolding copy_from_slice splice
  copy-Stores n v inside small =
      let len = length-le_bytes n v in
      let room : off + length (le_bytes n v) ≤ length buf = omega (arith, len) in
      (
        splice buf off (le_bytes n v),
        rw (le→leb _ _ room, copy_from_slice) refl,
        subst (λ k. from_le (slice (splice buf off (le_bytes n v)) off k) ≡ v) len
            (ap from_le (slice-splice buf off (le_bytes n v) room) ∙ from_le-le_bytes n v small),
      )

  pub write_u64-Writes :
      (v : ℕ) → off + 8 ≤ length buf → v < 2 ^ 64 → Writes word64 buf off v (write_u64 buf off v)
  unfolding write_u64
  write_u64-Writes v inside small =
      let (b, e, q) = copy-Stores 8 v inside small in inl (small, (b, e, omega arith))

  -- A writer that refuses the values that do not fit.
  refused-Writes :
      (f : Field) (v : ℕ) (refused : Bool) (e : RelocError)
      → (refused ≡ true → ¬ Fits f v)
      → (refused ≡ false → Fits f v)
      → off + width f ≤ length buf
      → v % 256 ^ width f < 256 ^ width f
      → Writes f buf off v (
          if refused
          then failed e buf
          else copy_from_slice buf off (le_bytes (width f) (v % 256 ^ width f)))
  refused-Writes f v true e over fit inside small = inr (over refl, (e, refl))
  refused-Writes f v false e over fit inside small =
      inl (fit refl, copy-Stores (width f) (v % 256 ^ width f) inside small)

  pub write_i32-Writes :
      (v n : ℕ) (object : Bytes) (reloc_off : ℕ)
      → off + 4 ≤ length buf
      → v < 2 ^ 64
      → Writes signed32 buf off v (write_i32 buf off v n object reloc_off)
  unfolding write_i32 checked_i32_bytes
  write_i32-Writes v n object reloc_off inside small =
      let e = overflow object reloc_off v n in
      elim (Bool-cases (fits_i32 v)) [
        | inl h ↦
            rw (h, write_i32, checked_i32_bytes)
              (refused-Writes signed32 v false e (λ k. absurd cc) (λ _. ground (arith, h)) inside
                (omega arith))
        | inr h ↦
            rw (h, write_i32, checked_i32_bytes)
              (refused-Writes signed32 v true e (λ _ k. ground (arith, h, k)) (λ k. absurd cc)
                inside (omega arith))
      ]

  pub write_u32-Writes :
      (v n : ℕ) (object : Bytes) (reloc_off : ℕ)
      → off + 4 ≤ length buf
      → v < 2 ^ 64
      → Writes either32 buf off v (write_u32 buf off v n object reloc_off)
  unfolding write_u32
  write_u32-Writes v n object reloc_off inside small =
      refused-Writes either32 v (not (as_u32 v == v) && not (sign_extend (2 ^ 31) v == v))
        (overflow object reloc_off v n) (λ h k. ground (arith, h, k)) (λ h. ground (arith, h))
        inside (omega arith)

  pub write_u16-Writes :
      (v : ℕ) (object : Bytes) (reloc_off : ℕ)
      → off + 2 ≤ length buf
      → v < 2 ^ 64
      → Writes either16 buf off v (write_u16 buf off v object reloc_off)
  unfolding write_u16
  write_u16-Writes v object reloc_off inside small =
      refused-Writes either16 v (not (sign_extend (2 ^ 15) v == v) && not (v % 2 ^ 16 == v))
        (overflow object reloc_off v (code_of r16)) (λ h k. ground (arith, h, k))
        (λ h. ground (arith, h)) inside (omega arith)

  pub write_u8-Writes :
      (v : ℕ) (object : Bytes) (reloc_off : ℕ)
      → off + 1 ≤ length buf
      → v < 2 ^ 64
      → Writes either8 buf off v (write_u8 buf off v object reloc_off)
  unfolding write_u8
  write_u8-Writes v object reloc_off inside small =
      let byte : v % 256 % 256 ≡ v % 2 ^ 8 = omega arith in
      let refused = not (sign_extend (2 ^ 7) v == v) && not (v % 2 ^ 8 == v) in
      let e = overflow object reloc_off v (code_of r8) in
      subst
        (λ b.
          Writes either8 buf off v
            (if refused then failed e buf else copy_from_slice buf off (b ∷ [])))
        byte
        (refused-Writes either8 v refused e (λ h k. ground (arith, h, k)) (λ h. ground (arith, h))
          inside (omega arith))
