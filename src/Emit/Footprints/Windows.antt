-- ===== src/Emit/Footprints/Windows.antt =====
-- Each arm of `patch_buf` (peony-reloc/src/apply.rs) against the window of its relocation type
-- (peony-emit/src/input_work/footprints.rs).
use peony.Base.{
  ℕ, ◌+◌, ◌-◌, ◌^◌, ◌≤◌, ◌<◌, ◌≡◌, refl, inl, inr, [], ◌∷◌, Option, none, some, arith, Bool, true,
  false, le→leb, Bool-cases, if◌then◌else◌, length,
}
use peony.Base.Bytes.{Bytes}
use peony.Base.Word.{wrapping_sub}
use peony.Reloc.Types.{
  RelocType, none_reloc, r64, pc32, got32, plt32, gotpcrel, r32, r32s, r16, pc16, r8, pc8, dtpmod64,
  dtpoff64, tpoff64, tlsgd, tlsld, dtpoff32, gottpoff, tpoff32, pc64, gotoff64, gotpc32, size32,
  size64, gotpc32_tlsdesc, tlsdesc_call, tlsdesc, gotpcrelx, rex_gotpcrelx, other,
}
use peony.Reloc.Write.{Patched, done, and_then, copy_from_slice, write_i32}
use peony.Reloc.Patch.{
  RelocAddrs, in_buf, gd_prologue, lea_prologue, ie_sequence, le_sequence, ld_sequence,
  relax_gd_to_ie, relax_gd_to_le, relax_ld_to_le, relax_desc_to_ie, relax_desc_to_le,
  relax_desc_call, patch_type, absolute, relative,
}
use peony.Reloc.Touches.{
  Touches, SameOutside-refl, and_then-Touches, copy_from_slice-Touches, write_u64-Touches,
  write_i32-Touches, write_u32-Touches, write_u16-Touches, write_u8-Touches, if_prologue-Touches,
  rewrite_gd-Touches,
}
use peony.Emit.Footprints.{window}

-- A patch whose window lies in the buffer, or that has none.
abbrev pub Covers : Option (ℕ × ℕ) → ℕ → Bytes → Patched → Type 0
Covers none off buf p = p ≡ done buf
Covers (some (pre, n)) off buf p =
    pre ≤ off → off - pre + n ≤ length buf → Touches (off - pre) n buf p

module _ (buf : Bytes) (n : ℕ) (r : RelocAddrs) (object : Bytes) (small : length buf < 2 ^ 64) where
  in_buf-true : (start k : ℕ) → start + k ≤ length buf → in_buf buf start k ≡ true
  in_buf-true start k h = le→leb _ _ (omega arith)

  Covers-u64 :
      (v : ℕ) → Covers (some (0, 8)) r.offset buf (peony.Reloc.Write.write_u64 buf r.offset v)
  Covers-u64 v a b = write_u64-Touches (r.offset - 0) 8 buf r.offset v (omega arith) (omega arith) b

  Covers-i32 :
      (v : ℕ) → Covers (some (0, 4)) r.offset buf (write_i32 buf r.offset v n object r.offset)
  Covers-i32 v a b =
      write_i32-Touches (r.offset - 0) 4 buf r.offset v (omega arith) b n object r.offset
        (omega arith)

  Covers-u32 :
      (v : ℕ)
      → Covers
          (some (0, 4))
          r.offset
          buf
          (peony.Reloc.Write.write_u32 buf r.offset v n object r.offset)
  Covers-u32 v a b =
      write_u32-Touches (r.offset - 0) 4 buf r.offset v (omega arith) b n object r.offset
        (omega arith)

  Covers-u16 :
      (v : ℕ)
      → Covers
          (some (0, 2))
          r.offset
          buf
          (peony.Reloc.Write.write_u16 buf r.offset v object r.offset)
  Covers-u16 v a b =
      write_u16-Touches (r.offset - 0) 2 buf r.offset v (omega arith) b object r.offset
        (omega arith)

  Covers-u8 :
      (v : ℕ)
      → Covers
          (some (0, 1))
          r.offset
          buf
          (peony.Reloc.Write.write_u8 buf r.offset v object r.offset)
  Covers-u8 v a b =
      write_u8-Touches (r.offset - 0) 1 buf r.offset v (omega arith) b object r.offset (omega arith)

  -- Where a kept thread-local access is patched, the four bytes lie in the wider window.
  wide_i32 :
      (pre k v : ℕ)
      → pre + 4 ≤ k
      → Covers (some (pre, k)) r.offset buf (write_i32 buf r.offset v n object r.offset)
  wide_i32 pre k v w a b =
      write_i32-Touches (r.offset - pre) k buf r.offset v (omega arith) b n object r.offset
        (omega arith)

  relax_gd_to_ie-Covers : Covers (some (4, 16)) r.offset buf (relax_gd_to_ie buf n r object)
  unfolding relax_gd_to_ie
  relax_gd_to_ie-Covers a b =
      let start : wrapping_sub r.offset 4 ≡ r.offset - 4 = omega arith in
      rw (start, relax_gd_to_ie)
        (rw (in_buf-true (r.offset - 4) 16 b) (
          if_prologue-Touches (r.offset - 4) 16 buf (r.offset - 4) gd_prologue _ (omega arith)
            (rewrite_gd-Touches buf (r.offset - 4) ie_sequence _ n object r.offset refl b)))

  relax_gd_to_le-Covers : Covers (some (4, 16)) r.offset buf (relax_gd_to_le buf n r object)
  unfolding relax_gd_to_le
  relax_gd_to_le-Covers a b =
      let start : wrapping_sub r.offset 4 ≡ r.offset - 4 = omega arith in
      rw (start, relax_gd_to_le)
        (rw (in_buf-true (r.offset - 4) 16 b) (
          if_prologue-Touches (r.offset - 4) 16 buf (r.offset - 4) gd_prologue _ (omega arith)
            (rewrite_gd-Touches buf (r.offset - 4) le_sequence _ n object r.offset refl b)))

  relax_ld_to_le-Covers : Covers (some (3, 12)) r.offset buf (relax_ld_to_le buf r)
  unfolding relax_ld_to_le
  relax_ld_to_le-Covers a b =
      let start : wrapping_sub r.offset 3 ≡ r.offset - 3 = omega arith in
      rw (start, relax_ld_to_le)
        (rw (in_buf-true (r.offset - 3) 12 b) (
          copy_from_slice-Touches (r.offset - 3) 12 buf (r.offset - 3) ld_sequence (omega arith)
            (omega arith) b))

  -- The two descriptor relaxations: a copy inside the window, and the displacement behind it.
  desc_body :
      (start k v : ℕ) (bs : Bytes)
      → 3 ≤ r.offset
      → r.offset - 3 + 7 ≤ length buf
      → r.offset - 3 ≤ start
      → start + length bs ≤ r.offset - 3 + 7
      → Touches
          (r.offset - 3)
          7
          buf
          (and_then (copy_from_slice buf start bs) λ b. write_i32 b r.offset v n object r.offset)
  desc_body start k v bs a b lo hi =
      and_then-Touches (r.offset - 3) 7 buf (copy_from_slice buf start bs) _
        (copy_from_slice-Touches (r.offset - 3) 7 buf start bs lo hi b)
        (λ b' same.
          write_i32-Touches (r.offset - 3) 7 b' r.offset v (omega arith) (omega arith) n object
            r.offset (omega arith))

  relax_desc_to_ie-Covers : Covers (some (3, 7)) r.offset buf (relax_desc_to_ie buf n r object)
  unfolding relax_desc_to_ie
  relax_desc_to_ie-Covers a b =
      let start : wrapping_sub r.offset 3 ≡ r.offset - 3 = omega arith in
      rw (start, relax_desc_to_ie)
        (rw (in_buf-true (r.offset - 3) 7 b) (
          if_prologue-Touches (r.offset - 3) 7 buf (r.offset - 3) lea_prologue _ (omega arith)
            (desc_body (r.offset - 3 + 1) 0 _ (0x8b ∷ []) a b (omega arith) (omega arith))))

  relax_desc_to_le-Covers : Covers (some (3, 7)) r.offset buf (relax_desc_to_le buf n r object)
  unfolding relax_desc_to_le
  relax_desc_to_le-Covers a b =
      let start : wrapping_sub r.offset 3 ≡ r.offset - 3 = omega arith in
      rw (start, relax_desc_to_le)
        (rw (in_buf-true (r.offset - 3) 7 b) (
          if_prologue-Touches (r.offset - 3) 7 buf (r.offset - 3) lea_prologue _ (omega arith) (
            desc_body (r.offset - 3) 0 _ (0x48 ∷ 0xc7 ∷ 0xc0 ∷ 0 ∷ 0 ∷ 0 ∷ 0 ∷ []) a b (omega arith)
              (omega arith))))

  relax_desc_call-Covers : Covers (some (0, 2)) r.offset buf (relax_desc_call buf r)
  unfolding relax_desc_call
  relax_desc_call-Covers a b = elim (Bool-cases r.shared) [
    | inl e ↦ rw (e, relax_desc_call) (SameOutside-refl (r.offset - 0) 2 buf)
    | inr e ↦
        rw (e, relax_desc_call)
          (rw (in_buf-true r.offset 2 (omega arith)) (
            copy_from_slice-Touches (r.offset - 0) 2 buf r.offset (0x66 ∷ 0x90 ∷ []) (omega arith)
              (omega arith) b))
  ]

  if-Touches :
      (lo k : ℕ) (b : Bool) (p q : Patched)
      → Touches lo k buf p
      → Touches lo k buf q
      → Touches lo k buf (if b then p else q)
  if-Touches lo k true p q h g = h
  if-Touches lo k false p q h g = g

  patch_tlsgd-Covers : Covers (window tlsgd) r.offset buf (patch_type tlsgd buf n r object)
  unfolding window patch_type
  patch_tlsgd-Covers a b =
      if-Touches _ 16 r.shared _ _ (wide_i32 4 16 _ (omega arith) a b)
        (if-Touches _ 16 r.tls_imported _ _ (relax_gd_to_ie-Covers a b) (relax_gd_to_le-Covers a b))

  patch_tlsld-Covers : Covers (window tlsld) r.offset buf (patch_type tlsld buf n r object)
  unfolding window patch_type
  patch_tlsld-Covers a b =
      if-Touches _ 12 r.shared _ _ (wide_i32 3 12 _ (omega arith) a b) (relax_ld_to_le-Covers a b)

  patch_desc-Covers :
      Covers (window gotpc32_tlsdesc) r.offset buf (patch_type gotpc32_tlsdesc buf n r object)
  unfolding window patch_type
  patch_desc-Covers a b = if-Touches _ 7 r.shared _ _ (wide_i32 3 7 _ (omega arith) a b) (
      if-Touches _ 7 r.tls_imported _ _ (relax_desc_to_ie-Covers a b) (relax_desc_to_le-Covers a b))

  pub patch_type-Covers :
      (t : RelocType) → Covers (window t) r.offset buf (patch_type t buf n r object)
  unfolding window patch_type
  patch_type-Covers r64 = Covers-u64 (absolute r)
  patch_type-Covers pc64 = Covers-u64 (relative r r.s)
  patch_type-Covers gotoff64 = Covers-u64 _
  patch_type-Covers size64 = Covers-u64 _
  patch_type-Covers r32 = Covers-u32 _
  patch_type-Covers r32s = Covers-i32 _
  patch_type-Covers pc32 = Covers-i32 _
  patch_type-Covers size32 = Covers-u32 _
  patch_type-Covers plt32 = Covers-i32 _
  patch_type-Covers gotpcrel = Covers-i32 _
  patch_type-Covers gotpcrelx = Covers-i32 _
  patch_type-Covers rex_gotpcrelx = Covers-i32 _
  patch_type-Covers got32 = Covers-u32 _
  patch_type-Covers gotpc32 = Covers-i32 _
  patch_type-Covers tpoff32 = Covers-i32 _
  patch_type-Covers tpoff64 = Covers-u64 _
  patch_type-Covers dtpoff32 = Covers-i32 _
  patch_type-Covers dtpoff64 = Covers-u64 _
  patch_type-Covers tlsgd = patch_tlsgd-Covers
  patch_type-Covers tlsld = patch_tlsld-Covers
  patch_type-Covers gottpoff = Covers-i32 _
  patch_type-Covers gotpc32_tlsdesc = patch_desc-Covers
  patch_type-Covers tlsdesc_call = relax_desc_call-Covers
  patch_type-Covers r16 = Covers-u16 _
  patch_type-Covers pc16 = Covers-u16 _
  patch_type-Covers r8 = Covers-u8 _
  patch_type-Covers pc8 = Covers-u8 _
  patch_type-Covers none_reloc = refl
  patch_type-Covers dtpmod64 = refl
  patch_type-Covers tlsdesc = refl
  patch_type-Covers (other _) = refl
