-- ===== src/Reloc/Formula.antt =====
-- The values of the x86-64 psABI, and that `patch_buf` (peony-reloc/src/apply.rs) writes them.
use peony.Base.{
  ℕ, ◌+◌, ◌%◌, ◌^◌, ◌≤◌, ◌<◌, ◌≡◌, subst, Option, none, some, arith, Bool, true, false, ◌==◌,
  if◌then◌else◌, length,
}
use peony.Base.Bytes.{Bytes}
use peony.Reloc.Types.{
  RelocType, r64, pc32, got32, plt32, gotpcrel, r32, r32s, r16, pc16, r8, pc8, dtpoff64, tpoff64,
  tlsgd, tlsld, dtpoff32, gottpoff, tpoff32, pc64, gotoff64, gotpc32, size32, size64,
  gotpc32_tlsdesc, gotpcrelx, rex_gotpcrelx, reloc_type,
}
use peony.Base.Word.{wrapping_add, wrapping_sub}
use peony.Reloc.Write.{Patched, write_u64, write_i32, write_u32, write_u16, write_u8}
use peony.Reloc.Patch.{
  RelocAddrs, patch_type, patch_buf, absolute, relative, tp_offset, dtp_offset, plt_target,
}
use peony.Reloc.Value.{
  Field, word64, signed32, either32, either16, either8, width, Writes, write_u64-Writes,
  write_i32-Writes, write_u32-Writes, write_u16-Writes, write_u8-Writes,
}

-- A field that holds `plus - minus`, both unbounded sums.
pub record Formula : Type 0 where
  pub field : Field
  pub plus : ℕ
  pub minus : ℕ

abbrev the : Field → ℕ → ℕ → Option Formula
the field plus minus = some (record { field = field; plus = plus; minus = minus })

-- The table of the psABI, for the types and the link modes in which an access is not relaxed.
abbrev pub formula : RelocType → RelocAddrs → Option Formula
formula r64 r = the word64 (r.s + r.a) 0
formula pc64 r = the word64 (r.s + r.a) r.p
formula gotoff64 r = the word64 (r.s + r.a) r.got_base
formula size64 r = the word64 (r.z + r.a) 0
formula r32 r = the either32 (r.s + r.a) 0
formula r32s r = the signed32 (r.s + r.a) 0
formula pc32 r = the signed32 (r.s + r.a) r.p
formula size32 r = the either32 (r.z + r.a) 0
formula plt32 r = the signed32 ((if r.l == 0 then r.s else r.l) + r.a) r.p
formula gotpcrel r = the signed32 (r.g + r.a) r.p
formula gotpcrelx r = the signed32 (r.g + r.a) r.p
formula rex_gotpcrelx r = the signed32 (r.g + r.a) r.p
formula got32 r = the either32 (r.g + r.a) r.got_base
formula gotpc32 r = the signed32 (r.got_base + r.a) r.p
formula tpoff32 r = the signed32 (r.tls + r.a) r.tls_size
formula tpoff64 r = the word64 (r.tls + r.a) r.tls_size
formula dtpoff32 r = the signed32 (r.tls + r.a) (if r.shared then 0 else r.tls_size)
formula dtpoff64 r = the word64 (r.tls + r.a) (if r.shared then 0 else r.tls_size)
formula gottpoff r = the signed32 (r.tls_ie + r.a) r.p
formula tlsgd r = if r.shared then the signed32 (r.tls_gd + r.a) r.p else none
formula tlsld r = if r.shared then the signed32 (r.tls_ldm + r.a) r.p else none
formula gotpc32_tlsdesc r = if r.shared then the signed32 (r.tls_desc + r.a) r.p else none
formula r16 r = the either16 (r.s + r.a) 0
formula pc16 r = the either16 (r.s + r.a) r.p
formula r8 r = the either8 (r.s + r.a) 0
formula pc8 r = the either8 (r.s + r.a) r.p
formula _ r = none

-- The addresses that are subtracted are 64-bit words.
pub record AreWords (r : RelocAddrs) : Type 0 where
  pub p : r.p < 2 ^ 64
  pub got_base : r.got_base < 2 ^ 64
  pub tls_size : r.tls_size < 2 ^ 64

-- The number that the formula stands for, modulo 2 ^ 64, is written, or refused if it does not fit.
abbrev pub Follows : Option Formula → Bytes → ℕ → Patched → Type 0
Follows none buf off p = Unit
Follows (some f) buf off p =
    off + width f.field ≤ length buf
    → (v : ℕ) × (v < 2 ^ 64)
      × ((v + f.minus) % 2 ^ 64 ≡ f.plus % 2 ^ 64)
      × Writes f.field buf off v p

module _ (buf : Bytes) (n : ℕ) (r : RelocAddrs) (object : Bytes) (words : AreWords r) where
  dtp_offset_lem :
      (dtp_offset r < 2 ^ 64)
      × ((dtp_offset r + (if r.shared then 0 else r.tls_size)) % 2 ^ 64 ≡ (r.tls + r.a) % 2 ^ 64)
  dtp_offset_lem = let h = words.tls_size in ground arith

  u64-Follows :
      (plus minus v : ℕ)
      → v < 2 ^ 64
      → (v + minus) % 2 ^ 64 ≡ plus % 2 ^ 64
      → Follows (the word64 plus minus) buf r.offset (write_u64 buf r.offset v)
  u64-Follows plus minus v small e inside =
      (v, small, e, write_u64-Writes buf r.offset v inside small)

  i32-Follows :
      (plus minus v : ℕ)
      → v < 2 ^ 64
      → (v + minus) % 2 ^ 64 ≡ plus % 2 ^ 64
      → Follows (the signed32 plus minus) buf r.offset (write_i32 buf r.offset v n object r.offset)
  i32-Follows plus minus v small e inside =
      (v, small, e, write_i32-Writes buf r.offset v n object r.offset inside small)

  u32-Follows :
      (plus minus v : ℕ)
      → v < 2 ^ 64
      → (v + minus) % 2 ^ 64 ≡ plus % 2 ^ 64
      → Follows (the either32 plus minus) buf r.offset (write_u32 buf r.offset v n object r.offset)
  u32-Follows plus minus v small e inside =
      (v, small, e, write_u32-Writes buf r.offset v n object r.offset inside small)

  u16-Follows :
      (plus minus v : ℕ)
      → v < 2 ^ 64
      → (v + minus) % 2 ^ 64 ≡ plus % 2 ^ 64
      → Follows (the either16 plus minus) buf r.offset (write_u16 buf r.offset v object r.offset)
  u16-Follows plus minus v small e inside =
      (v, small, e, write_u16-Writes buf r.offset v object r.offset inside small)

  u8-Follows :
      (plus minus v : ℕ)
      → v < 2 ^ 64
      → (v + minus) % 2 ^ 64 ≡ plus % 2 ^ 64
      → Follows (the either8 plus minus) buf r.offset (write_u8 buf r.offset v object r.offset)
  u8-Follows plus minus v small e inside =
      (v, small, e, write_u8-Writes buf r.offset v object r.offset inside small)

  -- The value `X + A - P`, whatever the address `X`.
  relative-Follows :
      (x : ℕ)
      → Follows
          (the signed32 (x + r.a) r.p)
          buf
          r.offset
          (write_i32 buf r.offset (relative r x) n object r.offset)
  relative-Follows x =
      let h = words.p in i32-Follows (x + r.a) r.p (relative r x) (omega arith) (omega arith)

  -- The access is kept in a shared object.
  shared-Follows :
      (x : ℕ) (relaxed : Patched)
      → Follows
          (if r.shared then the signed32 (x + r.a) r.p else none)
          buf
          r.offset
          (if r.shared then write_i32 buf r.offset (relative r x) n object r.offset else relaxed)
  shared-Follows x relaxed = go r.shared
    where
      go :
          (b : Bool)
          → Follows
              (if b then the signed32 (x + r.a) r.p else none)
              buf
              r.offset
              (if b then write_i32 buf r.offset (relative r x) n object r.offset else relaxed)
      go true = relative-Follows x
      go false = tt

  patch_type-Follows :
      (t : RelocType) → Follows (formula t r) buf r.offset (patch_type t buf n r object)
  unfolding patch_type
  patch_type-Follows r64 = u64-Follows (r.s + r.a) 0 (absolute r) (omega arith) (omega arith)
  patch_type-Follows pc64 =
      let h = words.p in u64-Follows (r.s + r.a) r.p (relative r r.s) (omega arith) (omega arith)
  patch_type-Follows gotoff64 =
      let h = words.got_base in
      u64-Follows (r.s + r.a) r.got_base (wrapping_sub (absolute r) r.got_base) (omega arith)
        (omega arith)
  patch_type-Follows size64 =
      u64-Follows (r.z + r.a) 0 (wrapping_add r.z r.a) (omega arith) (omega arith)
  patch_type-Follows r32 = u32-Follows (r.s + r.a) 0 (absolute r) (omega arith) (omega arith)
  patch_type-Follows r32s = i32-Follows (r.s + r.a) 0 (absolute r) (omega arith) (omega arith)
  patch_type-Follows pc32 = relative-Follows r.s
  patch_type-Follows size32 =
      u32-Follows (r.z + r.a) 0 (wrapping_add r.z r.a) (omega arith) (omega arith)
  patch_type-Follows plt32 = relative-Follows (plt_target r)
  patch_type-Follows gotpcrel = relative-Follows r.g
  patch_type-Follows gotpcrelx = relative-Follows r.g
  patch_type-Follows rex_gotpcrelx = relative-Follows r.g
  patch_type-Follows got32 =
      let h = words.got_base in
      u32-Follows (r.g + r.a) r.got_base (wrapping_add (wrapping_sub r.g r.got_base) r.a)
        (omega arith) (omega arith)
  patch_type-Follows gotpc32 = relative-Follows r.got_base
  patch_type-Follows tpoff32 =
      let h = words.tls_size in
      i32-Follows (r.tls + r.a) r.tls_size (tp_offset r) (omega arith) (omega arith)
  patch_type-Follows tpoff64 =
      let h = words.tls_size in
      u64-Follows (r.tls + r.a) r.tls_size (tp_offset r) (omega arith) (omega arith)
  patch_type-Follows dtpoff32 =
      let (small, e) = dtp_offset_lem in
      i32-Follows (r.tls + r.a) (if r.shared then 0 else r.tls_size) (dtp_offset r) small e
  patch_type-Follows dtpoff64 =
      let (small, e) = dtp_offset_lem in
      u64-Follows (r.tls + r.a) (if r.shared then 0 else r.tls_size) (dtp_offset r) small e
  patch_type-Follows gottpoff = relative-Follows r.tls_ie
  patch_type-Follows tlsgd = shared-Follows r.tls_gd _
  patch_type-Follows tlsld = shared-Follows r.tls_ldm _
  patch_type-Follows gotpc32_tlsdesc = shared-Follows r.tls_desc _
  patch_type-Follows r16 = u16-Follows (r.s + r.a) 0 (absolute r) (omega arith) (omega arith)
  patch_type-Follows pc16 =
      let h = words.p in u16-Follows (r.s + r.a) r.p (relative r r.s) (omega arith) (omega arith)
  patch_type-Follows r8 = u8-Follows (r.s + r.a) 0 (absolute r) (omega arith) (omega arith)
  patch_type-Follows pc8 =
      let h = words.p in u8-Follows (r.s + r.a) r.p (relative r r.s) (omega arith) (omega arith)
  patch_type-Follows _ = tt

-- For a relocation type with a formula of the psABI, whose field lies in the buffer, and where the
-- addresses that are subtracted are below 2 ^ 64: there is a
-- 64-bit number that is the formula's value modulo 2 ^ 64, and the patch stores its low bytes in the
-- field if the field can hold that number, and otherwise fails and leaves the buffer as it was.
pub patch_buf-formula :
    (buf : Bytes) (r_type : ℕ) (r : RelocAddrs) (object : Bytes) (f : Formula)
    → AreWords r
    → formula (reloc_type r_type) r ≡ some f
    → r.offset + width f.field ≤ length buf
    → (v : ℕ) × (v < 2 ^ 64)
      × ((v + f.minus) % 2 ^ 64 ≡ f.plus % 2 ^ 64)
      × Writes f.field buf r.offset v (patch_buf buf r_type r object)
unfolding patch_buf
patch_buf-formula buf r_type r object f words found =
    subst (λ o. Follows o buf r.offset (patch_buf buf r_type r object)) found
      (patch_type-Follows buf r_type r object words (reloc_type r_type))
