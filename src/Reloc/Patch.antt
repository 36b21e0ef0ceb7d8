-- ===== src/Reloc/Patch.antt =====
-- peony-reloc/src/apply.rs, `patch_buf`: one clause for each arm of its `match`, the relaxations of
-- thread-local accesses as functions of their own. Trace and warning output is left out.
use peony.Base.{
  ℕ, ◌+◌, inl, inr, [], ◌∷◌, Option, none, some, Bool, true, false, leb, ◌==◌, if◌then◌else◌,
  length, get_elem?,
}
use peony.Base.Bytes.{Bytes}
use peony.Base.Word.{wrapping_add, wrapping_sub}
use peony.Reloc.Types.{
  RelocType, none_reloc, r64, pc32, got32, plt32, gotpcrel, r32, r32s, r16, pc16, r8, pc8, dtpmod64,
  dtpoff64, tpoff64, tlsgd, tlsld, dtpoff32, gottpoff, tpoff32, pc64, gotoff64, gotpc32, size32,
  size64, gotpc32_tlsdesc, tlsdesc_call, tlsdesc, gotpcrelx, rex_gotpcrelx, other, reloc_type,
}
use peony.Reloc.Write.{
  Patched, done, failed, panicked, and_then, copy_from_slice, write_u64, checked_i32_bytes,
  write_i32, write_u32, write_u16, write_u8,
}

-- `i64` and `u64` fields are bit patterns.
pub record RelocAddrs : Type 0 where
  pub s : ℕ
  pub a : ℕ
  pub p : ℕ
  pub g : ℕ
  pub l : ℕ
  pub z : ℕ
  pub got_base : ℕ
  pub tls : ℕ
  pub tls_size : ℕ
  pub offset : ℕ
  pub shared : Bool
  pub tls_gd : ℕ
  pub tls_ie : ℕ
  pub tls_desc : ℕ
  pub tls_ldm : ℕ
  pub tls_imported : Bool

-- `start + n <= buf.len()`, where the sum wraps.
abbrev pub in_buf : Bytes → ℕ → ℕ → Bool
in_buf buf start n = leb (wrapping_add start n) (length buf)

-- Whether the bytes from `start` on are those expected; `none` is an index out of bounds.
unfoldable pub has_prologue : Bytes → ℕ → Bytes → Option Bool
has_prologue buf start [] = some true
has_prologue buf start (b ∷ bs) = elim (get_elem? buf start) [
  | none ↦ none
  | some x ↦ if x == b then has_prologue buf (start + 1) bs else some false
]

-- The test of the prologue and what follows it.
abbrev pub if_prologue : Option Bool → Bytes → Patched → Patched
if_prologue none buf body = panicked
if_prologue (some false) buf body = done buf
if_prologue (some true) buf body = body

abbrev pub gd_prologue : Bytes
gd_prologue = 0x66 ∷ 0x48 ∷ 0x8d ∷ []

abbrev pub lea_prologue : Bytes
lea_prologue = 0x48 ∷ 0x8d ∷ []

-- mov %fs:0,%rax; add x@gottpoff(%rip),%rax
abbrev pub ie_sequence : Bytes
ie_sequence =
    0x64 ∷ 0x48 ∷ 0x8b ∷ 0x04 ∷ 0x25 ∷ 0x00 ∷ 0x00 ∷ 0x00 ∷ 0x00 ∷ 0x48 ∷ 0x03 ∷ 0x05 ∷ 0 ∷ 0 ∷ 0
    ∷ 0 ∷ []

-- mov %fs:0,%rax; lea off(%rax),%rax
abbrev pub le_sequence : Bytes
le_sequence =
    0x64 ∷ 0x48 ∷ 0x8b ∷ 0x04 ∷ 0x25 ∷ 0x00 ∷ 0x00 ∷ 0x00 ∷ 0x00 ∷ 0x48 ∷ 0x8d ∷ 0x80 ∷ 0 ∷ 0 ∷ 0
    ∷ 0 ∷ []

-- Three data16 prefixes, and mov %fs:0,%rax
abbrev pub ld_sequence : Bytes
ld_sequence = 0x66 ∷ 0x66 ∷ 0x66 ∷ 0x64 ∷ 0x48 ∷ 0x8b ∷ 0x04 ∷ 0x25 ∷ 0x00 ∷ 0x00 ∷ 0x00 ∷ 0x00 ∷ []

-- The shared end of the two General-Dynamic relaxations: check the displacement, write the sequence
-- and the displacement into its last four bytes.
unfoldable pub rewrite_gd : Bytes → ℕ → Bytes → ℕ → ℕ → Bytes → ℕ → Patched
rewrite_gd buf start sequence disp r_type object off =
    elim (checked_i32_bytes disp r_type object off) [
      | inl e ↦ failed e buf
      | inr bytes ↦
          and_then (copy_from_slice buf start sequence)
            λ buf'. copy_from_slice buf' (start + 12) bytes
    ]

unfoldable pub relax_gd_to_ie : Bytes → ℕ → RelocAddrs → Bytes → Patched
relax_gd_to_ie buf r_type a object =
    let start = wrapping_sub a.offset 4 in
    let disp = wrapping_sub (wrapping_sub (wrapping_add a.tls_ie a.a) a.p) 8 in
    if in_buf buf start 16
    then if_prologue (has_prologue buf start gd_prologue) buf
        (rewrite_gd buf start ie_sequence disp r_type object a.offset)
    else done buf

unfoldable pub relax_gd_to_le : Bytes → ℕ → RelocAddrs → Bytes → Patched
relax_gd_to_le buf r_type a object =
    let start = wrapping_sub a.offset 4 in
    let le_off = wrapping_add (wrapping_sub (wrapping_add a.tls a.a) a.tls_size) 4 in
    if in_buf buf start 16
    then if_prologue (has_prologue buf start gd_prologue) buf
        (rewrite_gd buf start le_sequence le_off r_type object a.offset)
    else done buf

unfoldable pub relax_ld_to_le : Bytes → RelocAddrs → Patched
relax_ld_to_le buf a =
    let start = wrapping_sub a.offset 3 in
    if in_buf buf start 12 then copy_from_slice buf start ld_sequence else done buf

unfoldable pub relax_desc_to_ie : Bytes → ℕ → RelocAddrs → Bytes → Patched
relax_desc_to_ie buf r_type a object =
    let start = wrapping_sub a.offset 3 in
    let disp = wrapping_sub (wrapping_add a.tls_ie a.a) a.p in
    if in_buf buf start 7
    then if_prologue (has_prologue buf start lea_prologue) buf (
        and_then (copy_from_slice buf (start + 1) (0x8b ∷ []))
          λ buf'. write_i32 buf' a.offset disp r_type object a.offset)
    else done buf

unfoldable pub relax_desc_to_le : Bytes → ℕ → RelocAddrs → Bytes → Patched
relax_desc_to_le buf r_type a object =
    let start = wrapping_sub a.offset 3 in
    let le_off = wrapping_sub (wrapping_add (wrapping_add a.tls a.a) 4) a.tls_size in
    if in_buf buf start 7
    then if_prologue (has_prologue buf start lea_prologue) buf (
        and_then (copy_from_slice buf start (0x48 ∷ 0xc7 ∷ 0xc0 ∷ 0 ∷ 0 ∷ 0 ∷ 0 ∷ []))
          λ buf'. write_i32 buf' a.offset le_off r_type object a.offset)
    else done buf

unfoldable pub relax_desc_call : Bytes → RelocAddrs → Patched
relax_desc_call buf a =
    if a.shared
    then done buf
    else if in_buf buf a.offset 2
    then copy_from_slice buf a.offset (0x66 ∷ 0x90 ∷ [])
    else done buf

-- `S + A`, `X + A - P`, and the two offsets into the TLS block.
abbrev pub absolute : RelocAddrs → ℕ
absolute r = wrapping_add r.s r.a

abbrev pub relative : RelocAddrs → ℕ → ℕ
relative r x = wrapping_sub (wrapping_add x r.a) r.p

abbrev pub tp_offset : RelocAddrs → ℕ
tp_offset r = wrapping_sub (wrapping_add r.tls r.a) r.tls_size

abbrev pub dtp_offset : RelocAddrs → ℕ
dtp_offset r =
    if r.shared then wrapping_add r.tls r.a else wrapping_sub (wrapping_add r.tls r.a) r.tls_size

abbrev pub plt_target : RelocAddrs → ℕ
plt_target r = if r.l == 0 then r.s else r.l

-- The arms of the `match`; `n` is the raw number of the type, for error values.
unfoldable pub patch_type : RelocType → Bytes → ℕ → RelocAddrs → Bytes → Patched
patch_type r64 buf n r object = write_u64 buf r.offset (absolute r)
patch_type pc64 buf n r object = write_u64 buf r.offset (relative r r.s)
patch_type gotoff64 buf n r object = write_u64 buf r.offset (wrapping_sub (absolute r) r.got_base)
patch_type size64 buf n r object = write_u64 buf r.offset (wrapping_add r.z r.a)
patch_type r32 buf n r object = write_u32 buf r.offset (absolute r) n object r.offset
patch_type r32s buf n r object = write_i32 buf r.offset (absolute r) n object r.offset
patch_type pc32 buf n r object = write_i32 buf r.offset (relative r r.s) n object r.offset
patch_type size32 buf n r object = write_u32 buf r.offset (wrapping_add r.z r.a) n object r.offset
patch_type plt32 buf n r object =
    write_i32 buf r.offset (relative r (plt_target r)) n object r.offset
patch_type gotpcrel buf n r object = write_i32 buf r.offset (relative r r.g) n object r.offset
patch_type gotpcrelx buf n r object = write_i32 buf r.offset (relative r r.g) n object r.offset
patch_type rex_gotpcrelx buf n r object = write_i32 buf r.offset (relative r r.g) n object r.offset
patch_type got32 buf n r object =
    write_u32 buf r.offset (wrapping_add (wrapping_sub r.g r.got_base) r.a) n object r.offset
patch_type gotpc32 buf n r object = write_i32 buf r.offset (relative r r.got_base) n object r.offset
patch_type tpoff32 buf n r object = write_i32 buf r.offset (tp_offset r) n object r.offset
patch_type tpoff64 buf n r object = write_u64 buf r.offset (tp_offset r)
patch_type dtpoff32 buf n r object = write_i32 buf r.offset (dtp_offset r) n object r.offset
patch_type dtpoff64 buf n r object = write_u64 buf r.offset (dtp_offset r)
patch_type tlsgd buf n r object =
    if r.shared
    then write_i32 buf r.offset (relative r r.tls_gd) n object r.offset
    else if r.tls_imported
    then relax_gd_to_ie buf n r object
    else relax_gd_to_le buf n r object
patch_type tlsld buf n r object =
    if r.shared
    then write_i32 buf r.offset (relative r r.tls_ldm) n object r.offset
    else relax_ld_to_le buf r
patch_type gottpoff buf n r object = write_i32 buf r.offset (relative r r.tls_ie) n object r.offset
patch_type gotpc32_tlsdesc buf n r object =
    if r.shared
    then write_i32 buf r.offset (relative r r.tls_desc) n object r.offset
    else if r.tls_imported
    then relax_desc_to_ie buf n r object
    else relax_desc_to_le buf n r object
patch_type tlsdesc_call buf n r object = relax_desc_call buf r
patch_type r16 buf n r object = write_u16 buf r.offset (absolute r) object r.offset
patch_type pc16 buf n r object = write_u16 buf r.offset (relative r r.s) object r.offset
patch_type r8 buf n r object = write_u8 buf r.offset (absolute r) object r.offset
patch_type pc8 buf n r object = write_u8 buf r.offset (relative r r.s) object r.offset
patch_type none_reloc buf n r object = done buf
patch_type dtpmod64 buf n r object = done buf
patch_type tlsdesc buf n r object = done buf
patch_type (other _) buf n r object = done buf

unfoldable pub patch_buf : Bytes → ℕ → RelocAddrs → Bytes → Patched
patch_buf buf r_type r object = patch_type (reloc_type r_type) buf r_type r object
