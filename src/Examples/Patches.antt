-- ===== src/Examples/Patches.antt =====
-- Runs of `patch_buf` (peony-reloc/src/apply.rs) and of the footprints that validation gives it.
use peony.Base.{◌+◌, ◌<◌, ◌%◌, ◌^◌, ℕ, ◌≡◌, refl, false, [], ◌∷◌, none, some, arith}
use peony.Base.Bytes.{Bytes, splice}
use peony.Reloc.Types.{code_of}
use peony.Reloc.Write.{done, copy_from_slice, write_i32, checked_i32_bytes}
use peony.Reloc.Patch.{RelocAddrs, patch_buf, patch_type, rewrite_gd, relax_gd_to_le, has_prologue}
use peony.Reloc.Touches.{Touches}
use peony.Emit.Errors.{ok}
use peony.Emit.Footprints.{relocation_footprint, window}
use peony.Emit.Footprints.Covers.{patch_buf-footprint, patch_buf-no_footprint}
use peony.Reloc.Value.{signed32, Writes}
use peony.Reloc.Formula.{patch_buf-formula}
use peony.Examples.Data.{reloc}

abbrev addrs : ℕ → RelocAddrs
addrs offset = record {
  s = 4096;
  a = 0;
  p = 4100;
  g = 0;
  l = 0;
  z = 0;
  got_base = 0;
  tls = 16;
  tls_size = 32;
  offset = offset;
  shared = false;
  tls_gd = 0;
  tls_ie = 0;
  tls_desc = 0;
  tls_ldm = 0;
  tls_imported = false;
}

abbrev six_bytes : Bytes
six_bytes = 1 ∷ 2 ∷ 3 ∷ 4 ∷ 5 ∷ 6 ∷ []

-- S + A - P is -4.
pc32_run : patch_buf six_bytes 2 (addrs 1) [] ≡ done (1 ∷ 252 ∷ 255 ∷ 255 ∷ 255 ∷ 6 ∷ [])
unfolding patch_buf patch_type write_i32 checked_i32_bytes copy_from_slice splice
    peony.Reloc.Types.reloc_type code_of
pc32_run = refl

-- The General-Dynamic sequence becomes a Local-Exec access at -12.
gd_run :
    patch_buf
      (0x66 ∷ 0x48 ∷ 0x8d ∷ 0x3d ∷ 0 ∷ 0 ∷ 0 ∷ 0 ∷ 0x66 ∷ 0x66 ∷ 0x48 ∷ 0xe8 ∷ 0 ∷ 0 ∷ 0 ∷ 0 ∷ [])
      19
      (addrs 4)
      []
    ≡ done (
        0x64 ∷ 0x48 ∷ 0x8b ∷ 0x04 ∷ 0x25 ∷ 0 ∷ 0 ∷ 0 ∷ 0 ∷ 0x48 ∷ 0x8d ∷ 0x80 ∷ 244 ∷ 255 ∷ 255
        ∷ 255 ∷ [])
unfolding patch_buf patch_type relax_gd_to_le has_prologue rewrite_gd checked_i32_bytes
    copy_from_slice splice peony.Reloc.Types.reloc_type code_of
gd_run = refl

pc32_footprint : relocation_footprint 0 0 (reloc 2 1 0) ≡ ok (some (record { start = 1; len = 4 }))
unfolding relocation_footprint window peony.Reloc.Types.reloc_type code_of
pc32_footprint = refl

none_footprint : relocation_footprint 0 0 (reloc 0 1 0) ≡ ok none
unfolding relocation_footprint window peony.Reloc.Types.reloc_type code_of
none_footprint = refl

patch_buf-footprint_example : Touches 1 4 six_bytes (patch_buf six_bytes 2 (addrs 1) [])
patch_buf-footprint_example =
    patch_buf-footprint 0 0 (reloc 2 1 0) six_bytes (addrs 1) [] (record { start = 1; len = 4 })
      refl pc32_footprint (omega arith) (omega arith)

patch_buf-no_footprint_example : patch_buf six_bytes 0 (addrs 1) [] ≡ done six_bytes
patch_buf-no_footprint_example =
    patch_buf-no_footprint 0 0 (reloc 0 1 0) six_bytes (addrs 1) [] none_footprint (omega arith)

patch_buf-formula_example :
    (v : ℕ) × (v < 2 ^ 64)
    × ((v + 4100) % 2 ^ 64 ≡ 4096 % 2 ^ 64)
    × Writes signed32 six_bytes 1 v (patch_buf six_bytes 2 (addrs 1) [])
patch_buf-formula_example =
    patch_buf-formula six_bytes 2 (addrs 1) []
      (record { field = signed32; plus = 4096; minus = 4100 })
      (record { p = omega arith; got_base = omega arith; tls_size = omega arith })
      (unfold peony.Reloc.Types.reloc_type code_of in refl) (omega arith)
