-- ===== src/Icf/Key.antt =====
-- The key by which identical sections meet (peony-layout/src/icf.rs).
use Prim.Native.Nat.{bit_xor}
use peony.Base.{
  ℕ, ◌+◌, ◌*◌, ◌/◌, ◌%◌, ◌^◌, ◌≡◌, ap, ◌↔◌, Bool, true, false, ◌&&◌, List, [], ◌∷◌, arith, ◌==◌,
}
use peony.Base.Bytes.{Bytes, bytes_eq, bytes_eq_iff}
use peony.Base.Map.{Eq}

-- A relocation in a key: offset, type, addend and the target's name.
pub record RelocKey : Type 0 where
  pub offset : ℕ
  pub r_type : ℕ
  pub addend : ℕ
  pub target : Bytes

pub record FoldKey : Type 0 where
  pub flags : ℕ
  pub digest : ℕ
  pub len : ℕ
  pub relocs : List RelocKey

abbrev fnv_prime : ℕ
fnv_prime = 0x00000100000001b3

-- The loop over the bytes, with the two hashes.
unfoldable pub digest_from : ℕ × ℕ → Bytes → ℕ × ℕ
digest_from hashes [] = hashes
digest_from (h1, h2) (b ∷ bytes) =
    digest_from
      (
        bit_xor h1 b * fnv_prime % 2 ^ 64,
        bit_xor ((h2 + b) % 2 ^ 64 * fnv_prime % 2 ^ 64) (h2 / 2 ^ 29),
      )
      bytes

unfoldable pub content_digest : Bytes → ℕ
content_digest bytes =
    let (h1, h2) = digest_from (0xcbf29ce484222325, 0x9e3779b97f4a7c15) bytes in h1 * 2 ^ 64 + h2

abbrev pub reloc_key_beq : RelocKey → RelocKey → Bool
reloc_key_beq a b =
    (a.offset == b.offset)
    && (a.r_type == b.r_type)
    && (a.addend == b.addend)
    && bytes_eq a.target b.target

reloc_key_beq_iff : (a b : RelocKey) → (reloc_key_beq a b ≡ true) ↔ (a ≡ b)
reloc_key_beq_iff a b = (
  λ e.
      let o : a.offset ≡ b.offset = ground (arith, e) in
      let t : a.r_type ≡ b.r_type = ground (arith, e) in
      let d : a.addend ≡ b.addend = ground (arith, e) in
      let n : a.target ≡ b.target = ground (arith, e, bytes_eq_iff a.target b.target) in cc,
  λ e.
      let o : a.offset ≡ b.offset = ap (λ k. k.offset) e in
      let t : a.r_type ≡ b.r_type = ap (λ k. k.r_type) e in
      let d : a.addend ≡ b.addend = ap (λ k. k.addend) e in
      let n : a.target ≡ b.target = ap (λ k. k.target) e in
      ground (arith, bytes_eq_iff a.target b.target),
)

abbrev pub relocs_beq : List RelocKey → List RelocKey → Bool
relocs_beq [] [] = true
relocs_beq [] (k ∷ ks) = false
relocs_beq (j ∷ js) [] = false
relocs_beq (j ∷ js) (k ∷ ks) = reloc_key_beq j k && relocs_beq js ks

relocs_beq_iff : (js ks : List RelocKey) → (relocs_beq js ks ≡ true) ↔ (js ≡ ks)
relocs_beq_iff [] [] = ground arith
relocs_beq_iff [] (k ∷ ks) = ground arith
relocs_beq_iff (j ∷ js) [] = ground arith
relocs_beq_iff (j ∷ js) (k ∷ ks) = ground (arith, reloc_key_beq_iff j k, relocs_beq_iff js ks)

abbrev pub fold_key_beq : FoldKey → FoldKey → Bool
fold_key_beq a b =
    (a.flags == b.flags)
    && (a.digest == b.digest)
    && (a.len == b.len)
    && relocs_beq a.relocs b.relocs

pub fold_key_beq_iff : (a b : FoldKey) → (fold_key_beq a b ≡ true) ↔ (a ≡ b)
fold_key_beq_iff a b = (
  λ e.
      let f : a.flags ≡ b.flags = ground (arith, e) in
      let d : a.digest ≡ b.digest = ground (arith, e) in
      let l : a.len ≡ b.len = ground (arith, e) in
      let r : a.relocs ≡ b.relocs = ground (arith, e, relocs_beq_iff a.relocs b.relocs) in cc,
  λ e.
      let f : a.flags ≡ b.flags = ap (λ k. k.flags) e in
      let d : a.digest ≡ b.digest = ap (λ k. k.digest) e in
      let l : a.len ≡ b.len = ap (λ k. k.len) e in
      let r : a.relocs ≡ b.relocs = ap (λ k. k.relocs) e in
      ground (arith, relocs_beq_iff a.relocs b.relocs),
)

instance abbrev pub fold_key_eq : Eq FoldKey
fold_key_eq = record { beq = fold_key_beq; beq_iff = fold_key_beq_iff }
