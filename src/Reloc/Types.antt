-- ===== src/Reloc/Types.antt =====
-- peony-reloc/src/types.rs: the x86-64 relocation types, their classes, and the synthetic slots
-- that the relocation scan asks for.
use peony.Base.{ℕ, ◌≡◌, refl, List, [], ◌∷◌, arith, Bool, true, false, ◌==◌, if◌then◌else◌}

-- The constants of `mod r_x86_64`, with a constructor for every other number.
pub data RelocType : Type 0 where
  none_reloc r64 pc32 got32 plt32 gotpcrel r32 r32s r16 pc16 r8 pc8 : RelocType
  dtpmod64 dtpoff64 tpoff64 tlsgd tlsld dtpoff32 gottpoff tpoff32 : RelocType
  pc64 gotoff64 gotpc32 size32 size64 : RelocType
  gotpc32_tlsdesc tlsdesc_call tlsdesc gotpcrelx rex_gotpcrelx : RelocType
  other : ℕ → RelocType

unfoldable pub code_of : RelocType → ℕ
code_of none_reloc = 0
code_of r64 = 1
code_of pc32 = 2
code_of got32 = 3
code_of plt32 = 4
code_of gotpcrel = 9
code_of r32 = 10
code_of r32s = 11
code_of r16 = 12
code_of pc16 = 13
code_of r8 = 14
code_of pc8 = 15
code_of dtpmod64 = 16
code_of dtpoff64 = 17
code_of tpoff64 = 18
code_of tlsgd = 19
code_of tlsld = 20
code_of dtpoff32 = 21
code_of gottpoff = 22
code_of tpoff32 = 23
code_of pc64 = 24
code_of gotoff64 = 25
code_of gotpc32 = 26
code_of size32 = 32
code_of size64 = 33
code_of gotpc32_tlsdesc = 34
code_of tlsdesc_call = 35
code_of tlsdesc = 36
code_of gotpcrelx = 41
code_of rex_gotpcrelx = 42
code_of (other n) = n

abbrev constants : List RelocType
constants =
    none_reloc ∷ r64 ∷ pc32 ∷ got32 ∷ plt32 ∷ gotpcrel ∷ r32 ∷ r32s ∷ r16 ∷ pc16 ∷ r8 ∷ pc8
    ∷ dtpmod64 ∷ dtpoff64 ∷ tpoff64 ∷ tlsgd ∷ tlsld ∷ dtpoff32 ∷ gottpoff ∷ tpoff32 ∷ pc64
    ∷ gotoff64 ∷ gotpc32 ∷ size32 ∷ size64 ∷ gotpc32_tlsdesc ∷ tlsdesc_call ∷ tlsdesc ∷ gotpcrelx
    ∷ rex_gotpcrelx ∷ []

find_code : List RelocType → ℕ → RelocType
find_code [] n = other n
find_code (t ∷ ts) n = if code_of t == n then t else find_code ts n

-- Which constant a `match r_type` meets.
unfoldable pub reloc_type : ℕ → RelocType
unfolding find_code code_of
reloc_type n = find_code constants n

code_of-find_code : (ts : List RelocType) (n : ℕ) → code_of (find_code ts n) ≡ n
unfolding find_code
code_of-find_code [] n = unfold code_of in refl
code_of-find_code (t ∷ ts) n = ground (arith, code_of-find_code ts n)

pub code_of-reloc_type : (n : ℕ) → code_of (reloc_type n) ≡ n
unfolding reloc_type
code_of-reloc_type n = code_of-find_code constants n

unfoldable pub is_tls : RelocType → Bool
is_tls tpoff32 = true
is_tls tpoff64 = true
is_tls dtpoff32 = true
is_tls dtpoff64 = true
is_tls tlsgd = true
is_tls tlsld = true
is_tls gottpoff = true
is_tls gotpc32_tlsdesc = true
is_tls tlsdesc_call = true
is_tls tlsdesc = true
is_tls _ = false

unfoldable pub needs_got : RelocType → Bool
needs_got got32 = true
needs_got gotpcrel = true
needs_got gotpcrelx = true
needs_got rex_gotpcrelx = true
needs_got _ = false

unfoldable pub may_need_copy_reloc : RelocType → Bool
may_need_copy_reloc r64 = true
may_need_copy_reloc pc64 = true
may_need_copy_reloc r32 = true
may_need_copy_reloc r32s = true
may_need_copy_reloc pc32 = true
may_need_copy_reloc r16 = true
may_need_copy_reloc pc16 = true
may_need_copy_reloc r8 = true
may_need_copy_reloc pc8 = true
may_need_copy_reloc _ = false
