-- ===== src/Base/Word.antt =====
-- Machine words as native numbers. An `i64` or `u64` is its bit pattern, below 2 ^ 64; a `u32` is a
-- number below 2 ^ 32.
use peony.Base.Tests.{ltb, leb, if◌then◌else◌}
use Prim.Native.Nat.{ℕ, ◌+◌, ◌-◌, ◌%◌, ◌^◌}
use mathlib.Core.Bool.{Bool, ◌||◌}

-- `usize::MAX` and `u32::MAX`.
abbrev pub usize_max : ℕ
usize_max = 2 ^ 64 - 1

abbrev pub u32_max : ℕ
u32_max = 2 ^ 32 - 1

abbrev pub as_u32 : ℕ → ℕ
as_u32 v = v % 2 ^ 32

abbrev pub wrapping_add : ℕ → ℕ → ℕ
wrapping_add a b = (a + b) % 2 ^ 64

abbrev pub wrapping_sub : ℕ → ℕ → ℕ
wrapping_sub a b = (a + 2 ^ 64 - b) % 2 ^ 64

-- `(v as iN) as i64`, where `half` is 2 ^ (N - 1): the low N bits, sign-extended to 64.
abbrev pub sign_extend : ℕ → ℕ → ℕ
sign_extend half v =
    if ltb (v % (half + half)) half
    then v % (half + half)
    else v % (half + half) + (2 ^ 64 - (half + half))

-- `i32::try_from(v).is_ok()`: `v` stands for a number from -2 ^ 31 to 2 ^ 31 - 1.
abbrev pub fits_i32 : ℕ → Bool
fits_i32 v = ltb v (2 ^ 31) || leb (2 ^ 64 - 2 ^ 31) v
