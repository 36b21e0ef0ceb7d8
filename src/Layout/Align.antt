-- ===== src/Layout/Align.antt =====
-- Alignment of addresses (peony-layout/src/lib.rs, align_up) and the powers of two that it takes.
pub mod Bounds
use Prim.Native.Nat.{bit_and}
use peony.Base.{ℕ, zero, suc, ◌-◌, ◌*◌, ◌^◌, ◌≡◌, Bool, false, ◌||◌, ◌==◌, max}
use peony.Base.Word.{usize_max, wrapping_add, wrapping_sub}

-- `(val + align - 1) & !(align - 1)`.
unfoldable pub align_up : ℕ → ℕ → ℕ
align_up val align =
    bit_and (wrapping_sub (wrapping_add val (max align 1)) 1) (usize_max - (max align 1 - 1))

-- `u64::is_power_of_two`, by trial of the 64 powers.
unfoldable pub is_power_from : ℕ → ℕ → ℕ → Bool
is_power_from zero power n = false
is_power_from (suc fuel) power n = n == power || is_power_from fuel (power * 2) n

unfoldable pub is_power_of_two : ℕ → Bool
is_power_of_two n = is_power_from 64 1 n

-- A power of two among the words of 64 bits.
abbrev pub IsPower : ℕ → Type 0
IsPower n = (k : ℕ) × (j : ℕ) × (n ≡ 2 ^ k) × (2 ^ j * n ≡ 2 ^ 64)
