-- ===== src/Base/Mask.antt =====
-- `x & mask` for a mask of ones above some zeros.
use Prim.Native.Nat.{
  ℕ, zero, suc, ◌-◌, ◌*◌, ◌/◌, ◌%◌, ◌^◌, ◌≤◌, ◌<◌, min, bit_and, digits, bit_and-bitwise,
}
use mathlib.Core.Path.{◌≡◌, refl, ap, sym, ◌∙◌}
use native.Mathlib.Nat.{mul_assoc, mul_comm, zero-mul, zero-div, pow-suc, div-div-eq-div-mul}
use native.Mathlib.Omega.{arith}

-- The recursion that `x & mask` stands for, with steps to spare.
abbrev masked : ℕ → ℕ → ℕ → ℕ
masked steps x mask = digits (λ _. 0) min steps x mask

-- A mask of enough ones keeps a number.
masked-ones : (steps j x : ℕ) → x ≤ steps → x < 2 ^ j → masked steps x (2 ^ j - 1) ≡ x
masked-ones zero j zero enough h = refl
masked-ones zero j (suc x) enough h = absurd (omega arith)
masked-ones (suc steps) j zero enough h = refl
masked-ones (suc steps) zero (suc x) enough h = absurd (omega arith)
masked-ones (suc steps) (suc j) (suc x) enough h =
    let e = pow-suc 2 j in
    let shifted : (2 ^ suc j - 1) / 2 ≡ 2 ^ j - 1 = omega arith in
    let odd : (2 ^ suc j - 1) % 2 ≡ 1 = omega arith in
    let rest = masked-ones steps j (suc x / 2) (omega arith) (omega arith) in
    rw (shifted, odd, rest) (omega arith)

zeros-half : (k m : ℕ) → m * 2 ^ suc k ≡ m * 2 ^ k * 2
zeros-half k m = ap (λ t. m * t) (pow-suc 2 k) ∙ sym (mul_assoc m (2 ^ k) 2)

zero-rounded : (n : ℕ) → 0 ≡ 0 / n * n
zero-rounded n = sym (ap (λ t. t * n) (zero-div n) ∙ zero-mul n)

-- Zeros below the ones clear the low bits.
masked-mask :
    (steps k j x : ℕ)
    → x ≤ steps
    → x / 2 ^ k < 2 ^ j
    → masked steps x ((2 ^ j - 1) * 2 ^ k) ≡ x / 2 ^ k * 2 ^ k
masked-mask steps zero j x enough h =
    let mask : (2 ^ j - 1) * 2 ^ 0 ≡ 2 ^ j - 1 = omega arith in
    ap (masked steps x) mask ∙ masked-ones steps j x enough (omega arith) ∙ omega arith
masked-mask zero (suc k) j zero enough h = zero-rounded (2 ^ suc k)
masked-mask zero (suc k) j (suc x) enough h = absurd (omega arith)
masked-mask (suc steps) (suc k) j zero enough h = zero-rounded (2 ^ suc k)
masked-mask (suc steps) (suc k) j (suc x) enough h =
    let m = 2 ^ j - 1 in
    let below : suc x / 2 ^ suc k ≡ suc x / 2 / 2 ^ k =
      ap (λ q. suc x / q) (pow-suc 2 k ∙ mul_comm (2 ^ k) 2)
      ∙ sym (div-div-eq-div-mul (suc x) 2 (2 ^ k)) in
    let rest = masked-mask steps k j (suc x / 2) (omega arith) (omega (arith, below)) in
    let double = zeros-half k m in
    let half : m * 2 ^ suc k / 2 ≡ m * 2 ^ k = omega (arith, double) in
    let even : m * 2 ^ suc k % 2 ≡ 0 = omega (arith, double) in
    let result = zeros-half k (suc x / 2 / 2 ^ k) in
    rw (half, even, rest, below) (omega (arith, result))

pub bit_and-mask :
    (k j x : ℕ) → x / 2 ^ k < 2 ^ j → bit_and x ((2 ^ j - 1) * 2 ^ k) ≡ x / 2 ^ k * 2 ^ k
bit_and-mask k j x h = bit_and-bitwise x ((2 ^ j - 1) * 2 ^ k) ∙ masked-mask x k j x (omega arith) h
