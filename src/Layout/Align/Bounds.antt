-- ===== src/Layout/Align/Bounds.antt =====
-- What align_up gives (peony-layout/src/lib.rs).
use peony.Base.{
  ℕ, zero, suc, ◌↔◌, ◌+◌, ◌-◌, ◌*◌, ◌/◌, ◌^◌, ◌≤◌, ◌<◌, ◌≡◌, ◌≢◌, refl, ap, sym, ◌∙◌, subst, true,
  ◌==◌, max, arith, inl, inr, Bool-cases,
}
use peony.Base.Mask.{bit_and-mask}
use peony.Base.Word.{usize_max, wrapping_add, wrapping_sub}
use peony.Layout.Align.{align_up, is_power_from, is_power_of_two, IsPower}
use native.Mathlib.Nat.{mul_assoc, mul_comm, pow-suc, div-mul-le_self, lt-div-mul-add}

is_power_from-IsPower :
    (fuel k power n : ℕ)
    → power ≡ 2 ^ k
    → 2 ^ fuel * power ≡ 2 ^ 64
    → is_power_from fuel power n ≡ true
    → IsPower n
unfolding is_power_from
is_power_from-IsPower zero k power n e total h = cc
is_power_from-IsPower (suc fuel) k power n e total h = elim (Bool-cases (n == power)) [
  | inl here ↦ (
    k,
    suc fuel,
    ground (arith, here, e),
    ap (λ t. 2 ^ suc fuel * t) (ground (arith, here)) ∙ total,
  )
  | inr later ↦
      is_power_from-IsPower fuel (suc k) (power * 2) n (ap (λ t. t * 2) e ∙ sym (pow-suc 2 k))
        (ap (λ t. 2 ^ fuel * t) (mul_comm power 2)
          ∙ sym (mul_assoc (2 ^ fuel) 2 power)
          ∙ ap (λ t. t * power) (sym (pow-suc 2 fuel))
          ∙ total)
        (ground (arith, h, later))
]

pub power_pos : (n : ℕ) → IsPower n → 0 < n
power_pos zero (k, j, e, total) = absurd (omega (arith, total))
power_pos (suc n) p = omega arith

mask_lem : (b a : ℕ) → 0 < a → b * a ≡ 2 ^ 64 → usize_max - (a - 1) ≡ (b - 1) * a
mask_lem zero a positive total = absurd (omega (arith, total))
mask_lem (suc b) a positive total = grind arith

quotient_small : (n a b : ℕ) → 0 < a → n < b * a → n / a < b
quotient_small n a b positive h = grind arith

pub align_up_lem :
    (val align : ℕ)
    → IsPower align
    → val + align ≤ 2 ^ 64
    → align_up val align ≡ (val + align - 1) / align * align
unfolding align_up
align_up_lem val align (k, j, e, total) h =
    let positive = power_pos align (k, j, e, total) in
    let most : max align 1 ≡ align = omega arith in
    let value : wrapping_sub (wrapping_add val align) 1 ≡ val + align - 1 = omega arith in
    let mask : usize_max - (align - 1) ≡ (2 ^ j - 1) * 2 ^ k =
      mask_lem (2 ^ j) align positive total ∙ ap (λ t. (2 ^ j - 1) * t) e in
    let fits : (val + align - 1) / 2 ^ k < 2 ^ j =
      subst (λ t. (val + align - 1) / t < 2 ^ j) e
        (quotient_small (val + align - 1) align (2 ^ j) positive (omega (arith, total))) in
    rw (most, value, mask) (bit_and-mask k j (val + align - 1) fits ∙ rw e refl)

-- If the alignment is a power of two and the value plus it is at most 2^64, align_up gives a multiple of the
-- alignment, at or above the value and less than one alignment above it.
pub align_up_bounds :
    (val align : ℕ)
    → IsPower align
    → val + align ≤ 2 ^ 64
    → (val ≤ align_up val align)
      × (align_up val align < val + align)
      × ((q : ℕ) × (align_up val align ≡ q * align))
align_up_bounds val align p h =
    let e = align_up_lem val align p h in
    let positive = power_pos align p in
    let low = div-mul-le_self (val + align - 1) align in
    let high = lt-div-mul-add {a = val + align - 1} positive in
    (rw e (omega arith), rw e (omega arith), ((val + align - 1) / align, e))

pub is_power_of_two-IsPower : (n : ℕ) → is_power_of_two n ≡ true → IsPower n
unfolding is_power_of_two
is_power_of_two-IsPower n h = is_power_from-IsPower 64 0 1 n refl refl h

is_power_from_iff :
    (fuel k n : ℕ)
    → (is_power_from fuel (2 ^ k) n ≡ true) ↔ ((m : ℕ) × (k ≤ m) × (m < k + fuel) × (n ≡ 2 ^ m))
unfolding is_power_from
is_power_from_iff zero k n = (λ h. absurd (ground (arith, h)), λ (m, a, b, e). absurd (omega arith))
is_power_from_iff (suc fuel) k n =
    let (from, to) = is_power_from_iff fuel (suc k) n in
    let double : 2 ^ suc k ≡ 2 ^ k * 2 = pow-suc 2 k in
    (
      λ h. elim (Bool-cases (n == 2 ^ k)) [
        | inl here ↦ (k, omega arith, omega arith, ground (arith, here))
        | inr later ↦
            let (m, a, b, e) = from (rw double (ground (arith, h, later))) in
            (m, omega arith, omega arith, e)
      ],
      λ (m, a, b, e). elim (Bool-cases (n == 2 ^ k)) [
        | inl here ↦ rw here refl
        | inr later ↦
            let apart : k ≢ m =
              λ same. absurd (ground (arith, later, e ∙ sym (ap (λ j. 2 ^ j) same))) in
            let more = to (m, omega (arith, apart, a), omega arith, e) in
            rw later (subst (λ p. is_power_from fuel p n ≡ true) double more)
      ],
    )

-- The test takes exactly the powers of two of a word.
pub is_power_of_two_iff : (n : ℕ) → (is_power_of_two n ≡ true) ↔ ((k : ℕ) × (k < 64) × (n ≡ 2 ^ k))
unfolding is_power_of_two
is_power_of_two_iff n =
    let (from, to) = is_power_from_iff 64 0 n in
    (
      λ h. let (k, a, b, e) = from h in (k, omega (arith, b), e),
      λ (k, b, e). to (k, omega arith, omega (arith, b), e),
    )
