-- ===== src/Gc/Bits.antt =====
-- The bits of a machine word, by its binary digits.
use peony.Base.{
  ℕ, zero, suc, ◌+◌, ◌*◌, ◌/◌, ◌%◌, ◌<◌, ◌≡◌, Bool, true, false, arith, ◌==◌, if◌then◌else◌,
}

-- `word & (1 << i) != 0`.
unfoldable pub bit : ℕ → ℕ → Bool
bit w zero = w % 2 == 1
bit w (suc i) = bit (w / 2) i

-- `word | (1 << i)`.
unfoldable pub set_bit : ℕ → ℕ → ℕ
set_bit w zero = w / 2 * 2 + 1
set_bit w (suc i) = set_bit (w / 2) i * 2 + w % 2

-- `word & !(1 << i)`.
unfoldable pub clear_bit : ℕ → ℕ → ℕ
clear_bit w zero = w / 2 * 2
clear_bit w (suc i) = clear_bit (w / 2) i * 2 + w % 2

-- How many of the low `n` bits are not set.
pub free_bits : ℕ → ℕ → ℕ
free_bits zero w = 0
free_bits (suc n) w = (if w % 2 == 1 then 0 else 1) + free_bits n (w / 2)

pub bit-set_bit : (w i j : ℕ) → bit (set_bit w i) j ≡ (if i == j then true else bit w j)
unfolding bit set_bit
bit-set_bit w zero zero = ground arith
bit-set_bit w zero (suc j) =
    let e : (w / 2 * 2 + 1) / 2 ≡ w / 2 = omega arith in rw e (ground arith)
bit-set_bit w (suc i) zero =
    let e : (set_bit (w / 2) i * 2 + w % 2) % 2 ≡ w % 2 = omega arith in ground (arith, e)
bit-set_bit w (suc i) (suc j) =
    let e : (set_bit (w / 2) i * 2 + w % 2) / 2 ≡ set_bit (w / 2) i = omega arith in
    rw e (ground (arith, bit-set_bit (w / 2) i j))

pub bit-clear_bit : (w i j : ℕ) → bit (clear_bit w i) j ≡ (if i == j then false else bit w j)
unfolding bit clear_bit
bit-clear_bit w zero zero = ground arith
bit-clear_bit w zero (suc j) = let e : w / 2 * 2 / 2 ≡ w / 2 = omega arith in rw e (ground arith)
bit-clear_bit w (suc i) zero =
    let e : (clear_bit (w / 2) i * 2 + w % 2) % 2 ≡ w % 2 = omega arith in ground (arith, e)
bit-clear_bit w (suc i) (suc j) =
    let e : (clear_bit (w / 2) i * 2 + w % 2) / 2 ≡ clear_bit (w / 2) i = omega arith in
    rw e (ground (arith, bit-clear_bit (w / 2) i j))

pub bit-zero : (i : ℕ) → bit 0 i ≡ false
unfolding bit
bit-zero zero = ground arith
bit-zero (suc i) = let e : 0 / 2 ≡ 0 = omega arith in bit-zero i

-- Setting a bit that is not set leaves one bit fewer free.
pub free_bits-set_bit :
    (n w i : ℕ) → i < n → bit w i ≡ false → free_bits n w ≡ free_bits n (set_bit w i) + 1
unfolding bit set_bit free_bits
free_bits-set_bit zero w i h e = elim h [ ]
free_bits-set_bit (suc n) w zero h e =
    let k : (w / 2 * 2 + 1) / 2 ≡ w / 2 = omega arith in rw k (ground arith)
free_bits-set_bit (suc n) w (suc i) h e =
    let k : (set_bit (w / 2) i * 2 + w % 2) / 2 ≡ set_bit (w / 2) i = omega arith in
    let l : (set_bit (w / 2) i * 2 + w % 2) % 2 ≡ w % 2 = omega arith in
    rw (k, l) (omega (arith, free_bits-set_bit n (w / 2) i (omega arith) e))
