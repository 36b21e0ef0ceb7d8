-- ===== src/Emit/Errors.antt =====
-- peony-emit/src/input_work/errors.rs, with the result type of the functions that return it.
use peony.Base.{ℕ}

pub data WorkRangeError : Type 0 where
  overflow : (item_index file_off file_len : ℕ) → WorkRangeError
  out_of_bounds : (item_index file_off file_len buf_len : ℕ) → WorkRangeError
  overlap :
      (first_index first_start first_end second_index second_start second_end : ℕ) → WorkRangeError
  relocation_before_section : (item_index reloc_index r_type offset prefix_len : ℕ) → WorkRangeError
  relocation_out_of_bounds :
      (item_index reloc_index r_type offset width section_len : ℕ) → WorkRangeError

pub data Result {ℓ} (A : Type ℓ) : Type ℓ where
  ok : A → Result A
  err : WorkRangeError → Result A

infixl 5 ◌>>=◌
abbrev pub ◌>>=◌ {ℓ κ} : {A : Type ℓ} {B : Type κ} → Result A → (A → Result B) → Result B
ok a >>= f = f a
err e >>= f = err e
