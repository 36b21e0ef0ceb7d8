-- ===== src/Reloc/Touches.antt =====
-- Which bytes a patch can change: a window of the buffer, for each writer of Reloc/Write.
use peony.Base.{
  ℕ, ◌+◌, ◌%◌, ◌^◌, ◌≤◌, ◌<◌, ◌≡◌, refl, ◌∙◌, ◌⊎◌, inl, inr, [], ◌∷◌, some, arith, Bool, true,
  false, not, ◌&&◌, ◌==◌, le→leb, Bool-cases, if◌then◌else◌, length, get_elem?, get_elem?-some,
}
use peony.Base.Bytes.{Bytes, le_bytes, splice, length-splice, length-le_bytes, get_elem?-splice}
use peony.Base.Word.{as_u32, sign_extend, fits_i32}
use peony.Reloc.Write.{
  Patched, done, failed, panicked, and_then, copy_from_slice, write_u64, checked_i32_bytes,
  write_i32, write_u32, write_u16, write_u8,
}
use peony.Reloc.Patch.{has_prologue, if_prologue, rewrite_gd}

-- The buffers have one length, and agree outside `[lo, lo + n)`.
pub record SameOutside (lo n : ℕ) (buf buf' : Bytes) : Type 0 where
  pub same_length : length buf' ≡ length buf
  pub same_byte : (i : ℕ) → ((i < lo) ⊎ (lo + n ≤ i)) → get_elem? buf' i ≡ get_elem? buf i

-- The patch does not panic, and changes at most the bytes of the window, on errors too.
abbrev pub Touches : ℕ → ℕ → Bytes → Patched → Type 0
Touches lo n buf (done buf') = SameOutside lo n buf buf'
Touches lo n buf (failed e buf') = SameOutside lo n buf buf'
Touches lo n buf panicked = ⊥

pub SameOutside-refl : (lo n : ℕ) (buf : Bytes) → SameOutside lo n buf buf
SameOutside-refl lo n buf = record { same_length = refl; same_byte = λ i h. refl }

pub SameOutside-trans :
    {lo n : ℕ} {a b c : Bytes} → SameOutside lo n a b → SameOutside lo n b c → SameOutside lo n a c
SameOutside-trans h k = record {
  same_length = k.same_length ∙ h.same_length;
  same_byte = λ i o. k.same_byte i o ∙ h.same_byte i o;
}

Touches-trans :
    {lo n : ℕ} {a b : Bytes}
    → SameOutside lo n a b
    → (p : Patched) → Touches lo n b p
    → Touches lo n a p
Touches-trans h (done buf) t = SameOutside-trans h t
Touches-trans h (failed e buf) t = SameOutside-trans h t
Touches-trans h panicked t = t

pub and_then-Touches :
    (lo n : ℕ) (buf : Bytes) (p : Patched) (f : Bytes → Patched)
    → Touches lo n buf p
    → ((b : Bytes) → length b ≡ length buf → Touches lo n b (f b))
    → Touches lo n buf (and_then p f)
and_then-Touches lo n buf (done b) f t k = Touches-trans t (f b) (k b t.same_length)
and_then-Touches lo n buf (failed e b) f t k = t
and_then-Touches lo n buf panicked f t k = t

pub splice-SameOutside :
    (lo n : ℕ) (buf : Bytes) (off : ℕ) (bs : Bytes)
    → lo ≤ off
    → off + length bs ≤ lo + n
    → SameOutside lo n buf (splice buf off bs)
splice-SameOutside lo n buf off bs h k = record {
  same_length = length-splice buf off bs;
  same_byte = λ i o. get_elem?-splice buf off bs i (omega arith);
}

module _ (lo n : ℕ) (buf : Bytes) (off : ℕ) where
  pub copy_from_slice-Touches :
      (bs : Bytes)
      → lo ≤ off
      → off + length bs ≤ lo + n
      → lo + n ≤ length buf
      → Touches lo n buf (copy_from_slice buf off bs)
  unfolding copy_from_slice
  copy_from_slice-Touches bs a b c =
      rw (le→leb (off + length bs) (length buf) (omega arith))
        (splice-SameOutside lo n buf off bs a b)

  pub write_u64-Touches :
      (v : ℕ)
      → lo ≤ off
      → off + 8 ≤ lo + n
      → lo + n ≤ length buf
      → Touches lo n buf (write_u64 buf off v)
  unfolding write_u64
  write_u64-Touches v a b c = copy_from_slice-Touches (le_bytes 8 v) a b c

  module _ (v : ℕ) (a : lo ≤ off) (c : lo + n ≤ length buf) where
    pub write_i32-Touches :
        (t : ℕ) (o : Bytes) (at : ℕ)
        → off + 4 ≤ lo + n
        → Touches lo n buf (write_i32 buf off v t o at)
    unfolding write_i32 checked_i32_bytes
    write_i32-Touches t o at b = elim (Bool-cases (fits_i32 v)) [
      | inl e ↦ rw (e, write_i32) (copy_from_slice-Touches (le_bytes 4 (as_u32 v)) a b c)
      | inr e ↦ rw (e, write_i32) (SameOutside-refl lo n buf)
    ]

    pub write_u32-Touches :
        (t : ℕ) (o : Bytes) (at : ℕ)
        → off + 4 ≤ lo + n
        → Touches lo n buf (write_u32 buf off v t o at)
    unfolding write_u32
    write_u32-Touches t o at b =
        elim (Bool-cases (not (as_u32 v == v) && not (sign_extend (2 ^ 31) v == v))) [
          | inl e ↦ rw e (SameOutside-refl lo n buf)
          | inr e ↦ rw e (copy_from_slice-Touches (le_bytes 4 (as_u32 v)) a b c)
        ]

    pub write_u16-Touches :
        (o : Bytes) (at : ℕ) → off + 2 ≤ lo + n → Touches lo n buf (write_u16 buf off v o at)
    unfolding write_u16
    write_u16-Touches o at b =
        elim (Bool-cases (not (sign_extend (2 ^ 15) v == v) && not (v % 2 ^ 16 == v))) [
          | inl e ↦ rw e (SameOutside-refl lo n buf)
          | inr e ↦ rw e (copy_from_slice-Touches (le_bytes 2 (v % 2 ^ 16)) a b c)
        ]

    pub write_u8-Touches :
        (o : Bytes) (at : ℕ) → off + 1 ≤ lo + n → Touches lo n buf (write_u8 buf off v o at)
    unfolding write_u8
    write_u8-Touches o at b =
        elim (Bool-cases (not (sign_extend (2 ^ 7) v == v) && not (v % 2 ^ 8 == v))) [
          | inl e ↦ rw e (SameOutside-refl lo n buf)
          | inr e ↦ rw e (copy_from_slice-Touches (v % 2 ^ 8 ∷ []) a b c)
        ]

-- The prologue of `n` bytes lies in the buffer, so that its test does not panic.
has_prologue_in :
    (buf : Bytes) (start : ℕ) (bs : Bytes)
    → start + length bs ≤ length buf
    → (b : Bool) × (has_prologue buf start bs ≡ some b)
unfolding has_prologue
has_prologue_in buf start [] h = (true, refl)
has_prologue_in buf start (b ∷ bs) h =
    step (get_elem?-some buf start (omega arith)) (has_prologue_in buf (start + 1) bs (omega arith))
  where
    step :
        (x : ℕ) × (get_elem? buf start ≡ some x)
        → (r : Bool) × (has_prologue buf (start + 1) bs ≡ some r)
        → (r : Bool) × (has_prologue buf start (b ∷ bs) ≡ some r)
    step (x, e) (r, k) = (if x == b then r else false, ground arith)

pub if_prologue-Touches :
    (lo n : ℕ) (buf : Bytes) (start : ℕ) (bs : Bytes) (body : Patched)
    → start + length bs ≤ length buf
    → Touches lo n buf body
    → Touches lo n buf (if_prologue (has_prologue buf start bs) buf body)
if_prologue-Touches lo n buf start bs body h t = go (has_prologue_in buf start bs h)
  where
    go :
        (b : Bool) × (has_prologue buf start bs ≡ some b)
        → Touches lo n buf (if_prologue (has_prologue buf start bs) buf body)
    go (true, e) = rw e t
    go (false, e) = rw e (SameOutside-refl lo n buf)

pub rewrite_gd-Touches :
    (buf : Bytes) (start : ℕ) (sequence : Bytes) (disp r_type : ℕ) (object : Bytes) (off : ℕ)
    → length sequence ≡ 16
    → start + 16 ≤ length buf
    → Touches start 16 buf (rewrite_gd buf start sequence disp r_type object off)
unfolding rewrite_gd checked_i32_bytes
rewrite_gd-Touches buf start sequence disp r_type object off l h =
    elim (Bool-cases (fits_i32 disp)) [
      | inl e ↦
          rw (e, rewrite_gd)
            (and_then-Touches start 16 buf _ _
              (copy_from_slice-Touches start 16 buf start sequence (omega arith) (omega arith) h)
              (λ b same.
                copy_from_slice-Touches start 16 b (start + 12) (le_bytes 4 (as_u32 disp))
                  (omega arith) (omega (arith, length-le_bytes 4 (as_u32 disp))) (omega arith)))
      | inr e ↦ rw (e, rewrite_gd) (SameOutside-refl start 16 buf)
    ]
