-- ===== src/Base/Bytes.antt =====
-- Byte buffers: in-place writes, little-endian fields, and texts as byte lists.
use Prim.Native.Char.{code}
use Prim.Native.String.{String}
use peony.Base.Tests.{◌==◌}
use peony.Base.Lists.{length, get_elem?, take, drop}
use Prim.Native.Nat.{ℕ, zero, suc, ◌+◌, ◌*◌, ◌/◌, ◌%◌, ◌^◌, ◌≤◌, ◌<◌}
use mathlib.Core.Path.{◌≡◌, refl, ap}
use mathlib.Core.Logic.{◌⊎◌, ◌↔◌, inl, inr}
use mathlib.Core.List.{List, [], ◌∷◌}
use mathlib.Core.Bool.{Bool, true, false, ◌&&◌}
use native.Mathlib.Nat.{pow-suc}
use native.Mathlib.Omega.{arith}

abbrev pub Bytes : Type 0
Bytes = List ℕ

-- The bytes of an ASCII text.
abbrev pub codes : String → Bytes
codes String.[] = []
codes (String.◌∷◌ c s) = code c ∷ codes s

unfoldable pub bytes_eq : Bytes → Bytes → Bool
bytes_eq [] [] = true
bytes_eq [] (y ∷ ys) = false
bytes_eq (x ∷ xs) [] = false
bytes_eq (x ∷ xs) (y ∷ ys) = (x == y) && bytes_eq xs ys

pub bytes_eq_iff : (a b : Bytes) → (bytes_eq a b ≡ true) ↔ (a ≡ b)
unfolding bytes_eq
bytes_eq_iff [] [] = ground arith
bytes_eq_iff [] (y ∷ ys) = ground arith
bytes_eq_iff (x ∷ xs) [] = ground arith
bytes_eq_iff (x ∷ xs) (y ∷ ys) = ground (arith, bytes_eq_iff xs ys)

unfoldable pub starts_with : Bytes → Bytes → Bool
starts_with xs [] = true
starts_with [] (p ∷ ps) = false
starts_with (x ∷ xs) (p ∷ ps) = (x == p) && starts_with xs ps

-- `v.to_le_bytes()` cut to `n` bytes.
abbrev pub le_bytes : ℕ → ℕ → Bytes
le_bytes zero v = []
le_bytes (suc n) v = v % 256 ∷ le_bytes n (v / 256)

-- The number that little-endian bytes stand for.
abbrev pub from_le : Bytes → ℕ
from_le [] = 0
from_le (b ∷ bs) = b + 256 * from_le bs

-- `buf[off..off + bs.len()].copy_from_slice(bs)`, in bounds.
abbrev pub overlay : Bytes → Bytes → Bytes
overlay [] ys = ys
overlay (b ∷ bs) [] = []
overlay (b ∷ bs) (y ∷ ys) = b ∷ overlay bs ys

unfoldable pub splice : Bytes → ℕ → Bytes → Bytes
splice buf zero bs = overlay bs buf
splice [] (suc n) bs = []
splice (x ∷ xs) (suc n) bs = x ∷ splice xs n bs

unfoldable pub slice : Bytes → ℕ → ℕ → Bytes
slice buf off n = take n (drop off buf)

pub length-le_bytes : (n v : ℕ) → length (le_bytes n v) ≡ n
length-le_bytes zero v = refl
length-le_bytes (suc n) v = ap suc (length-le_bytes n (v / 256))

length-overlay : (bs ys : Bytes) → length (overlay bs ys) ≡ length ys
length-overlay [] ys = refl
length-overlay (b ∷ bs) [] = refl
length-overlay (b ∷ bs) (y ∷ ys) = ap suc (length-overlay bs ys)

pub length-splice : (buf : Bytes) (off : ℕ) (bs : Bytes) → length (splice buf off bs) ≡ length buf
unfolding splice
length-splice buf zero bs = length-overlay bs buf
length-splice [] (suc n) bs = refl
length-splice (x ∷ xs) (suc n) bs = ap suc (length-splice xs n bs)

get_elem?-overlay :
    (bs ys : Bytes) (i : ℕ) → length bs ≤ i → get_elem? (overlay bs ys) i ≡ get_elem? ys i
get_elem?-overlay [] ys i h = refl
get_elem?-overlay (b ∷ bs) [] i h = refl
get_elem?-overlay (b ∷ bs) (y ∷ ys) zero h = absurd (omega arith)
get_elem?-overlay (b ∷ bs) (y ∷ ys) (suc i) h = get_elem?-overlay bs ys i (omega arith)

-- A write leaves every byte outside its range alone.
pub get_elem?-splice :
    (buf : Bytes) (off : ℕ) (bs : Bytes) (i : ℕ)
    → ((i < off) ⊎ (off + length bs ≤ i))
    → get_elem? (splice buf off bs) i ≡ get_elem? buf i
unfolding splice
get_elem?-splice buf zero bs i h = get_elem?-overlay bs buf i (omega arith)
get_elem?-splice [] (suc n) bs i h = refl
get_elem?-splice (x ∷ xs) (suc n) bs zero h = refl
get_elem?-splice (x ∷ xs) (suc n) bs (suc i) (inl h) =
    get_elem?-splice xs n bs i (inl (omega arith))
get_elem?-splice (x ∷ xs) (suc n) bs (suc i) (inr h) =
    get_elem?-splice xs n bs i (inr (omega arith))

take-overlay : (bs ys : Bytes) → length bs ≤ length ys → take (length bs) (overlay bs ys) ≡ bs
take-overlay [] ys h = refl
take-overlay (b ∷ bs) [] h = absurd (omega arith)
take-overlay (b ∷ bs) (y ∷ ys) h = ap (◌∷◌ b) (take-overlay bs ys (omega arith))

-- A write in bounds reads back.
pub slice-splice :
    (buf : Bytes) (off : ℕ) (bs : Bytes)
    → off + length bs ≤ length buf
    → slice (splice buf off bs) off (length bs) ≡ bs
unfolding slice splice
slice-splice buf zero bs h = take-overlay bs buf (omega arith)
slice-splice [] (suc n) bs h = absurd (omega arith)
slice-splice (x ∷ xs) (suc n) bs h = unfold slice splice in slice-splice xs n bs (omega arith)

pub from_le-le_bytes : (n v : ℕ) → v < 256 ^ n → from_le (le_bytes n v) ≡ v
from_le-le_bytes zero v h = omega arith
from_le-le_bytes (suc n) v h = omega (
  arith,
  from_le-le_bytes n (v / 256) (let e : v < 256 ^ n * 256 = rw (← pow-suc 256 n) h in omega arith),
)
