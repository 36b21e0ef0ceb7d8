-- ===== src/Layout/Segments/Apart.antt =====
-- The input sections that are placed share no address, and lie at multiples of their alignments
-- (peony-layout/src/lib.rs, compute_layout_icf, pass 8).
use peony.Base.{
  ℕ, zero, suc, ◌+◌, ◌≤◌, ◌<◌, ◌≡◌, ap, List, [], ◌∷◌, ◌++◌, some, arith, get_elem?, some-injective,
  none-ne-some,
}
use peony.Layout.Group.{SectionContribution}
use peony.Layout.Group.Packed.{IsOrdered}
use peony.Layout.Place.{OutputSection}
use peony.Layout.Place.Laid.{IsLaid}
use peony.Object.{InputObject}

-- The address and the size of each contribution.
abbrev pub section_ranges : ℕ → List SectionContribution → List (ℕ × ℕ)
section_ranges sh_addr [] = []
section_ranges sh_addr (c ∷ cs) = (sh_addr + c.offset, c.size) ∷ section_ranges sh_addr cs

abbrev pub memory_ranges : List OutputSection → List (ℕ × ℕ)
memory_ranges [] = []
memory_ranges (s ∷ sections) = section_ranges s.sh_addr s.contributions ++ memory_ranges sections

-- The ranges lie between the two addresses, each behind the one before.
abbrev pub Ascends : ℕ → List (ℕ × ℕ) → ℕ → Type 0
Ascends lo [] hi = lo ≤ hi
Ascends lo ((a, n) ∷ ranges) hi = (lo ≤ a) × Ascends (a + n) ranges hi

Ascends-down :
    (lo lo' hi : ℕ) (ranges : List (ℕ × ℕ))
    → lo ≤ lo'
    → Ascends lo' ranges hi
    → Ascends lo ranges hi
Ascends-down lo lo' hi [] below h = omega arith
Ascends-down lo lo' hi ((a, n) ∷ ranges) below (first, h) = (omega arith, h)

section_ranges-Ascends :
    (sh_addr lo size hi : ℕ) (cs : List SectionContribution) (ranges : List (ℕ × ℕ))
    → IsOrdered lo cs size
    → Ascends (sh_addr + size) ranges hi
    → Ascends (sh_addr + lo) (section_ranges sh_addr cs ++ ranges) hi
section_ranges-Ascends sh_addr lo size hi [] ranges h later =
    Ascends-down (sh_addr + lo) (sh_addr + size) hi ranges (omega arith) later
section_ranges-Ascends sh_addr lo size hi (c ∷ cs) ranges (first, h) later = (
  omega arith,
  Ascends-down (sh_addr + c.offset + c.size) (sh_addr + (c.offset + c.size)) hi
      (section_ranges sh_addr cs ++ ranges) (omega arith)
      (section_ranges-Ascends sh_addr (c.offset + c.size) size hi cs ranges h later),
)

pub memory_ranges-Ascends :
    (objects : List InputObject) (base lo hi : ℕ) (sections : List OutputSection)
    → IsLaid objects base lo sections hi
    → Ascends lo (memory_ranges sections) hi
memory_ranges-Ascends objects base lo hi [] h = h
memory_ranges-Ascends objects base lo hi (s ∷ sections) (low, placed, h) =
    Ascends-down lo (s.sh_addr + 0) hi (memory_ranges (s ∷ sections)) (omega arith) (
      section_ranges-Ascends s.sh_addr 0 s.sh_size hi s.contributions (memory_ranges sections)
        placed.ordered (memory_ranges-Ascends objects base (s.sh_addr + s.sh_size) hi sections h))

Ascends-above :
    (lo hi j b m : ℕ) (ranges : List (ℕ × ℕ))
    → Ascends lo ranges hi
    → get_elem? ranges j ≡ some (b, m)
    → lo ≤ b
Ascends-above lo hi j b m [] h e = absurd (none-ne-some (b, m) e)
Ascends-above lo hi zero b m ((a, n) ∷ ranges) (first, h) e =
    let same : a ≡ b = ap (λ r. r.0) (some-injective (a, n) (b, m) e) in omega arith
Ascends-above lo hi (suc j) b m ((a, n) ∷ ranges) (first, h) e =
    let later = Ascends-above (a + n) hi j b m ranges h e in omega arith

pub Ascends-apart :
    (lo hi i j a n b m : ℕ) (ranges : List (ℕ × ℕ))
    → Ascends lo ranges hi
    → get_elem? ranges i ≡ some (a, n)
    → get_elem? ranges j ≡ some (b, m)
    → i < j
    → a + n ≤ b
Ascends-apart lo hi i j a n b m [] h e f less = absurd (none-ne-some (a, n) e)
Ascends-apart lo hi i zero a n b m ((c, k) ∷ ranges) h e f less = absurd (omega arith)
Ascends-apart lo hi zero (suc j) a n b m ((c, k) ∷ ranges) (first, h) e f less =
    let at : c ≡ a = ap (λ r. r.0) (some-injective (c, k) (a, n) e) in
    let long : k ≡ n = ap (λ r. r.1) (some-injective (c, k) (a, n) e) in
    let above = Ascends-above (c + k) hi j b m ranges h f in omega arith
Ascends-apart lo hi (suc i) (suc j) a n b m ((c, k) ∷ ranges) (first, h) e f less =
    Ascends-apart (c + k) hi i j a n b m ranges h e f (omega arith)
