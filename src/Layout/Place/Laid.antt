-- ===== src/Layout/Place/Laid.antt =====
-- Placed sections lie one behind the other, aligned, at the file offset of their address
-- (peony-layout/src/lib.rs, place).
use peony.Base.{ℕ, ◌+◌, ◌*◌, ◌%◌, ◌^◌, ◌≤◌, ◌≡◌, List, [], ◌∷◌, ◌++◌, arith}
use peony.Layout.Align.{align_up, IsPower}
use peony.Layout.Align.Bounds.{align_up_bounds}
use peony.Layout.Group.{Builder}
use peony.Layout.Group.Packed.{All, IsOrdered, IsInput, IsPacked}
use peony.Layout.Place.{OutputSection, Placement, output_section, place_one, place}
use peony.Object.{InputObject}

-- What holds of one placed section.
pub record IsPlaced (objects : List InputObject) (base : ℕ) (s : OutputSection) : Type 0 where
  pub power : IsPower s.sh_addralign
  pub aligned : (q : ℕ) × (s.sh_addr ≡ q * s.sh_addralign)
  pub congruent : s.sh_addr ≡ base + s.sh_offset
  pub ordered : IsOrdered 0 s.contributions s.sh_size
  pub inputs : All (IsInput objects s.sh_addralign) s.contributions

-- The sections lie between the two addresses, each behind the one before.
abbrev pub IsLaid : List InputObject → ℕ → ℕ → List OutputSection → ℕ → Type 0
IsLaid objects base lo [] hi = lo ≤ hi
IsLaid objects base lo (s ∷ sections) hi =
    (lo ≤ s.sh_addr)
    × IsPlaced objects base s
    × IsLaid objects base (s.sh_addr + s.sh_size) sections hi

pub IsLaid-up :
    (objects : List InputObject) (base lo hi hi' : ℕ) (sections : List OutputSection)
    → IsLaid objects base lo sections hi
    → hi ≤ hi'
    → IsLaid objects base lo sections hi'
IsLaid-up objects base lo hi hi' [] h up = omega arith
IsLaid-up objects base lo hi hi' (s ∷ sections) (low, placed, h) up =
    (low, placed, IsLaid-up objects base (s.sh_addr + s.sh_size) hi hi' sections h up)

IsLaid-push :
    (objects : List InputObject) (base lo hi hi' : ℕ) (sections : List OutputSection)
    (s : OutputSection)
    → IsLaid objects base lo sections hi
    → hi ≤ s.sh_addr
    → IsPlaced objects base s
    → s.sh_addr + s.sh_size ≤ hi'
    → IsLaid objects base lo (sections ++ s ∷ []) hi'
IsLaid-push objects base lo hi hi' [] s h low placed high = (omega arith, placed, high)
IsLaid-push objects base lo hi hi' (t ∷ sections) s (first, there, h) low placed high = (
  first,
  there,
  IsLaid-push objects base (t.sh_addr + t.sh_size) hi hi' sections s h low placed high,
)

-- The bytes that the builders can take, with the gaps before them.
abbrev pub builders_room : List Builder → ℕ
builders_room [] = 0
builders_room (b ∷ builders) = b.align + b.size + builders_room builders

module _ (objects : List InputObject) (base lo : ℕ) where
  abbrev pub IsLaidOut : Placement → Type 0
  IsLaidOut p = IsLaid objects base lo p.sections p.va × (base ≤ p.va)

  place_one-IsLaidOut :
      (spent : ℕ) (b : Builder) (p : Placement)
      → IsLaidOut p
      → IsPacked objects spent b
      → p.va + (b.align + b.size) ≤ 2 ^ 64
      → IsLaidOut (place_one base b p)
        × (p.va ≤ (place_one base b p).va)
        × ((place_one base b p).va ≤ p.va + (b.align + b.size))
  unfolding place_one output_section
  place_one-IsLaidOut spent b p (laid, above) packed room =
      let (low, high, multiple) = align_up_bounds p.va b.align packed.power (omega arith) in
      let exact : (align_up p.va b.align + b.size) % 2 ^ 64 ≡ align_up p.va b.align + b.size =
        omega arith in
      let s = output_section base (align_up p.va b.align) b in
      let placed : IsPlaced objects base s = record {
        power = packed.power;
        aligned = multiple;
        congruent = omega arith;
        ordered = packed.ordered;
        inputs = packed.inputs;
      } in
      (
        (
          rw exact (
              IsLaid-push objects base lo p.va (align_up p.va b.align + b.size) p.sections s laid
                low placed (omega arith)),
          rw exact (omega arith),
        ),
        rw exact (omega arith),
        rw exact (omega arith),
      )

  pub place-IsLaidOut :
      (spent : ℕ) (builders : List Builder) (p : Placement)
      → IsLaidOut p
      → All (IsPacked objects spent) builders
      → p.va + builders_room builders ≤ 2 ^ 64
      → IsLaidOut (place base builders p)
        × (p.va ≤ (place base builders p).va)
        × ((place base builders p).va ≤ p.va + builders_room builders)
  unfolding place
  place-IsLaidOut spent [] p laid packed room = (laid, omega arith, omega arith)
  place-IsLaidOut spent (b ∷ builders) p laid (first, packed) room =
      let (now, up, most) = place_one-IsLaidOut spent b p laid first (omega arith) in
      let (done, later, bound) =
        place-IsLaidOut spent builders (place_one base b p) now packed (omega arith) in
      (done, omega arith, omega arith)
