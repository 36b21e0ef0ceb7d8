-- ===== src/Layout/Group/Packed.antt =====
-- The contributions to an output section (peony-layout/src/lib.rs, compute_layout_icf, pass 5): they are the
-- input sections, one behind the other, each at a multiple of its alignment.
pub mod Grouped
use peony.Base.{
  ℕ, zero, suc, ◌+◌, ◌*◌, ◌%◌, ◌^◌, ◌≤◌, ◌<◌, ◌≡◌, refl, sym, subst, Bool, true, false, List, [],
  ◌∷◌, ◌++◌, Option, none, some, max, arith, get_elem?, inl, inr, ◌⊎◌, ◌==◌, if◌then◌else◌, leb,
  Bool-cases,
}
use peony.Layout.Align.{align_up, IsPower}
use peony.Layout.Align.Bounds.{align_up_bounds}
use peony.Layout.Group.{SectionContribution, Builder, contribute, align_of}
use peony.Object.{InputSection, InputObject}

abbrev pub All {ℓ κ} : {A : Type ℓ} → (A → Type κ) → List A → Type κ
All P [] = Unit
All P (x ∷ xs) = P x × All P xs

pub All-append {ℓ κ} :
    {A : Type ℓ} (P : A → Type κ) (xs ys : List A) → All P xs → All P ys → All P (xs ++ ys)
All-append P [] ys h k = k
All-append P (x ∷ xs) ys (here, h) k = (here, All-append P xs ys h k)

pub All-map {ℓ κ} :
    {A : Type ℓ} (P Q : A → Type κ) (xs : List A) → ((x : A) → P x → Q x) → All P xs → All Q xs
All-map P Q [] f h = tt
All-map P Q (x ∷ xs) f (here, h) = (f x here, All-map P Q xs f h)

-- The contributions lie between the two offsets, each behind the one before.
abbrev pub IsOrdered : ℕ → List SectionContribution → ℕ → Type 0
IsOrdered lo [] hi = lo ≤ hi
IsOrdered lo (c ∷ cs) hi = (lo ≤ c.offset) × IsOrdered (c.offset + c.size) cs hi

IsOrdered-push :
    (lo hi hi' : ℕ) (cs : List SectionContribution) (c : SectionContribution)
    → IsOrdered lo cs hi
    → hi ≤ c.offset
    → c.offset + c.size ≤ hi'
    → IsOrdered lo (cs ++ c ∷ []) hi'
IsOrdered-push lo hi hi' [] c h below above = (omega arith, above)
IsOrdered-push lo hi hi' (d ∷ cs) c (first, h) below above =
    (first, IsOrdered-push (d.offset + d.size) hi hi' cs c h below above)

-- The contribution is an input section's, with its size, at a multiple of its alignment, which is a power of two
-- and at most the one given.
abbrev pub IsInput : List InputObject → ℕ → SectionContribution → Type 0
IsInput objects align c =
    (obj : InputObject) × ((sec : InputSection) × (get_elem? objects c.object_id ≡ some obj)
      × (get_elem? obj.sections c.section_pos ≡ some sec)
      × (sec.index ≡ c.section_index)
      × (sec.size ≡ c.size)
      × IsPower (align_of sec)
      × ((q : ℕ) × (c.offset ≡ q * align_of sec))
      × (align_of sec ≤ align))

pub IsInput-mono :
    (objects : List InputObject) (a b : ℕ) (c : SectionContribution)
    → a ≤ b
    → IsInput objects a c
    → IsInput objects b c
IsInput-mono objects a b c h (obj, (sec, o, s, i, z, p, m, l)) =
    (obj, (sec, o, s, i, z, p, m, omega arith))

pub record IsPacked (objects : List InputObject) (spent : ℕ) (b : Builder) : Type 0 where
  pub power : IsPower b.align
  pub small : b.size ≤ spent
  pub ordered : IsOrdered 0 b.contributions b.size
  pub inputs : All (IsInput objects b.align) b.contributions

pub IsPower-max : (a b : ℕ) → IsPower a → IsPower b → IsPower (max a b)
IsPower-max a b p q = elim (Bool-cases (leb a b)) [
  | inl h ↦ let e : b ≡ max a b = ground (arith, h) in subst (λ n. IsPower n) e q
  | inr h ↦ let e : a ≡ max a b = ground (arith, h) in subst (λ n. IsPower n) e p
]

module _ (objects : List InputObject) where
  pub IsPacked-mono :
      (spent more : ℕ) (b : Builder)
      → spent ≤ more
      → IsPacked objects spent b
      → IsPacked objects more b
  IsPacked-mono spent more b h p = record {
    power = p.power;
    small = omega (arith, p.small);
    ordered = p.ordered;
    inputs = p.inputs;
  }

  pub contribute-IsPacked :
      (spent obj_idx section_pos : ℕ) (obj : InputObject) (sec : InputSection) (b : Builder)
      → IsPacked objects spent b
      → IsPower (align_of sec)
      → get_elem? objects obj_idx ≡ some obj
      → get_elem? obj.sections section_pos ≡ some sec
      → spent + (align_of sec + sec.size) ≤ 2 ^ 64
      → IsPacked objects
          (spent + (align_of sec + sec.size))
          (contribute obj_idx section_pos sec (align_of sec) b)
  unfolding contribute
  contribute-IsPacked spent obj_idx section_pos obj sec b p power there here room =
      let align = align_of sec in
      let c : SectionContribution = record {
        object_id = obj_idx;
        section_index = sec.index;
        section_pos = section_pos;
        offset = align_up b.size align;
        size = sec.size;
      } in
      let (low, high, multiple) = align_up_bounds b.size align power (omega (arith, p.small)) in
      let exact : (align_up b.size align + sec.size) % 2 ^ 64 ≡ align_up b.size align + sec.size =
        omega (arith, p.small) in
      record {
        power = IsPower-max b.align align p.power power;
        small = rw exact (omega (arith, p.small));
        ordered = rw exact (
            IsOrdered-push 0 b.size (align_up b.size align + sec.size) b.contributions c p.ordered
              low (omega arith));
        inputs =
            All-append (IsInput objects (max b.align align)) b.contributions (c ∷ [])
              (All-map (IsInput objects b.align) (IsInput objects (max b.align align))
                b.contributions
                (λ d. IsInput-mono objects b.align (max b.align align) d (omega arith)) p.inputs)
              ((obj, (sec, there, here, refl, refl, power, multiple, omega arith)), tt);
      }
