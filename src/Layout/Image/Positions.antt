-- ===== src/Layout/Image/Positions.antt =====
-- The places of input sections among the contributions of the image (peony-layout/src/lib.rs, place).
use peony.Base.{
  ℕ, zero, suc, ◌+◌, ◌^◌, ◌≤◌, ◌<◌, ◌≡◌, ◌≢◌, refl, ap, sym, ◌∙◌, subst, ◌⊎◌, inl, inr, List, [],
  ◌∷◌, ◌++◌, none, some, arith, get_elem?, Mem, none-ne-some, some-injective, ltb, Bool-cases,
}
use peony.Base.Map.{get, pair_eq, pair_beq, pair_beq_iff}
use peony.Layout.Group.{SectionContribution}
use peony.Layout.Group.Packed.{IsInput}
use peony.Layout.Image.Addresses.{All-Mem, IsOrdered-Mem, IsLaid-Mem}
use peony.Layout.Place.{OutputSection}
use peony.Layout.Place.Laid.{IsLaid}
use peony.Layout.Segments.Apart.{section_ranges, memory_ranges}
use peony.Layout.Segments.Mapped.{FoldsTo, here, step, IsAddress}
use peony.Object.{InputObject, InputSection}

abbrev key_of : SectionContribution → ℕ × ℕ
key_of c = (c.object_id, c.section_index)

abbrev section_keys : List SectionContribution → List (ℕ × ℕ)
section_keys [] = []
section_keys (c ∷ cs) = key_of c ∷ section_keys cs

-- The keys of the contributions, in the order of the ranges.
abbrev pub memory_keys : List OutputSection → List (ℕ × ℕ)
memory_keys [] = []
memory_keys (s ∷ sections) = section_keys s.contributions ++ memory_keys sections

-- The range and the key stand at one place of their lists.
abbrev StandsAt : List (ℕ × ℕ) → List (ℕ × ℕ) → ℕ × ℕ → ℕ × ℕ → Type 0
StandsAt ranges keys range key =
    (k : ℕ) × (get_elem? ranges k ≡ some range) × (get_elem? keys k ≡ some key)

StandsAt-behind :
    (sh_addr : ℕ) (cs : List SectionContribution) (ranges keys : List (ℕ × ℕ)) (range key : ℕ × ℕ)
    → StandsAt ranges keys range key
    → StandsAt (section_ranges sh_addr cs ++ ranges) (section_keys cs ++ keys) range key
StandsAt-behind sh_addr [] ranges keys range key at = at
StandsAt-behind sh_addr (c ∷ cs) ranges keys range key at =
    let (k, e, f) = StandsAt-behind sh_addr cs ranges keys range key at in (suc k, e, f)

section_ranges-StandsAt :
    (sh_addr : ℕ) (c : SectionContribution) (cs : List SectionContribution)
    (ranges keys : List (ℕ × ℕ))
    → Mem c cs
    → StandsAt
        (section_ranges sh_addr cs ++ ranges)
        (section_keys cs ++ keys)
        (sh_addr + c.offset, c.size)
        (key_of c)
section_ranges-StandsAt sh_addr c [] ranges keys m = absurd m
section_ranges-StandsAt sh_addr c (d ∷ cs) ranges keys (inl same) =
    subst
      (λ x.
        StandsAt (section_ranges sh_addr (d ∷ cs) ++ ranges) (section_keys (d ∷ cs) ++ keys)
          (sh_addr + x.offset, x.size) (key_of x))
      (sym same) (0, refl, refl)
section_ranges-StandsAt sh_addr c (d ∷ cs) ranges keys (inr later) =
    let (k, e, f) = section_ranges-StandsAt sh_addr c cs ranges keys later in (suc k, e, f)

memory_ranges-StandsAt :
    (s : OutputSection) (c : SectionContribution) (sections : List OutputSection)
    → Mem s sections
    → Mem c s.contributions
    → StandsAt
        (memory_ranges sections)
        (memory_keys sections)
        (s.sh_addr + c.offset, c.size)
        (key_of c)
memory_ranges-StandsAt s c [] there m = absurd there
memory_ranges-StandsAt s c (t ∷ sections) (inl same) m =
    subst
      (λ x.
        StandsAt (memory_ranges (t ∷ sections)) (memory_keys (t ∷ sections))
          (x.sh_addr + c.offset, c.size) (key_of c))
      (sym same)
      (section_ranges-StandsAt t.sh_addr c t.contributions (memory_ranges sections)
        (memory_keys sections) (subst (λ x. Mem c x.contributions) same m))
memory_ranges-StandsAt s c (t ∷ sections) (inr later) m =
    StandsAt-behind t.sh_addr t.contributions (memory_ranges sections) (memory_keys sections)
      (s.sh_addr + c.offset, c.size) (key_of c) (memory_ranges-StandsAt s c sections later m)

get_elem?-Mem : {A : Type 0} (xs : List A) (k : ℕ) (x : A) → get_elem? xs k ≡ some x → Mem x xs
get_elem?-Mem [] k x e = absurd (none-ne-some x e)
get_elem?-Mem (y ∷ xs) zero x e = inl (sym (some-injective y x e))
get_elem?-Mem (y ∷ xs) (suc k) x e = inr (get_elem?-Mem xs k x e)

-- No two sections of the object have one index.
abbrev pub HasIndices : InputObject → Type 0
HasIndices obj =
    (a b : InputSection) → Mem a obj.sections → Mem b obj.sections → a.index ≡ b.index → a ≡ b

get-fold :
    (key canon : ℕ × ℕ) (folds : List ((ℕ × ℕ) × (ℕ × ℕ)))
    → Mem (key, canon) folds
    → get key folds ≢ none
unfolding get
get-fold key canon [] m = absurd m
get-fold key canon ((dup, other) ∷ folds) (inl same) =
    λ bad. absurd (ground (arith, bad, pair_beq_iff dup key, sym (ap (λ f. f.0) same)))
get-fold key canon ((dup, other) ∷ folds) (inr later) = elim (Bool-cases (pair_beq dup key)) [
  | inl equal ↦ λ bad. absurd (ground (arith, bad, equal))
  | inr apart ↦ λ bad. get-fold key canon folds later (ground (arith, bad, apart))
]

-- A key that is not folded folds onto itself alone.
pub FoldsTo-self :
    (folds : List ((ℕ × ℕ) × (ℕ × ℕ))) (last key : ℕ × ℕ)
    → get key folds ≡ none
    → FoldsTo folds last key
    → last ≡ key
FoldsTo-self folds last key h here = refl
FoldsTo-self folds last key h (step {next = next} m chain) = absurd (get-fold key next folds m h)

pub IsAddress-StandsAt :
    (objects : List InputObject) (base lo hi : ℕ) (sections : List OutputSection) (i va : ℕ)
    (obj : InputObject) (sec : InputSection)
    → IsLaid objects base lo sections hi
    → hi < 2 ^ 64
    → IsAddress sections (i, sec.index) va
    → get_elem? objects i ≡ some obj
    → Mem sec obj.sections
    → HasIndices obj
    → StandsAt (memory_ranges sections) (memory_keys sections) (va, sec.size) (i, sec.index)
IsAddress-StandsAt objects base lo hi sections i va obj sec laid small (s, (c, there, m, same, at))
      found inside indices =
    let (placed, above, below) = IsLaid-Mem objects base lo hi s sections laid there in
    let within = IsOrdered-Mem 0 s.sh_size c s.contributions placed.ordered m in
    let (obj', (sec', found', here', index, size, power, multiple, smaller)) =
      All-Mem (IsInput objects s.sh_addralign) c s.contributions placed.inputs m in
    let object : c.object_id ≡ i = ap (λ k. k.0) same in
    let one : obj' ≡ obj =
      some-injective obj' obj (sym found' ∙ ap (get_elem? objects) object ∙ found) in
    let listed =
      subst (λ o. Mem sec' o.sections) one (get_elem?-Mem obj'.sections c.section_pos sec' here') in
    let equal : sec' ≡ sec = indices sec' sec listed inside (index ∙ ap (λ k. k.1) same) in
    let exact : s.sh_addr + c.offset ≡ va = omega (arith, at) in
    let sized : c.size ≡ sec.size = sym size ∙ ap (λ x. x.size) equal in
    let range : (s.sh_addr + c.offset, c.size) ≡ (va, sec.size) =
      ap (λ n. (n, c.size)) exact ∙ ap (λ n. (va, n)) sized in
    subst (λ r. StandsAt (memory_ranges sections) (memory_keys sections) r (i, sec.index)) range
      (subst
        (λ k.
          StandsAt (memory_ranges sections) (memory_keys sections) (s.sh_addr + c.offset, c.size) k)
        same (memory_ranges-StandsAt s c sections there m))

-- The two keys' ranges, one behind the other.
pub StandsAt-apart :
    (ranges keys : List (ℕ × ℕ)) (a n b m : ℕ) (key other : ℕ × ℕ)
    → ((i j a n b m : ℕ)
        → get_elem? ranges i ≡ some (a, n)
        → get_elem? ranges j ≡ some (b, m)
        → i < j
        → a + n ≤ b)
    → StandsAt ranges keys (a, n) key
    → StandsAt ranges keys (b, m) other
    → key ≢ other
    → (a + n ≤ b) ⊎ (b + m ≤ a)
StandsAt-apart ranges keys a n b m key other apart (i, e, f) (j, g, h) differ =
    elim (Bool-cases (ltb i j)) [
      | inl less ↦ inl (apart i j a n b m e g (ground (arith, less)))
      | inr more ↦ elim (Bool-cases (ltb j i)) [
        | inl less ↦ inr (apart j i b m a n g e (ground (arith, less)))
        | inr same ↦
            let equal : i ≡ j = ground (arith, more, same) in
            absurd (differ (some-injective key other (sym f ∙ ap (get_elem? keys) equal ∙ h)))
      ]
    ]
