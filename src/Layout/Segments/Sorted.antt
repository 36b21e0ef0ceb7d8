-- ===== src/Layout/Segments/Sorted.antt =====
-- What the sorts and the split of the builders keep (peony-layout/src/lib.rs, compute_layout_icf, pass 8).
use peony.Base.{◌+◌, ◌≡◌, refl, ap, ◌∙◌, Bool, List, [], ◌∷◌, arith, inl, inr, Bool-cases}
use peony.Base.Sort.{insert_by, sort_unstable_by}
use peony.Layout.Group.{Builder}
use peony.Layout.Group.Packed.{All}
use peony.Layout.Place.Laid.{builders_room}
use peony.Layout.Segments.{is_relro, split_relro}

module _ (P : Builder → Type 0) (le : Builder → Builder → Bool) where
  All-insert_by :
      (b : Builder) (builders : List Builder)
      → P b
      → All P builders
      → All P (insert_by le b builders)
  unfolding insert_by
  All-insert_by b [] here h = (here, tt)
  All-insert_by b (c ∷ builders) here (first, h) = elim (Bool-cases (le b c)) [
    | inl before ↦ rw before (here, (first, h))
    | inr after ↦ rw after (first, All-insert_by b builders here h)
  ]

  pub All-sort : (builders : List Builder) → All P builders → All P (sort_unstable_by le builders)
  unfolding sort_unstable_by
  All-sort [] h = h
  All-sort (b ∷ builders) (here, h) =
      All-insert_by b (sort_unstable_by le builders) here (All-sort builders h)

module _ (le : Builder → Builder → Bool) where
  room-insert_by :
      (b : Builder) (builders : List Builder)
      → builders_room (insert_by le b builders) ≡ b.align + b.size + builders_room builders
  unfolding insert_by
  room-insert_by b [] = refl
  room-insert_by b (c ∷ builders) = elim (Bool-cases (le b c)) [
    | inl before ↦ rw before refl
    | inr after ↦ rw after (omega (arith, room-insert_by b builders))
  ]

  pub room-sort :
      (builders : List Builder)
      → builders_room (sort_unstable_by le builders) ≡ builders_room builders
  unfolding sort_unstable_by
  room-sort [] = refl
  room-sort (b ∷ builders) =
      room-insert_by b (sort_unstable_by le builders)
      ∙ ap (λ n. b.align + b.size + n) (room-sort builders)

pub All-split_relro :
    (P : Builder → Type 0) (builders : List Builder)
    → All P builders
    → All P (split_relro builders).0 × All P (split_relro builders).1
unfolding split_relro
All-split_relro P [] h = (h, h)
All-split_relro P (b ∷ builders) (here, h) =
    let (front, back) = All-split_relro P builders h in
    elim (Bool-cases (is_relro b.name)) [
      | inl relro ↦ rw relro ((here, front), back)
      | inr other ↦ rw other (tt, (here, h))
    ]

pub room-split_relro :
    (builders : List Builder)
    → builders_room (split_relro builders).0 + builders_room (split_relro builders).1
      ≡ builders_room builders
unfolding split_relro
room-split_relro [] = refl
room-split_relro (b ∷ builders) = elim (Bool-cases (is_relro b.name)) [
  | inl relro ↦ rw relro (omega (arith, room-split_relro builders))
  | inr other ↦ rw other (omega arith)
]
