-- ===== src/Layout/RelaDyn/Dynamic.antt =====
-- The entries of `.dynamic` and the patch of one of them (peony-layout/src/lib.rs, patch_dt_tag).
use peony.Base.{
  ℕ, zero, suc, ◌+◌, ◌*◌, ◌^◌, ◌≤◌, ◌<◌, ◌≡◌, refl, ap, sym, ◌∙◌, true, false, inl, inr, List, [],
  ◌∷◌, ◌++◌, arith, ◌==◌, leb, if◌then◌else◌, length, length-append, take, drop, Bool-cases,
}
use mathlib.Core.List.{append_assoc}
use peony.Base.Bytes.{Bytes, le_bytes, from_le, slice, splice, from_le-le_bytes}
use peony.Layout.RelaDyn.{patch_from, patch_dt_tag}

-- Entries of a tag and a value, as 16 bytes each.
abbrev pub dyn_bytes : List (ℕ × ℕ) → Bytes
dyn_bytes [] = []
dyn_bytes ((t, v) ∷ tags) = le_bytes 8 t ++ (le_bytes 8 v ++ dyn_bytes tags)

abbrev pub HaveWords : List (ℕ × ℕ) → Type 0
HaveWords [] = Unit
HaveWords ((t, v) ∷ tags) = (t < 2 ^ 64) × HaveWords tags

-- The first entry of the tag, before one of the tag 0, gets the value.
abbrev pub set_entry : ℕ → ℕ → List (ℕ × ℕ) → List (ℕ × ℕ)
set_entry tag value [] = []
set_entry tag value ((t, v) ∷ tags) =
    let rest = set_entry tag value tags in
    if t == tag then (t, value) ∷ tags else if t == 0 then (t, v) ∷ tags else (t, v) ∷ rest

pub set_entry-HaveWords :
    (tag value : ℕ) (tags : List (ℕ × ℕ)) → HaveWords tags → HaveWords (set_entry tag value tags)
set_entry-HaveWords tag value [] h = tt
set_entry-HaveWords tag value ((t, v) ∷ tags) (small, h) =
    let later = set_entry-HaveWords tag value tags h in
    elim (Bool-cases (t == tag)) [
      | inl here ↦ rw here (small, h)
      | inr other ↦ (elim (Bool-cases (t == 0)) [
        | inl last ↦ rw (other, last) (small, h)
        | inr more ↦ rw (other, more) (small, later)
      ])
    ]

drop-append : (pre ys : Bytes) → drop (length pre) (pre ++ ys) ≡ ys
drop-append [] ys = refl
drop-append (b ∷ pre) ys = drop-append pre ys

splice-append :
    (pre ys bs : Bytes) (n : ℕ) → splice (pre ++ ys) (length pre + n) bs ≡ pre ++ splice ys n bs
unfolding splice
splice-append [] ys bs n = ap (λ k. splice ys k bs) (omega arith)
splice-append (b ∷ pre) ys bs n =
    let e : suc (length pre) + n ≡ suc (length pre + n) = omega arith in
    ap (λ k. splice (b ∷ pre ++ ys) k bs) e ∙ ap (λ t. b ∷ t) (splice-append pre ys bs n)

module _ (pre : Bytes) (t v : ℕ) (tags : List (ℕ × ℕ)) where
  tag_at : t < 2 ^ 64 → from_le (slice (pre ++ dyn_bytes ((t, v) ∷ tags)) (length pre) 8) ≡ t
  unfolding slice
  tag_at small =
      ap (λ ys. from_le (take 8 ys)) (drop-append pre (dyn_bytes ((t, v) ∷ tags)))
      ∙ from_le-le_bytes 8 t small

  value_at :
      (value : ℕ)
      → splice (pre ++ dyn_bytes ((t, v) ∷ tags)) (length pre + 8) (le_bytes 8 value)
        ≡ pre ++ dyn_bytes ((t, value) ∷ tags)
  unfolding splice
  value_at value = splice-append pre (dyn_bytes ((t, v) ∷ tags)) (le_bytes 8 value) 8

  longer :
      pre ++ dyn_bytes ((t, v) ∷ tags) ≡ (pre ++ (le_bytes 8 t ++ le_bytes 8 v)) ++ dyn_bytes tags
  longer = sym (append_assoc pre (le_bytes 8 t ++ le_bytes 8 v) (dyn_bytes tags))

patch_from_step :
    (fuel i tag value t : ℕ) (d : Bytes)
    → leb (i + 16) (length d) ≡ true
    → from_le (slice d i 8) ≡ t
    → patch_from (suc fuel) i tag value d ≡ (
        if t == tag
        then splice d (i + 8) (le_bytes 8 value)
        else if t == 0
        then d
        else patch_from fuel (i + 16) tag value d)
unfolding patch_from
patch_from_step fuel i tag value t d long at = rw (long, at) refl

patch_from_end :
    (fuel i tag value : ℕ) (d : Bytes)
    → leb (i + 16) (length d) ≡ false
    → patch_from (suc fuel) i tag value d ≡ d
unfolding patch_from
patch_from_end fuel i tag value d short = rw short refl

patch_from-set_entry :
    (fuel tag value : ℕ) (pre : Bytes) (tags : List (ℕ × ℕ))
    → HaveWords tags
    → length tags ≤ fuel
    → patch_from fuel (length pre) tag value (pre ++ dyn_bytes tags)
      ≡ pre ++ dyn_bytes (set_entry tag value tags)
unfolding patch_from
patch_from-set_entry zero tag value pre [] h enough = refl
patch_from-set_entry zero tag value pre ((t, v) ∷ tags) h enough = absurd (omega arith)
patch_from-set_entry (suc fuel) tag value pre [] h enough =
    patch_from_end fuel (length pre) tag value (pre ++ []) (ground (arith, length-append pre []))
patch_from-set_entry (suc fuel) tag value pre ((t, v) ∷ tags) (small, h) enough =
    let d = pre ++ dyn_bytes ((t, v) ∷ tags) in
    let size = length-append pre (dyn_bytes ((t, v) ∷ tags)) in
    let long : leb (length pre + 16) (length d) ≡ true = ground (arith, size) in
    let next = pre ++ (le_bytes 8 t ++ le_bytes 8 v) in
    let behind : length next ≡ length pre + 16 = length-append pre (le_bytes 8 t ++ le_bytes 8 v) in
    let step = patch_from_step fuel (length pre) tag value t d long (tag_at pre t v tags small) in
    let rest : patch_from fuel (length pre + 16) tag value d
        ≡ pre ++ dyn_bytes ((t, v) ∷ set_entry tag value tags) =
      ap (λ i. patch_from fuel i tag value d) (sym behind)
      ∙ ap (λ b. patch_from fuel (length next) tag value b) (longer pre t v tags)
      ∙ patch_from-set_entry fuel tag value next tags h (omega arith)
      ∙ sym (longer pre t v (set_entry tag value tags)) in
    step ∙ (elim (Bool-cases (t == tag)) [
      | inl here ↦ rw here (value_at pre t v tags value)
      | inr other ↦ (elim (Bool-cases (t == 0)) [
        | inl last ↦ rw (other, last) refl
        | inr more ↦ rw (other, more) rest
      ])
    ])

length-dyn_bytes : (tags : List (ℕ × ℕ)) → length (dyn_bytes tags) ≡ 16 * length tags
length-dyn_bytes [] = refl
length-dyn_bytes ((t, v) ∷ tags) = omega (arith, length-dyn_bytes tags)

pub patch_dt_tag-set_entry :
    (tag value : ℕ) (tags : List (ℕ × ℕ))
    → HaveWords tags
    → patch_dt_tag tag value (dyn_bytes tags) ≡ dyn_bytes (set_entry tag value tags)
unfolding patch_dt_tag
patch_dt_tag-set_entry tag value tags h =
    patch_from-set_entry (length (dyn_bytes tags)) tag value [] tags h
      (omega (arith, length-dyn_bytes tags))
