-- ===== src/Layout/Script/Glob.antt =====
-- The patterns of a linker script against globs (peony-layout/src/script.rs, script_pattern_matches).
pub mod Exact
use peony.Base.{
  ℕ, suc, ◌+◌, ◌≡◌, refl, ap, sym, ◌∙◌, subst, Bool, true, false, not, ◌&&◌, ◌||◌, ◌⊎◌, inl, inr,
  List, [], ◌∷◌, ◌++◌, Option, none, some, ◌==◌, length, drop, arith, Bool-cases, Option-cases,
}
use peony.Base.Bytes.{Bytes, bytes_eq, bytes_eq_iff, starts_with}
use peony.Layout.Script.{
  find, split, ends_with, match_parts, match_first, script_pattern_matches, star, is_empty,
}

-- A star, the byte 42, stands for any text, and a byte for itself.
pub data Glob : Bytes → Bytes → Type 0 where
  nothing : Glob [] []
  byte : {pat name : Bytes} (b : ℕ) → Glob pat name → Glob (b ∷ pat) (b ∷ name)
  star_ends : {pat name : Bytes} → Glob pat name → Glob (42 ∷ pat) name
  star_takes : {pat name : Bytes} (b : ℕ) → Glob (42 ∷ pat) name → Glob (42 ∷ pat) (b ∷ name)

pub Glob-prefix :
    (part : Bytes) {pat name : Bytes} → Glob pat name → Glob (part ++ pat) (part ++ name)
Glob-prefix [] g = g
Glob-prefix (b ∷ part) g = byte b (Glob-prefix part g)

pub Glob-skip :
    (text : Bytes) {pat name : Bytes} → Glob (42 ∷ pat) name → Glob (42 ∷ pat) (text ++ name)
Glob-skip [] g = g
Glob-skip (b ∷ text) g = star_takes b (Glob-skip text g)

pub Glob-all : (name : Bytes) → Glob star name
Glob-all [] = star_ends nothing
Glob-all (b ∷ name) = star_takes b (Glob-all name)

starts_with-drop :
    (name part : Bytes) → starts_with name part ≡ true → name ≡ part ++ drop (length part) name
unfolding starts_with
starts_with-drop name [] h = refl
starts_with-drop [] (p ∷ part) h = absurd (ground (arith, h))
starts_with-drop (b ∷ name) (p ∷ part) h =
    let same : b ≡ p = ground (arith, h) in
    let rest = starts_with-drop name part (ground (arith, h)) in
    ap (λ t. b ∷ t) rest ∙ ap (λ t. t ∷ part ++ drop (length part) name) same

module _ (part : Bytes) where
  -- The text is found at the position.
  abbrev IsFoundAt : Bytes → ℕ → Type 0
  IsFoundAt name pos = (text : Bytes) × (name ≡ text ++ (part ++ drop (pos + length part) name))

  found_first : (name : Bytes) → starts_with name part ≡ true → IsFoundAt name 0
  found_first name h =
      ([], starts_with-drop name part h ∙ ap (λ n. part ++ drop n name) (omega arith))

  found_later : (b : ℕ) (name : Bytes) (i : ℕ) → IsFoundAt name i → IsFoundAt (b ∷ name) (suc i)
  found_later b name i (text, e) =
      let n : suc (i + length part) ≡ suc i + length part = omega arith in
      (b ∷ text, ap (λ t. b ∷ t) e ∙ ap (λ n. b ∷ (text ++ (part ++ drop n (b ∷ name)))) n)

  find-IsFoundAt : (name : Bytes) (pos : ℕ) → find part name ≡ some pos → IsFoundAt name pos
  unfolding find starts_with
  find-IsFoundAt [] pos h = elim (Bool-cases (bytes_eq part [])) [
    | inl empty ↦
        let at : 0 ≡ pos = ground (arith, h, empty) in
        let none_left : part ≡ [] = (bytes_eq_iff part []).0 empty in
        subst (λ p. IsFoundAt [] p) at (found_first [] (rw none_left refl))
    | inr more ↦ absurd (ground (arith, h, more))
  ]
  find-IsFoundAt (b ∷ name) pos h = elim (Bool-cases (starts_with (b ∷ name) part)) [
    | inl here ↦
        let at : 0 ≡ pos = ground (arith, h, here) in
        subst (λ p. IsFoundAt (b ∷ name) p) at (found_first (b ∷ name) here)
    | inr later ↦ elim (Option-cases (find part name)) [
      | inl missing ↦ absurd (ground (arith, h, later, missing))
      | inr (i, found) ↦
          let at : suc i ≡ pos = ground (arith, h, later, found) in
          subst (λ p. IsFoundAt (b ∷ name) p) at
            (found_later b name i (find-IsFoundAt name i found))
    ]
  ]

-- The rest of a pattern after its first part.
abbrev pub stars : List Bytes → Bytes
stars [] = []
stars (part ∷ parts) = 42 ∷ part ++ stars parts

abbrev pub ends_empty : List Bytes → Bool
ends_empty [] = false
ends_empty ([] ∷ []) = true
ends_empty ((b ∷ part) ∷ []) = false
ends_empty (part ∷ next ∷ parts) = ends_empty (next ∷ parts)

pub match_parts-found :
    (rest last : Bytes) (b : ℕ) (part : Bytes) (parts : List Bytes) (pos : ℕ)
    → find (b ∷ part) rest ≡ some pos
    → match_parts rest last ((b ∷ part) ∷ parts)
      ≡ match_parts (drop (pos + length (b ∷ part)) rest) (b ∷ part) parts
unfolding match_parts
match_parts-found rest last b part parts pos found =
    ap
      (λ o. elim o as (λ _. Option (Bytes × Bytes)) [
        | none ↦ none
        | some p ↦ match_parts (drop (p + length (b ∷ part)) rest) (b ∷ part) parts
      ])
      found

ends_later :
    (b : ℕ) (part : Bytes) (parts : List Bytes) {P : Type 0}
    → P ⊎ (ends_empty ((b ∷ part) ∷ parts) ≡ true)
    → P ⊎ (ends_empty parts ≡ true)
ends_later b part parts (inl p) = inl p
ends_later b part [] (inr h) = absurd (ground (arith, h))
ends_later b part (next ∷ parts) (inr h) = inr h

-- What the loop leaves is nothing, or a star at the end takes it.
match_parts-Glob :
    (rest last left final : Bytes) (parts : List Bytes)
    → match_parts rest last parts ≡ some (left, final)
    → (left ≡ []) ⊎ (ends_empty parts ≡ true)
    → Glob (stars parts) rest
unfolding match_parts
match_parts-Glob rest last left final [] h (inl empty) =
    let same : rest ≡ left = ground (arith, h) in
    subst (λ t. Glob [] t) (sym (same ∙ empty)) nothing
match_parts-Glob rest last left final [] h (inr bad) = absurd (ground (arith, bad))
match_parts-Glob rest last left final ([] ∷ []) h k = Glob-all rest
match_parts-Glob rest last left final ([] ∷ next ∷ parts) h k =
    star_ends (match_parts-Glob rest last left final (next ∷ parts) h k)
match_parts-Glob rest last left final ((b ∷ part) ∷ parts) h k =
    elim (Option-cases (find (b ∷ part) rest)) [
      | inl missing ↦ absurd (ground (arith, h, missing))
      | inr (pos, found) ↦
          let tail = drop (pos + length (b ∷ part)) rest in
          let later = sym (match_parts-found rest last b part parts pos found) ∙ h in
          let (text, e) = find-IsFoundAt (b ∷ part) rest pos found in
          let g =
            match_parts-Glob tail (b ∷ part) left final parts later (ends_later b part parts k) in
          subst (λ t. Glob (stars ((b ∷ part) ∷ parts)) t) (sym e)
            (Glob-skip text (star_ends (Glob-prefix (b ∷ part) g)))
    ]

pub split-at_star :
    (b : ℕ) (pat : Bytes) → (b == 42) ≡ true → split (b ∷ pat) ≡ ([], (split pat).0 ∷ (split pat).1)
unfolding split
split-at_star b pat h = rw h refl

pub split-at_byte :
    (b : ℕ) (pat : Bytes) → (b == 42) ≡ false → split (b ∷ pat) ≡ (b ∷ (split pat).0, (split pat).1)
unfolding split
split-at_byte b pat h = rw h refl

-- The parts of a pattern and the stars between them are the pattern.
pub split_lem : (pat : Bytes) → (split pat).0 ++ stars (split pat).1 ≡ pat
unfolding split
split_lem [] = refl
split_lem (b ∷ pat) = elim (Bool-cases (b == 42)) [
  | inl at_star ↦
      let same : 42 ≡ b = ground (arith, at_star) in
      ap (λ s. s.0 ++ stars s.1) (split-at_star b pat at_star)
      ∙ ap (λ t. 42 ∷ t) (split_lem pat)
      ∙ ap (λ c. c ∷ pat) same
  | inr plain ↦
      ap (λ s. s.0 ++ stars s.1) (split-at_byte b pat plain) ∙ ap (λ t. b ∷ t) (split_lem pat)
]

pub split-starts : (pat : Bytes) → starts_with pat star ≡ true → (split pat).0 ≡ []
unfolding split starts_with
split-starts [] h = refl
split-starts (b ∷ pat) h = let at_star : (b == 42) ≡ true = ground (arith, h) in rw at_star refl

ends_empty-longer :
    (part : Bytes) (parts : List Bytes) → ends_empty parts ≡ true → ends_empty (part ∷ parts) ≡ true
ends_empty-longer part [] h = absurd (ground (arith, h))
ends_empty-longer part (next ∷ parts) h = h

pub split-ends : (pat : Bytes) → ends_with pat star ≡ true → ends_empty (split pat).1 ≡ true
unfolding ends_with bytes_eq
split-ends [] h = absurd (ground (arith, h))
split-ends (b ∷ pat) h = elim (Bool-cases (bytes_eq (b ∷ pat) star)) [
  | inl last ↦
      let same = (bytes_eq_iff (b ∷ pat) star).0 last in
      subst (λ p. ends_empty (split p).1 ≡ true) (sym same) (unfold split in refl)
  | inr more ↦
      let later = split-ends pat (ground (arith, h, more)) in
      elim (Bool-cases (b == 42)) [
        | inl at_star ↦
            rw (split-at_star b pat at_star) (ends_empty-longer (split pat).0 (split pat).1 later)
        | inr plain ↦ rw (split-at_byte b pat plain) later
      ]
]

match_first-prefix :
    (anchored : Bool) (part name rest : Bytes)
    → (anchored ≡ true) ⊎ (part ≡ [])
    → match_first anchored part name ≡ some rest
    → name ≡ part ++ rest
unfolding match_first
match_first-prefix anchored [] name rest k h = ground (arith, h)
match_first-prefix true (b ∷ part) name rest k h = elim (Bool-cases (starts_with name (b ∷ part))) [
  | inl here ↦
      let left : drop (length (b ∷ part)) name ≡ rest = ground (arith, h, here) in
      starts_with-drop name (b ∷ part) here ∙ ap (λ t. b ∷ part ++ t) left
  | inr gone ↦ absurd (ground (arith, h, gone))
]
match_first-prefix false (b ∷ part) name rest (inl bad) h = absurd (ground (arith, bad))
match_first-prefix false (b ∷ part) name rest (inr bad) h = absurd (ground (arith, bad))

nothing_left : (x : Bool) (left : Bytes) → (x && is_empty left) ≡ true → left ≡ []
nothing_left x [] h = refl
nothing_left x (b ∷ left) h = absurd (ground (arith, h))

split-first :
    (pat name rest : Bytes)
    → match_first (not (starts_with pat star)) (split pat).0 name ≡ some rest
    → name ≡ (split pat).0 ++ rest
split-first pat name rest =
    match_first-prefix (not (starts_with pat star)) (split pat).0 name rest
      (elim (Bool-cases (starts_with pat star)) [
        | inl at_star ↦ inr (split-starts pat at_star)
        | inr plain ↦ inl (ap not plain)
      ])

-- A name that a pattern of a linker script matches is one that the pattern stands for as a glob.
pub script_pattern_matches-Glob :
    (pat name : Bytes) → script_pattern_matches pat name ≡ true → Glob pat name
unfolding script_pattern_matches
script_pattern_matches-Glob pat name h =
    let part = (split pat).0 in
    let parts = (split pat).1 in
    elim (Bool-cases (bytes_eq pat star)) [
      | inl all ↦ subst (λ p. Glob p name) (sym ((bytes_eq_iff pat star).0 all)) (Glob-all name)
      | inr other ↦ elim (Option-cases (match_first (not (starts_with pat star)) part name)) [
        | inl bad ↦ absurd (ground (arith, h, other, bad))
        | inr (rest, first) ↦ elim (Option-cases (match_parts rest [] parts)) [
          | inl bad ↦ absurd (ground (arith, h, other, first, bad))
          | inr ((left, final), later) ↦
              let checked : (not (not (ends_with pat star))
                    || (ends_with pat final && is_empty left))
                  ≡ true =
                ground (arith, h, other, first, later) in
              let k : (left ≡ []) ⊎ (ends_empty parts ≡ true) =
                elim (Bool-cases (ends_with pat star)) [
                  | inl loose ↦ inr (split-ends pat loose)
                  | inr closed ↦
                      inl
                        (nothing_left (ends_with pat final) left (ground (arith, checked, closed)))
                ] in
              let g = match_parts-Glob rest [] left final parts later k in
              subst (λ p. Glob p name) (split_lem pat)
                (subst (λ n. Glob (part ++ stars parts) n) (sym (split-first pat name rest first))
                  (Glob-prefix part g))
        ]
      ]
    ]
