-- ===== src/Cache/RedGreen/Green.antt =====
-- The sections that the red-green pass leaves green (peony-cache/src/lib.rs).
use peony.Base.{
  ℕ, ◌≡◌, refl, ap, sym, ◌∙◌, subst, true, false, ◌⊎◌, inl, inr, List, [], ◌∷◌, some, ◌==◌, arith,
  if◌then◌else◌, Mem, Bool-cases, Option-cases, none-ne-some, some-injective,
}
use peony.Base.Bytes.{Bytes, bytes_eq, bytes_eq_iff}
use peony.Base.Map.{get, insert, bytes_key, get-insert}
use peony.Cache.Index.{RelocReverseIndex}
use peony.Cache.Plan.{
  SectionColor, green, red, Fingerprint, SectionRecord, section_references_moved_checked,
}
use peony.Cache.RedGreen.{
  ManifestFile, absent, unreadable, undecodable, decoded, cache_version, Coloring, all_red,
  fingerprint_eq, prev_fps, fingerprint_unchanged, color_of, color_sections, compute_red_green,
}

abbrev IsGreen : SectionColor → Type 0
IsGreen green = Unit
IsGreen red = ⊥

red-ne-green : ¬ (red ≡ green)
red-ne-green e = subst IsGreen (sym e) tt

-- What a section's color says after it was set: the color set last, or the one before.
get-insert_green :
    (name other : Bytes) (color : SectionColor) (coloring : Coloring)
    → get other (insert name color coloring) ≡ some green
    → ((name ≡ other) × (color ≡ green)) ⊎ (get other coloring ≡ some green)
get-insert_green name other color coloring e = elim (Bool-cases (bytes_eq name other)) [
  | inl same ↦ inl (
    (bytes_eq_iff name other).0 same,
    some-injective color green (
        sym (ap (λ b. if b then some color else get other coloring) same)
        ∙ sym (get-insert name other color coloring)
        ∙ e),
  )
  | inr apart ↦ inr (
      sym (ap (λ b. if b then some color else get other coloring) apart)
      ∙ sym (get-insert name other color coloring)
      ∙ e)
]

all_red-green :
    (sections : List (Bytes × Fingerprint)) (coloring : Coloring) (name : Bytes)
    → get name (all_red sections coloring) ≡ some green
    → get name coloring ≡ some green
unfolding all_red
all_red-green [] coloring name e = e
all_red-green ((other, fp) ∷ sections) coloring name e =
    elim (get-insert_green other name red coloring
      (all_red-green sections (insert other red coloring) name e)) [
        | inl (same, bad) ↦ absurd (red-ne-green bad)
        | inr before ↦ before
      ]

fingerprint_unchanged-get :
    (fps : List (Bytes × Fingerprint)) (name : Bytes) (fp : Fingerprint)
    → fingerprint_unchanged fps name fp ≡ true
    → get name fps ≡ some fp
unfolding fingerprint_unchanged fingerprint_eq
fingerprint_unchanged-get fps name fp e = elim (Option-cases (get name fps)) [
  | inl missing ↦ absurd (ground (arith, e, missing))
  | inr (prev, there) ↦
      let lens : prev.len ≡ fp.len = ground (arith, e, there) in
      let hashes : prev.hash ≡ fp.hash = ground (arith, e, there) in
      let same : prev ≡ fp = cc in there ∙ ap some same
]

module _ (fps : List (Bytes × Fingerprint)) (ids : List ℕ) (index : RelocReverseIndex)
    (rs : List Bytes) where
  -- A current section of the name is as it was, and no relocation of a moved symbol lies in it.
  abbrev pub IsKept : List (Bytes × Fingerprint) → Bytes → Type 0
  IsKept sections name =
      (fp : Fingerprint) × Mem (name, fp) sections
      × (get name fps ≡ some fp)
      × (section_references_moved_checked name index rs ids ≡ false)

  color_of-green :
      (name : Bytes) (fp : Fingerprint)
      → color_of fps ids index rs name fp ≡ green
      → (get name fps ≡ some fp) × (section_references_moved_checked name index rs ids ≡ false)
  color_of-green name fp e =
      let same : fingerprint_unchanged fps name fp ≡ true = ground (arith, e) in
      let still : section_references_moved_checked name index rs ids ≡ false = ground (arith, e) in
      (fingerprint_unchanged-get fps name fp same, still)

  color_sections-green :
      (sections : List (Bytes × Fingerprint)) (coloring : Coloring) (name : Bytes)
      → get name (color_sections fps ids index rs sections coloring) ≡ some green
      → IsKept sections name ⊎ (get name coloring ≡ some green)
  unfolding color_sections
  color_sections-green [] coloring name e = inr e
  color_sections-green ((other, fp) ∷ sections) coloring name e =
      elim (color_sections-green sections
        (insert other (color_of fps ids index rs other fp) coloring) name e) [
          | inl (later, m, there, still) ↦ inl (later, inr m, there, still)
          | inr now ↦
              elim (get-insert_green other name (color_of fps ids index rs other fp) coloring now) [
                | inl (same, fine) ↦
                    let (there, still) = color_of-green other fp fine in
                    inl (subst (IsKept ((other, fp) ∷ sections)) same (fp, inl refl, there, still))
                | inr before ↦ inr before
              ]
        ]

-- A section that the pass leaves green has a manifest of the cache's version behind it, in which the last section
-- of its name has the fingerprint that a current section of that name has; and by the test of that section no
-- relocation of a moved symbol lies in it.
pub compute_red_green-IsKept :
    (file : ManifestFile) (sections : List (Bytes × Fingerprint)) (ids : List ℕ)
    (index : RelocReverseIndex) (rs : List Bytes) (coloring : Coloring) (name : Bytes)
    → compute_red_green file sections ids index rs ≡ some coloring
    → get name coloring ≡ some green
    → (manifest_sections : List SectionRecord) × (file ≡ decoded cache_version manifest_sections)
      × IsKept (prev_fps manifest_sections []) ids index rs sections name
unfolding compute_red_green get
compute_red_green-IsKept absent sections ids index rs coloring name e g =
    absurd (
      none-ne-some green
        (all_red-green sections [] name (ap (get name) (some-injective _ _ e) ∙ g)))
compute_red_green-IsKept unreadable sections ids index rs coloring name e g =
    absurd (none-ne-some _ e)
compute_red_green-IsKept undecodable sections ids index rs coloring name e g =
    absurd (
      none-ne-some green
        (all_red-green sections [] name (ap (get name) (some-injective _ _ e) ∙ g)))
compute_red_green-IsKept (decoded version manifest_sections) sections ids index rs coloring name e
      g =
    elim (Bool-cases (version == cache_version)) [
      | inl same ↦
          let current : version ≡ cache_version = ground (arith, same) in
          let colored_now : some
                (color_sections (prev_fps manifest_sections []) ids index rs sections [])
              ≡ some coloring =
            ground (arith, e, same) in
          elim (color_sections-green (prev_fps manifest_sections []) ids index rs sections [] name
            (ap (get name) (some-injective _ _ colored_now) ∙ g)) [
              | inl kept ↦ (manifest_sections, ap (λ v. decoded v manifest_sections) current, kept)
              | inr never ↦ absurd (none-ne-some green never)
            ]
      | inr old ↦
          let all : some (all_red sections []) ≡ some coloring = ground (arith, e, old) in
          absurd (
            none-ne-some green
              (all_red-green sections [] name (ap (get name) (some-injective _ _ all) ∙ g)))
    ]
