-- ===== src/Cache/Plan/Accepted.antt =====
-- When a partial relink is accepted (peony-cache/src/lib.rs).
use peony.Base.{
  ℕ, ◌≤◌, ◌<◌, ◌≡◌, ◌↔◌, refl, ◌∙◌, ◌||◌, inr, List, [], ◌∷◌, none, some, arith, length,
}
use peony.Base.Bytes.{Bytes}
use peony.Base.Map.{get, bytes_key}
use peony.Cache.Index.{RelocReverseIndex}
use peony.Cache.Plan.{
  SectionRecord, PatchSectionRecord, PartialRelinkPlan, Names, contains, section_fallback, colored,
  plan_sections, plan_partial_relink, previous_sections, moved_reloc_sections,
}
use peony.Cache.Plan.Steps.{plan_sections-next, plan_sections-fine, inl-ne-inr}

-- The cached record of the section's name has its offset, address and size, and room for it.
abbrev pub Accepts : SectionRecord → PatchSectionRecord → Type 0
Accepts cached current =
    (cached.file_offset ≡ current.file_offset)
    × (cached.virtual_address ≡ current.virtual_address)
    × (current.size ≤ cached.capacity)
    × (current.size ≡ cached.size)

abbrev pub AllAccepted : List (Bytes × SectionRecord) → List PatchSectionRecord → Type 0
AllAccepted previous [] = Unit
AllAccepted previous (current ∷ sections) =
    ((cached : SectionRecord) × (get current.name previous ≡ some cached) × Accepts cached current)
    × AllAccepted previous sections

section_fallback-Accepts :
    (cached : SectionRecord) (current : PatchSectionRecord)
    → section_fallback cached current ≡ none
    → Accepts cached current
unfolding section_fallback
section_fallback-Accepts cached current e =
    (ground (arith, e), ground (arith, e), ground (arith, e), ground (arith, e))

Accepts-section_fallback :
    (cached : SectionRecord) (current : PatchSectionRecord)
    → Accepts cached current
    → section_fallback cached current ≡ none
unfolding section_fallback
Accepts-section_fallback cached current (o, v, c, s) = ground (arith, o, v, c, s)

plan_sections-AllAccepted :
    (previous : List (Bytes × SectionRecord)) (moved : Names) (sections : List PatchSectionRecord)
    (plan out : PartialRelinkPlan)
    → plan_sections previous moved sections plan ≡ inr out
    → AllAccepted previous sections
plan_sections-AllAccepted previous moved [] plan out e = tt
plan_sections-AllAccepted previous moved (current ∷ sections) plan out e =
    let (cached, there, fine, rest) =
      plan_sections-next previous moved current sections plan out e in
    (
      (cached, there, section_fallback-Accepts cached current fine),
      plan_sections-AllAccepted previous moved sections
          (colored plan current.name (current.input_changed || contains current.name moved)) out
          rest,
    )

AllAccepted-plan_sections :
    (previous : List (Bytes × SectionRecord)) (moved : Names) (sections : List PatchSectionRecord)
    (plan : PartialRelinkPlan)
    → AllAccepted previous sections
    → (out : PartialRelinkPlan) × (plan_sections previous moved sections plan ≡ inr out)
unfolding plan_sections
AllAccepted-plan_sections previous moved [] plan all = (plan, refl)
AllAccepted-plan_sections previous moved (current ∷ sections) plan ((cached, there, here), all) =
    let (out, e) =
      AllAccepted-plan_sections previous moved sections
        (colored plan current.name (current.input_changed || contains current.name moved)) all in
    (
      out,
      plan_sections-fine previous moved current sections plan cached there
            (Accepts-section_fallback cached current here)
          ∙ e,
    )

-- A plan is made just when there is a cached section and a current one, and for each current section the cached
-- sections have a record of its name, the last of that name, with its file offset, its address and its size and
-- with a capacity that the size does not exceed.
pub plan_partial_relink-AllAccepted :
    (cached : List SectionRecord) (sections : List PatchSectionRecord) (moved_symbol_ids : List ℕ)
    (rev_index : RelocReverseIndex) (reloc_sections : List Bytes)
    → ((plan : PartialRelinkPlan) × (plan_partial_relink cached sections moved_symbol_ids rev_index
            reloc_sections
          ≡ inr plan))
      ↔ ((0 < length cached)
          × (0 < length sections)
          × AllAccepted (previous_sections cached []) sections)
unfolding plan_partial_relink
plan_partial_relink-AllAccepted [] sections ids index rs =
    (λ (plan, e). absurd (inl-ne-inr e), λ (some_cached, some_current, all). absurd (omega arith))
plan_partial_relink-AllAccepted (sec ∷ cached) [] ids index rs =
    (λ (plan, e). absurd (inl-ne-inr e), λ (some_cached, some_current, all). absurd (omega arith))
plan_partial_relink-AllAccepted (sec ∷ cached) (current ∷ sections) ids index rs =
    let previous = previous_sections (sec ∷ cached) [] in
    let moved = moved_reloc_sections ids index rs in
    let start : PartialRelinkPlan = record {
      colors = [];
      red_sections = [];
      green_sections = [];
    } in
    (
      λ (plan, e). (
        omega arith,
        omega arith,
        plan_sections-AllAccepted previous moved (current ∷ sections) start plan e,
      ),
      λ (some_cached, some_current, all).
          AllAccepted-plan_sections previous moved (current ∷ sections) start all,
    )
