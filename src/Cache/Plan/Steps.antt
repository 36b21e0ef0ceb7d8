-- ===== src/Cache/Plan/Steps.antt =====
-- One round of the loop over the current sections (peony-cache/src/lib.rs).
use peony.Base.{
  ◌≡◌, refl, ap, sym, ◌∙◌, ◌||◌, ◌⊎◌, inl, inr, List, ◌∷◌, none, some, subst, Option-cases,
}
use peony.Base.Bytes.{Bytes}
use peony.Base.Map.{get, bytes_key}
use peony.Cache.Plan.{
  SectionRecord, PatchSectionRecord, PartialRelinkFallback, PartialRelinkPlan, Names, contains,
  section_fallback, colored, plan_sections, missing_previous_section,
}

abbrev pub Outcome : Type 0
Outcome = PartialRelinkFallback ⊎ PartialRelinkPlan

abbrev pub outcome : Outcome → Outcome
outcome o = o

abbrev plan_or : PartialRelinkPlan → Outcome → PartialRelinkPlan
plan_or plan (inl fallback) = plan
plan_or plan (inr made) = made

abbrev Made : Outcome → Type 0
Made (inl fallback) = ⊥
Made (inr plan) = Unit

pub inr-injective : {a b : PartialRelinkPlan} → outcome (inr a) ≡ inr b → a ≡ b
inr-injective {a} e = ap (plan_or a) e

pub inl-ne-inr : {f : PartialRelinkFallback} {a : PartialRelinkPlan} → ¬ (outcome (inl f) ≡ inr a)
inl-ne-inr e = subst Made (sym e) tt

module _ (previous : List (Bytes × SectionRecord)) (moved : Names) (current : PatchSectionRecord)
    (sections : List PatchSectionRecord) (plan : PartialRelinkPlan) where
  abbrev later : Outcome
  later =
      plan_sections previous moved sections
        (colored plan current.name (current.input_changed || contains current.name moved))

  plan_sections-missing :
      get current.name previous ≡ none
      → plan_sections previous moved (current ∷ sections) plan
        ≡ inl (missing_previous_section current.name)
  unfolding plan_sections
  plan_sections-missing e = rw (e, plan_sections) refl

  plan_sections-refused :
      (cached : SectionRecord) (fallback : PartialRelinkFallback)
      → get current.name previous ≡ some cached
      → section_fallback cached current ≡ some fallback
      → plan_sections previous moved (current ∷ sections) plan ≡ inl fallback
  unfolding plan_sections
  plan_sections-refused cached fallback e bad = rw (e, bad, plan_sections) refl

  pub plan_sections-fine :
      (cached : SectionRecord)
      → get current.name previous ≡ some cached
      → section_fallback cached current ≡ none
      → plan_sections previous moved (current ∷ sections) plan ≡ later
  unfolding plan_sections
  plan_sections-fine cached e fine = rw (e, fine, plan_sections) refl

  -- A loop that goes past a section found its record and refused nothing.
  pub plan_sections-next :
      (out : PartialRelinkPlan)
      → plan_sections previous moved (current ∷ sections) plan ≡ inr out
      → (cached : SectionRecord) × (get current.name previous ≡ some cached)
        × (section_fallback cached current ≡ none)
        × (later ≡ inr out)
  plan_sections-next out e = elim (Option-cases (get current.name previous)) [
    | inl missing ↦ absurd (inl-ne-inr (sym (plan_sections-missing missing) ∙ e))
    | inr (cached, there) ↦ elim (Option-cases (section_fallback cached current)) [
      | inl fine ↦ (cached, there, fine, sym (plan_sections-fine cached there fine) ∙ e)
      | inr (fallback, bad) ↦
          absurd (inl-ne-inr (sym (plan_sections-refused cached fallback there bad) ∙ e))
    ]
  ]
