-- ===== src/Gc/Traversal/Kept.antt =====
-- The invariant of the mark phase (peony-layout/src/gc.rs), and that an insertion keeps it.
use peony.Base.{
  ℕ, ◌≡◌, refl, sym, ◌∙◌, ◌↔◌, ap, subst, ◌⊎◌, inl, inr, Bool, true, true≢false, ◌&&◌, List, ◌∷◌,
  Option, none, some, get_elem?, bind_some, some-injective, none-ne-some, if◌then◌else◌, Bool-cases,
  Mem,
}
use peony.Base.Map.{pair_beq, pair_beq_iff}
use peony.Gc.Live.{LiveSections, insert, contains}
use peony.Gc.Live.Laws.{in_range, contains-insert, in_range-insert, insertion, outside, old, new}
use peony.Gc.Live.Start.{fits}
use peony.Gc.Targets.{GcTargetMaps}
use peony.Gc.Traversal.{GcWorkItem, key_of, item_for_key, push_item}
use peony.Gc.Traversal.Spec.{Reach, targets_of}
use peony.Object.{InputObject, section_pos}

module _ (live : LiveSections) (k j : ℕ × ℕ) where
  contains_kept : contains live j ≡ true → contains (insert live k).1 j ≡ true
  contains_kept c =
      contains-insert live k j
      ∙ (elim (Bool-cases (pair_beq k j && in_range live k)) [ inl h ↦ rw h refl | inr h ↦ rw h c ])

  contains_old : contains (insert live k).1 j ≡ true → (contains live j ≡ true) ⊎ (k ≡ j)
  contains_old c = elim (Bool-cases (pair_beq k j)) [
    | inl h ↦ inr ((pair_beq_iff k j).0 h)
    | inr h ↦ inl (
        ap (λ b. if b && in_range live k then true else contains live j) (sym h)
        ∙ sym (contains-insert live k j)
        ∙ c)
  ]

contains_now :
    (live : LiveSections) (k : ℕ × ℕ) → in_range live k ≡ true → contains (insert live k).1 k ≡ true
contains_now live k r =
    let same : pair_beq k k ≡ true = (pair_beq_iff k k).1 refl in
    contains-insert live k k
    ∙ ap (λ b. if b && in_range live k then true else contains live k) same
    ∙ ap (λ b. if b then true else contains live k) r

-- The item for a key has the key.
pub item_for_key-key_of :
    (objects : List InputObject) (k : ℕ × ℕ) (item : GcWorkItem)
    → item_for_key objects k ≡ some item
    → key_of item ≡ k
unfolding item_for_key
item_for_key-key_of objects (o, s) item e =
    let (obj, _, f) = bind_some (get_elem? objects o) _ item e in
    let (pos, _, g) = bind_some (section_pos obj s) _ item f in
    sym (ap key_of (some-injective _ item g))

Mem-push_item :
    (o : Option GcWorkItem) (item : GcWorkItem) (frontier : List GcWorkItem)
    → Mem item (push_item o frontier) ↔ (o ≡ some item) ⊎ Mem item frontier
Mem-push_item none item frontier = (inr, elim [ inl e ↦ absurd (none-ne-some _ e) | inr m ↦ m ])
Mem-push_item (some x) item frontier = (
  elim [ inl e ↦ inl (ap some (sym e)) | inr m ↦ inr m ],
  elim [ inl e ↦ inl (sym (some-injective x item e)) | inr m ↦ inr m ],
)

module _ (objects : List InputObject) (targets : GcTargetMaps) (starts : List (ℕ × ℕ)) where
  -- The key is in the set already, or it waits to be inserted.
  abbrev pub IsDue : List (ℕ × ℕ) → LiveSections → ℕ × ℕ → Type 0
  IsDue pending live j = (contains live j ≡ true) ⊎ Mem j pending

  -- All keys with a bit that the item's section refers to are in the set, or wait.
  abbrev pub IsDone : List (ℕ × ℕ) → LiveSections → GcWorkItem → Type 0
  IsDone pending live item =
      (j : ℕ × ℕ)
      → Mem j (targets_of objects targets item)
      → fits objects j ≡ true
      → IsDue pending live j

  pub record Inv (pending : List (ℕ × ℕ)) (live : LiveSections) (frontier : List GcWorkItem)
      : Type 0 where
    pub range : (k : ℕ × ℕ) → in_range live k ≡ fits objects k
    pub sound : (k : ℕ × ℕ) → contains live k ≡ true → Reach objects targets starts k
    pub due : (k : ℕ × ℕ) → Mem k pending → fits objects k ≡ true → Reach objects targets starts k
    pub queued :
        (item : GcWorkItem)
        → Mem item frontier
        → Reach objects targets starts (key_of item)
          × (item_for_key objects (key_of item) ≡ some item)
    pub begun : (k : ℕ × ℕ) → Mem k starts → fits objects k ≡ true → IsDue pending live k
    pub closed :
        (k : ℕ × ℕ) (item : GcWorkItem)
        → contains live k ≡ true
        → item_for_key objects k ≡ some item
        → Mem item frontier ⊎ IsDone pending live item

  -- The frontier after an insertion.
  abbrev pub pushed : Bool → ℕ × ℕ → List GcWorkItem → List GcWorkItem
  pushed fresh k frontier = if fresh then push_item (item_for_key objects k) frontier else frontier

  -- A key that is in the set, or has no bit, need not wait.
  Inv-drop :
      {k : ℕ × ℕ} {pending : List (ℕ × ℕ)} {live : LiveSections} {frontier : List GcWorkItem}
      → Inv (k ∷ pending) live frontier
      → (fits objects k ≡ true → contains live k ≡ true)
      → Inv pending live frontier
  Inv-drop {k} {pending} {live} i there =
      let settle : (j : ℕ × ℕ)
          → fits objects j ≡ true
          → IsDue (k ∷ pending) live j
          → IsDue pending live j =
        λ j f. elim [
          | inl c ↦ inl c
          | inr (inl e) ↦ inl (
              subst (λ x. contains live x ≡ true) (sym e)
                (there (subst (λ x. fits objects x ≡ true) e f)))
          | inr (inr m) ↦ inr m
        ] in
      record {
        range = i.range;
        sound = i.sound;
        due = λ j m. i.due j (inr m);
        queued = i.queued;
        begun = λ j m f. settle j f (i.begun j m f);
        closed = λ j item c e. elim (i.closed j item c e) [
          | inl m ↦ inl m
          | inr done ↦ inr (λ x m f. settle x f (done x m f))
        ];
      }

  Inv-add :
      {k : ℕ × ℕ} {pending : List (ℕ × ℕ)} {live : LiveSections} {frontier : List GcWorkItem}
      → Inv (k ∷ pending) live frontier
      → in_range live k ≡ true
      → Inv pending (insert live k).1 (push_item (item_for_key objects k) frontier)
  Inv-add {k} {pending} {live} {frontier} i r =
      let item_of = item_for_key objects k in
      let settle : (j : ℕ × ℕ) → IsDue (k ∷ pending) live j → IsDue pending (insert live k).1 j =
        λ j. elim [
          | inl c ↦ inl (contains_kept live k j c)
          | inr (inl e) ↦
              inl (subst (λ x. contains (insert live k).1 x ≡ true) (sym e) (contains_now live k r))
          | inr (inr m) ↦ inr m
        ] in
      let reach : Reach objects targets starts k = i.due k (inl refl) (sym (i.range k) ∙ r) in
      record {
        range = λ j. in_range-insert live k j ∙ i.range j;
        sound = λ j c. elim (contains_old live k j c) [
          | inl before ↦ i.sound j before
          | inr e ↦ subst (Reach objects targets starts) e reach
        ];
        due = λ j m. i.due j (inr m);
        queued = λ item m. elim ((Mem-push_item item_of item frontier).0 m) [
          | inl e ↦ rw (item_for_key-key_of objects k item e) (reach, e)
          | inr before ↦ i.queued item before
        ];
        begun = λ j m f. settle j (i.begun j m f);
        closed = λ j item c e. elim (contains_old live k j c) [
          | inl before ↦ elim (i.closed j item before e) [
            | inl m ↦ inl ((Mem-push_item item_of item frontier).1 (inr m))
            | inr done ↦ inr (λ x m f. settle x (done x m f))
          ]
          | inr same ↦ inl (
              (Mem-push_item item_of item frontier).1
                (inl (subst (λ x. item_for_key objects x ≡ some item) (sym same) e)))
        ];
      }

  pub Inv-insert :
      {k : ℕ × ℕ} {pending : List (ℕ × ℕ)} {live : LiveSections} {frontier : List GcWorkItem}
      → Inv (k ∷ pending) live frontier
      → Inv pending (insert live k).1 (pushed (insert live k).0 k frontier)
  Inv-insert {k} {pending} {live} {frontier} i = elim (insertion live k) [
    | outside r c e ↦ rw e (Inv-drop i (λ f. absurd (true≢false (sym f ∙ sym (i.range k) ∙ r))))
    | old r c e ↦ rw e (Inv-drop i (λ f. c))
    | new word w b r c e ↦ rw (ap (λ p. p.0) e) (Inv-add i r)
  ]
