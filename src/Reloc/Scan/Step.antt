-- ===== src/Reloc/Scan/Step.antt =====
-- `RelocScanResult::add` (peony-reloc/src/types.rs) keeps the vector and the map in step, and a
-- run of it adds the given slots, each of them once.
use peony.Base.{
  ℕ, ◌≡◌, refl, sym, ◌∙◌, ap, subst, ◌↔◌, ◌⊎◌, inl, inr, true, true≢false, List, [], ◌∷◌, ◌++◌,
  none, some, is_some, Option-cases, Mem, Nodup, Mem-append_left, Mem-append_right, Mem-split,
  Nodup-push, if◌then◌else◌, Bool-cases,
}
use peony.Base.Map.{get, insert, get-insert}
use peony.Reloc.Slots.{
  SyntheticSlot, RelocScanResult, no_slots, add, slot_key_eq, slot_eq, slot_eq_iff,
}
use peony.Reloc.Scan.{add_slots, add_all}

-- The keys of the map are the slots of the vector, which has none twice.
abbrev pub IsInStep : RelocScanResult → Type 0
IsInStep r =
    Nodup r.slots × ((s : SyntheticSlot) → (is_some (get s r.slot_set) ≡ true) ↔ Mem s r.slots)

pub no_slots-IsInStep : IsInStep no_slots
unfolding no_slots get
no_slots-IsInStep = (tt, λ s. ((λ e. absurd cc), (λ m. absurd m)))

-- A step that keeps the invariant and adds exactly the slots of `more`.
abbrev pub Adds : RelocScanResult → List SyntheticSlot → RelocScanResult → Type 0
Adds r more r' = IsInStep r' × ((s : SyntheticSlot) → Mem s r'.slots ↔ (Mem s r.slots ⊎ Mem s more))

abbrev pushed : RelocScanResult → SyntheticSlot → RelocScanResult
pushed r slot = record { slots = r.slots ++ slot ∷ []; slot_set = insert slot 0 r.slot_set }

add-old :
    (r : RelocScanResult) (slot : SyntheticSlot) (v : ℕ)
    → get slot r.slot_set ≡ some v
    → add r slot ≡ r
unfolding add
add-old r slot v e = rw (e, add) refl

add-new :
    (r : RelocScanResult) (slot : SyntheticSlot)
    → get slot r.slot_set ≡ none
    → add r slot ≡ pushed r slot
unfolding add insert
add-new r slot e = rw (e, add) refl

Mem-push :
    (xs : List SyntheticSlot) (x y : SyntheticSlot)
    → Mem x (xs ++ y ∷ []) ↔ (Mem x xs ⊎ Mem x (y ∷ []))
Mem-push xs x y = (
  (λ m. Mem-split x xs (y ∷ []) m),
  (λ m. elim m [
    | inl i ↦ Mem-append_left x xs (y ∷ []) i
    | inr i ↦ Mem-append_right x xs (y ∷ []) i
  ]),
)

pushed-keys :
    (r : RelocScanResult) (slot s : SyntheticSlot)
    → IsInStep r
    → (is_some (get s (insert slot 0 r.slot_set)) ≡ true) ↔ Mem s (r.slots ++ slot ∷ [])
pushed-keys r slot s ok = elim (Bool-cases (slot_eq slot s)) [
  | inl e ↦ (
    (λ _. Mem-append_right s r.slots (slot ∷ []) (inl (sym ((slot_eq_iff slot s).0 e)))),
    (λ _.
        ap is_some (get-insert slot s 0 r.slot_set)
        ∙ ap (λ b. is_some (if b then some 0 else get s r.slot_set)) e),
  )
  | inr e ↦
      let same =
        get-insert slot s 0 r.slot_set ∙ ap (λ b. if b then some 0 else get s r.slot_set) e in
      (
        (λ k. Mem-append_left s r.slots (slot ∷ []) ((ok.1 s).0 (sym (ap is_some same) ∙ k))),
        (λ m. elim (Mem-split s r.slots (slot ∷ []) m) [
          | inl i ↦ ap is_some same ∙ (ok.1 s).1 i
          | inr (inl q) ↦ absurd (true≢false (sym ((slot_eq_iff slot s).1 (sym q)) ∙ e))
          | inr (inr z) ↦ absurd z
        ]),
      )
]

pushed-Adds :
    (r : RelocScanResult) (slot : SyntheticSlot)
    → IsInStep r
    → get slot r.slot_set ≡ none
    → Adds r (slot ∷ []) (pushed r slot)
pushed-Adds r slot ok e = (
  (
    Nodup-push r.slots slot ok.0 (λ m. true≢false (sym ((ok.1 slot).1 m) ∙ ap is_some e)),
    (λ s. pushed-keys r slot s ok),
  ),
  (λ s. Mem-push r.slots s slot),
)

add-Adds :
    (r : RelocScanResult) (slot : SyntheticSlot) → IsInStep r → Adds r (slot ∷ []) (add r slot)
add-Adds r slot ok = elim (Option-cases (get slot r.slot_set)) [
  | inl e ↦ subst (λ q. Adds r (slot ∷ []) q) (sym (add-new r slot e)) (pushed-Adds r slot ok e)
  | inr (v, e) ↦
      subst (λ q. Adds r (slot ∷ []) q) (sym (add-old r slot v e))
        (
          ok,
          (λ s. (
            (λ m. inl m),
            (λ m. elim m [
              | inl i ↦ i
              | inr (inl q) ↦ subst (λ x. Mem x r.slots) (sym q) ((ok.1 slot).0 (ap is_some e))
              | inr (inr z) ↦ absurd z
            ]),
          )),
        )
]

Adds-join :
    (r r' r'' : RelocScanResult) (xs ys : List SyntheticSlot)
    → Adds r xs r'
    → Adds r' ys r''
    → Adds r (xs ++ ys) r''
Adds-join r r' r'' xs ys a b = (
  b.0,
  (λ s. (
    (λ m. elim ((b.1 s).0 m) [
      | inr j ↦ inr (Mem-append_right s xs ys j)
      | inl i ↦ elim ((a.1 s).0 i) [ inl k ↦ inl k | inr k ↦ inr (Mem-append_left s xs ys k) ]
    ]),
    (λ m. elim m [
      | inl i ↦ (b.1 s).1 (inl ((a.1 s).1 (inl i)))
      | inr k ↦ elim (Mem-split s xs ys k) [
        | inl i ↦ (b.1 s).1 (inl ((a.1 s).1 (inr i)))
        | inr j ↦ (b.1 s).1 (inr j)
      ]
    ]),
  )),
)

Adds-refl : (r : RelocScanResult) → IsInStep r → Adds r [] r
Adds-refl r ok = (ok, (λ s. ((λ m. inl m), (λ m. elim m [ inl i ↦ i | inr z ↦ absurd z ]))))

add_slots-Adds :
    (r : RelocScanResult) (xs : List SyntheticSlot) → IsInStep r → Adds r xs (add_slots r xs)
unfolding add_slots
add_slots-Adds r [] ok = Adds-refl r ok
add_slots-Adds r (x ∷ xs) ok =
    let a = add-Adds r x ok in
    Adds-join r (add r x) (add_slots (add r x) xs) (x ∷ []) xs a (add_slots-Adds (add r x) xs a.0)

abbrev pub concat : List (List SyntheticSlot) → List SyntheticSlot
concat [] = []
concat (xs ∷ xss) = xs ++ concat xss

pub add_all-Adds :
    (r : RelocScanResult) (xss : List (List SyntheticSlot))
    → IsInStep r
    → Adds r (concat xss) (add_all r xss)
unfolding add_all
add_all-Adds r [] ok = Adds-refl r ok
add_all-Adds r (xs ∷ xss) ok =
    let a = add_slots-Adds r xs ok in
    Adds-join r (add_slots r xs) (add_all (add_slots r xs) xss) xs (concat xss) a
      (add_all-Adds (add_slots r xs) xss a.0)
