-- ===== src/Gc/Live/Laws.antt =====
-- The set of live sections (peony-layout/src/gc/live.rs) as a set of keys.
use peony.Base.{
  ℕ, ◌+◌, ◌/◌, ◌%◌, ◌≡◌, refl, sym, ◌∙◌, ap, inl, inr, Bool, true, false, List, Option, none, some,
  arith, ◌==◌, if◌then◌else◌, get_elem?, set, Bool-cases, Option-cases, get_elem?-set_if, is_some,
  ◌&&◌, not,
}
use peony.Base.Map.{pair_beq, pair_beq_iff}
use peony.Gc.Bits.{bit, set_bit, bit-set_bit}
use peony.Gc.Live.{LiveSections, word_of, with_word, insert, contains}

-- Whether the set has a bit for the key.
unfoldable pub in_range : LiveSections → ℕ × ℕ → Bool
in_range live key = is_some (word_of live key)

-- Which word a key reads after a write.
word_of-with_word :
    (live : LiveSections) (k j : ℕ × ℕ) (word v n : ℕ)
    → word_of live k ≡ some word
    → word_of (with_word live k v n) j
      ≡ (if (k.0 == j.0) && (k.1 / 64 == j.1 / 64) then some v else word_of live j)
unfolding word_of with_word
word_of-with_word live (o, s) (p, t) word v n e = go (get_elem? live.words_by_object o) refl
  where
    go :
        (m : Option (List ℕ))
        → get_elem? live.words_by_object o ≡ m
        → word_of (with_word live (o, s) v n) (p, t)
          ≡ (if (o == p) && (s / 64 == t / 64) then some v else word_of live (p, t))
    go none f = absurd (ground (arith, e, f))
    go (some words) f =
        let inner : get_elem? words (s / 64) ≡ some word = ground (arith, e, f) in
        ground (
          arith,
          f,
          get_elem?-set_if live.words_by_object o p (set words (s / 64) v) f,
          get_elem?-set_if words (s / 64) (t / 64) v inner,
        )

abbrev same_word : ℕ × ℕ → ℕ × ℕ → Bool
same_word (o, s) (p, t) = (o == p) && (s / 64 == t / 64)

same_word_lem :
    (live : LiveSections) (k j : ℕ × ℕ)
    → same_word k j ≡ true
    → (k.0 ≡ j.0) × (k.1 / 64 ≡ j.1 / 64) × (word_of live j ≡ word_of live k)
unfolding word_of
same_word_lem live (o, s) (p, t) h =
    let a : o ≡ p = ground (arith, h) in
    let b : s / 64 ≡ t / 64 = ground (arith, h) in (a, b, rw (a, b) refl)

in_range-with_word :
    (live : LiveSections) (k j : ℕ × ℕ) (word v n : ℕ)
    → word_of live k ≡ some word
    → in_range (with_word live k v n) j ≡ in_range live j
unfolding in_range
in_range-with_word live k j word v n e =
    rw (word_of-with_word live k j word v n e) (elim (Bool-cases (same_word k j)) [
      | inl h ↦ rw (h, (same_word_lem live k j h).2, e) refl
      | inr h ↦ rw h refl
    ])

module _ (live : LiveSections) (k : ℕ × ℕ) where
  insert_outside : word_of live k ≡ none → insert live k ≡ (false, live)
  unfolding insert
  insert_outside e = rw (e, insert) refl

  insert_old :
      (word : ℕ)
      → word_of live k ≡ some word
      → bit word (k.1 % 64) ≡ true
      → insert live k ≡ (false, live)
  unfolding insert
  insert_old word e b = rw (e, insert, b) refl

  insert_new :
      (word : ℕ)
      → word_of live k ≡ some word
      → bit word (k.1 % 64) ≡ false
      → insert live k ≡ (true, with_word live k (set_bit word (k.1 % 64)) (live.len + 1))
  unfolding insert with_word
  insert_new word e b = rw (e, insert, b) refl

  contains_word : (word : ℕ) → word_of live k ≡ some word → contains live k ≡ bit word (k.1 % 64)
  unfolding contains
  contains_word word e = rw (e, contains) refl

  contains_outside : word_of live k ≡ none → contains live k ≡ false
  unfolding contains
  contains_outside e = rw (e, contains) refl

  in_range_word : (word : ℕ) → word_of live k ≡ some word → in_range live k ≡ true
  unfolding in_range
  in_range_word word e = rw (e, in_range) refl

  in_range_outside : word_of live k ≡ none → in_range live k ≡ false
  unfolding in_range
  in_range_outside e = rw (e, in_range) refl

  -- The three cases of an insertion.
  pub data Insertion : Type 0 where
    outside :
        in_range live k ≡ false
        → contains live k ≡ false
        → insert live k ≡ (false, live)
        → Insertion
    old :
        in_range live k ≡ true → contains live k ≡ true → insert live k ≡ (false, live) → Insertion
    new :
        (word : ℕ)
        → word_of live k ≡ some word
        → bit word (k.1 % 64) ≡ false
        → in_range live k ≡ true
        → contains live k ≡ false
        → insert live k ≡ (true, with_word live k (set_bit word (k.1 % 64)) (live.len + 1))
        → Insertion

  pub insertion : Insertion
  insertion = elim (Option-cases (word_of live k)) [
    | inl e ↦ outside (in_range_outside e) (contains_outside e) (insert_outside e)
    | inr (word, e) ↦ elim (Bool-cases (bit word (k.1 % 64))) [
      | inl b ↦ old (in_range_word word e) (contains_word word e ∙ b) (insert_old word e b)
      | inr b ↦ new word e b (in_range_word word e) (contains_word word e ∙ b) (insert_new word e b)
    ]
  ]

  -- `insert` returns whether the key has a bit that was not set.
  pub insert-fresh : (insert live k).0 ≡ (in_range live k && not (contains live k))
  insert-fresh = elim insertion [
    | outside r c e ↦ rw (r, e) refl
    | old r c e ↦ rw (r, c, e) refl
    | new word w b r c e ↦ rw (r, c, e) refl
  ]

  pub in_range-insert : (j : ℕ × ℕ) → in_range (insert live k).1 j ≡ in_range live j
  in_range-insert j = elim insertion [
    | outside r c e ↦ rw e refl
    | old r c e ↦ rw e refl
    | new word w b r c e ↦ rw e (in_range-with_word live k j word _ _ w)
  ]

bit_at :
    (live : LiveSections) (j : ℕ × ℕ) (o : Option ℕ)
    → word_of live j ≡ o
    → contains live j ≡ elim o as (λ _. Bool) [ none ↦ false | some word ↦ bit word (j.1 % 64) ]
unfolding contains
bit_at live j o e = rw (e, contains) refl

contains_same :
    (live live' : LiveSections) (j : ℕ × ℕ)
    → word_of live' j ≡ word_of live j
    → contains live' j ≡ contains live j
unfolding contains
contains_same live live' j e =
    ap (λ o. elim o as (λ _. Bool) [ none ↦ false | some word ↦ bit word (j.1 % 64) ]) e

contains-with_word :
    (live : LiveSections) (k j : ℕ × ℕ) (word n : ℕ)
    → word_of live k ≡ some word
    → contains (with_word live k (set_bit word (k.1 % 64)) n) j
      ≡ (if pair_beq k j then true else contains live j)
contains-with_word live (o, s) (p, t) word n e =
    let read = word_of-with_word live (o, s) (p, t) word (set_bit word (s % 64)) n e in
    elim (Bool-cases (same_word (o, s) (p, t))) [
      | inl h ↦
          let (a, b, same) = same_word_lem live (o, s) (p, t) h in
          let law = bit-set_bit word (s % 64) (t % 64) in
          rw
            (
              bit_at _ (p, t) _
                  (read
                    ∙ ap (λ c. if c then some (set_bit word (s % 64)) else word_of live (p, t)) h),
              bit_at live (p, t) _ (same ∙ e),
              law,
            )
            (ground arith)
      | inr h ↦
          let differ : pair_beq (o, s) (p, t) ≡ false = ground (arith, h) in
          rw differ (
            contains_same live _ (p, t)
              (read ∙ ap (λ c. if c then some (set_bit word (s % 64)) else word_of live (p, t)) h))
    ]

-- After `insert` the key is in the set if the set has a bit for it, and the rest is as before.
pub contains-insert :
    (live : LiveSections) (k j : ℕ × ℕ)
    → contains (insert live k).1 j
      ≡ (if pair_beq k j && in_range live k then true else contains live j)
contains-insert live k j = elim (insertion live k) [
  | outside r c e ↦ rw (r, e) (ground arith)
  | old r c e ↦
      rw (r, e)
        (elim (Bool-cases (pair_beq k j)) [
          | inl h ↦ rw h (ap (contains live) (sym ((pair_beq_iff k j).0 h)) ∙ c)
          | inr h ↦ rw h refl
        ])
  | new word w b r c e ↦ rw (r, e) (contains-with_word live k j word _ w ∙ ground arith)
]
