-- ===== src/Gc/Live/Free.antt =====
-- How many keys can still be inserted into the set of live sections (peony-layout/src/gc/live.rs).
use peony.Base.{
  ℕ, zero, suc, ◌+◌, ◌/◌, ◌%◌, ◌≡◌, refl, ap, List, [], ◌∷◌, Option, none, some, arith, get_elem?,
  set, if◌then◌else◌,
}
use peony.Gc.Bits.{free_bits, free_bits-set_bit}
use peony.Gc.Live.{LiveSections, word_of, with_word, insert}
use peony.Gc.Live.Laws.{insertion, outside, old, new}

abbrev free_words : List ℕ → ℕ
free_words [] = 0
free_words (w ∷ ws) = free_bits 64 w + free_words ws

abbrev free_objects : List (List ℕ) → ℕ
free_objects [] = 0
free_objects (ws ∷ wss) = free_words ws + free_objects wss

-- The number of bits that are not set.
pub free : LiveSections → ℕ
free live = free_objects live.words_by_object

free_words-set :
    (ws : List ℕ) (i w v : ℕ)
    → get_elem? ws i ≡ some w
    → free_bits 64 w ≡ free_bits 64 v + 1
    → free_words ws ≡ free_words (set ws i v) + 1
free_words-set [] i w v e h = cc
free_words-set (x ∷ ws) zero w v e h =
    let same : x ≡ w = ground (arith, e) in omega (arith, ap (free_bits 64) same)
free_words-set (x ∷ ws) (suc i) w v e h = omega (arith, free_words-set ws i w v e h)

free_objects-set :
    (wss : List (List ℕ)) (i : ℕ) (ws vs : List ℕ)
    → get_elem? wss i ≡ some ws
    → free_words ws ≡ free_words vs + 1
    → free_objects wss ≡ free_objects (set wss i vs) + 1
free_objects-set [] i ws vs e h = cc
free_objects-set (x ∷ wss) zero ws vs e h =
    let same : x ≡ ws = ground (arith, e) in omega (arith, ap free_words same)
free_objects-set (x ∷ wss) (suc i) ws vs e h = omega (arith, free_objects-set wss i ws vs e h)

with_word-free :
    (live : LiveSections) (k : ℕ × ℕ) (word v n : ℕ)
    → word_of live k ≡ some word
    → free_bits 64 word ≡ free_bits 64 v + 1
    → free live ≡ free (with_word live k v n) + 1
unfolding free word_of with_word
with_word-free live (o, s) word v n e h = go (get_elem? live.words_by_object o) refl
  where
    go :
        (m : Option (List ℕ))
        → get_elem? live.words_by_object o ≡ m
        → free live ≡ free (with_word live (o, s) v n) + 1
    go none f = absurd (ground (arith, e, f))
    go (some words) f =
        let inner : get_elem? words (s / 64) ≡ some word = ground (arith, e, f) in
        rw (f, with_word)
          (free_objects-set live.words_by_object o words (set words (s / 64) v) f
            (free_words-set words (s / 64) word v inner h))

-- An insertion of a new key uses up one bit.
pub insert-free :
    (live : LiveSections) (k : ℕ × ℕ)
    → free live ≡ free (insert live k).1 + (if (insert live k).0 then 1 else 0)
insert-free live k = elim (insertion live k) [
  | outside r c e ↦ rw e (omega arith)
  | old r c e ↦ rw e (omega arith)
  | new word w b r c e ↦
      rw e (with_word-free live k word _ _ w (free_bits-set_bit 64 word (k.1 % 64) (omega arith) b))
]
